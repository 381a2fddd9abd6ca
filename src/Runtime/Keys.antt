-- ===== src/Runtime/Keys.antt =====
-- The records of the runs stay filed under their own ids, whatever the runtime does
-- (src/core/runtime/runtime_service.py).
pub mod Nodes
pub mod Rounds
use agent_roles.Common.{
  ℕ, String, ◌≡◌, refl, sym, ◌∙◌, subst, Bool, true, false, Option, none, some, List, [], ◌∷◌,
  Result, ok, err, Error,
}
use agent_roles.State.Models.{RunRecord, ReducedSnapshot}
use agent_roles.State.Patch.{StatePatch}
use agent_roles.State.Reducer.{apply}
use agent_roles.Events.Models.{EventDraft}
use agent_roles.Events.Emitter.{emit_run_events}
use agent_roles.Stores.State.{persist_snapshot}
use agent_roles.Stores.State.Laws.{OwnKeys, put-OwnKeys}
use agent_roles.Stores.Checkpoints.{CheckpointRecord, SnapshotPayload, CheckpointStore, create}
use agent_roles.Contracts.{Services}
use agent_roles.Runtime.Monad.{World, Action, continue_with, ◌>>=◌, ◌>>◌, pure, lift}
use agent_roles.Runtime.Store.{
  get_state, persist, apply_patch, now, new_id, emit, append_run_events, save_checkpoint,
  new_checkpoint, checkpoint,
}

-- Every run is filed under its id.
abbrev pub IsFiled : World → Type 0
IsFiled w = OwnKeys (λ r. r.run_id) w.state_store.run_records

-- An action keeps the runs filed, also if it raises.
abbrev pub Keeps : {A : Type 0} → Action A → Type 0
Keeps m = (w : World) → IsFiled w → IsFiled (m w).1

-- An action writes nothing into the store of states.
abbrev pub Untouched : {A : Type 0} → Action A → Type 0
Untouched m = (w : World) → (m w).1.state_store ≡ w.state_store

pub Untouched-Keeps : {A : Type 0} (m : Action A) → Untouched m → Keeps m
Untouched-Keeps m u w f = subst (λ st. OwnKeys (λ r. r.run_id) st.run_records) (sym (u w)) f

pub Untouched-then :
    {A B : Type 0} (r : Result A × World) (k : A → Action B)
    → ((a : A) → Untouched (k a))
    → (continue_with r k).1.state_store ≡ r.1.state_store
Untouched-then (ok a, v) k q = q a v
Untouched-then (err e, v) k q = refl

continued :
    {A B : Type 0} (r : Result A × World) (k : A → Action B)
    → IsFiled r.1
    → ((a : A) → Keeps (k a))
    → IsFiled (continue_with r k).1
continued (ok a, w) k h q = q a w h
continued (err e, w) k h q = h

pub >>=-Keeps :
    {A B : Type 0} (m : Action A) (k : A → Action B)
    → Keeps m
    → ((a : A) → Keeps (k a))
    → Keeps (m >>= k)
>>=-Keeps m k h q w f = continued (m w) k (h w f) q

-- A computation on values, and then an action.
pub lift-Keeps :
    {A B : Type 0} (r : Result A) (k : A → Action B)
    → ((a : A) → Keeps (k a))
    → Keeps (lift r >>= k)
lift-Keeps r k q = >>=-Keeps (lift r) k (λ w f. f) q

pub persist-Keeps : (s : ReducedSnapshot) → Keeps (persist s)
unfolding persist persist_snapshot
persist-Keeps s w f = put-OwnKeys (λ r. r.run_id) w.state_store.run_records s.run_record f

pub get_state-Keeps : (run_id : String) → Keeps (get_state run_id)
unfolding get_state
get_state-Keeps run_id w f = f

pub apply_patch-Keeps : (s : ReducedSnapshot) (p : StatePatch) → Keeps (apply_patch s p)
unfolding apply_patch
apply_patch-Keeps s p =
    lift-Keeps (apply s p) _ (λ r. >>=-Keeps (persist r) _ (persist-Keeps r) (λ _ w f. f))

module _ (sv : Services) where
  pub now-Keeps : Keeps (now sv)
  unfolding now
  now-Keeps w f = f

  pub new_id-Keeps : (prefix : String) → Keeps (new_id sv prefix)
  unfolding new_id
  new_id-Keeps prefix w f = f

  emit-Keeps : (run_id : String) (ds : List EventDraft) → Keeps (emit sv run_id ds)
  unfolding emit
  emit-Keeps run_id ds w f = f

  pub append_run_events-Keeps :
      (run_id : String) (ds : List EventDraft) → Keeps (append_run_events sv run_id ds)
  unfolding append_run_events
  append_run_events-Keeps run_id [] = λ w f. f
  append_run_events-Keeps run_id (d ∷ ds) =
      >>=-Keeps (emit sv run_id (d ∷ ds)) _ (emit-Keeps run_id (d ∷ ds)) (λ events.
        >>=-Keeps (get_state run_id) _ (get_state-Keeps run_id)
          (λ s. lift-Keeps (apply s _) persist persist-Keeps))

  saved_unchanged :
      (r : Result CheckpointStore) (w : World)
      → (elim r as (λ _. Result (Unit {0}) × World) [
        | ok st ↦ (ok tt, record w { checkpoint_store = st })
        | err e ↦ (err e, w)
      ]).1.state_store
        ≡ w.state_store
  saved_unchanged (ok st) w = refl
  saved_unchanged (err e) w = refl

  pub new_checkpoint-Untouched : (s : ReducedSnapshot) → Untouched (new_checkpoint sv s)
  unfolding new_checkpoint new_id now
  new_checkpoint-Untouched s w = checked_unchanged _ _ _
    where
      checked_unchanged :
          (c : Result CheckpointRecord) (p : SnapshotPayload) (v : World)
          → (continue_with (c, v) (λ c'. save_checkpoint sv c' p >> pure c')).1.state_store
            ≡ v.state_store
      checked_unchanged (err e) p v = refl
      checked_unchanged (ok c) p v =
          Untouched-then (save_checkpoint sv c p v) (λ _. pure c) (λ _ u. refl)
          ∙ saved_unchanged (create c p v.checkpoint_store) v

  pub checkpoint-Keeps : (s : ReducedSnapshot) → Keeps (checkpoint sv s)
  unfolding checkpoint
  checkpoint-Keeps snapshot =
      >>=-Keeps (get_state snapshot.run_record.run_id) _ (get_state-Keeps _) (λ s.
        >>=-Keeps (new_checkpoint sv s) _
          (Untouched-Keeps (new_checkpoint sv s) (new_checkpoint-Untouched s))
          (λ c. lift-Keeps _ _ (λ u. >>=-Keeps (persist u) _ (persist-Keeps u) (λ _ v g. g))))
