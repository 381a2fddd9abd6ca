-- ===== src/Runtime/Rest.antt =====
-- The status that a run is marked with is the one on file afterwards: the events and the checkpoint
-- that follow leave the records of the runs alone (src/core/runtime/runtime_service.py).
pub mod Steps
pub mod Marked
pub mod Loop
use agent_roles.Common.{
  ℕ, String, ◌≡◌, refl, sym, ap, ◌∙◌, subst, Bool, true, false, Option, none, some, List, [], ◌∷◌,
  Result, ok, err, Error, arith, >>=-eq-ok, ok-injective, eq_iff, or_raise, key_error, ◌=ₛ◌,
  if◌then◌else◌,
}
use agent_roles.Common.Dict.{Dict, get, put, get-put}
use agent_roles.Value.{Fields}
use agent_roles.State.Models.{RunStatus, RunRecord, ReducedSnapshot}
use agent_roles.State.Patch.{
  StatePatch, ThreadRecordUpdate, ThreadStateUpdate, RunRecordUpdate, RunStateUpdate,
  set_run_record,
}
use agent_roles.State.Dataclass.{checked, apply_updates, bump_version, patch_record}
use agent_roles.State.Validation.{
  thread_record_class, run_record_class, thread_state_class, run_state_class,
}
use agent_roles.State.Reducer.{
  apply, apply_records, create_artifacts, create_interrupts, update_interrupts, record_artifact_ids,
  record_pending,
}
use agent_roles.Stores.State.{StateStore, persist_snapshot, build_snapshot}
use agent_roles.Stores.State.Laws.{OwnKeys}
use agent_roles.Runtime.Monad.{World, Action, continue_with, ◌>>=◌}
use agent_roles.Runtime.Marks.Effects.{records_patch}
use agent_roles.Runtime.Keys.{IsFiled}

-- The same record is on file for every run.
abbrev pub SameRuns : World → World → Type 0
SameRuns v w = (k : String) → get w.state_store.run_records k ≡ get v.state_store.run_records k

-- Inversion of a step that returned.
pub >>=-returned :
    {A B : Type 0} (m : Action A) (k : A → Action B) (w : World) {b : B} {w' : World}
    → (m >>= k) w ≡ (ok b, w')
    → (a : A) × (v : World) × (m w ≡ (ok a, v)) × (k a v ≡ (ok b, w'))
>>=-returned {A} {B} m k w {b} {w'} h = from (m w) refl h
  where
    from :
        (r : Result A × World)
        → m w ≡ r
        → continue_with r k ≡ (ok b, w')
        → (a : A) × (v : World) × (m w ≡ (ok a, v)) × (k a v ≡ (ok b, w'))
    from (ok a, v) e q = (a, v, e, q)
    from (err x, v) e q = absurd (ground arith)

-- A record that is found in a dict filed by its own ids has the id that was asked for.
pub found_id :
    (d : Dict RunRecord) (k : String) (r : RunRecord)
    → OwnKeys (λ r. r.run_id) d
    → get d k ≡ some r
    → r.run_id ≡ k
unfolding get
found_id [] k r o h = absurd (ground arith)
found_id ((j, v) ∷ d) k r o h = ground (arith, found_id d k r o.1, eq_iff j k, o.0)

present : (o : Option RunRecord) (r : RunRecord) → or_raise o key_error ≡ ok r → o ≡ some r
present none r h = absurd (ground arith)
present (some x) r h = ap some (ok-injective h)

-- The run's record of a snapshot that was built is the one on file.
pub built_run :
    (st : StateStore) (run_id : String) (s : ReducedSnapshot)
    → build_snapshot st run_id ≡ ok s
    → get st.run_records run_id ≡ some s.run_record
unfolding build_snapshot
built_run st run_id s h =
    let (r, e, h₁) = >>=-eq-ok (or_raise (get st.run_records run_id) key_error) _ h in
    let (_, _, h₂) = >>=-eq-ok (or_raise (get st.thread_records r.thread_id) key_error) _ h₁ in
    let (_, _, h₃) = >>=-eq-ok (or_raise (get st.run_states run_id) key_error) _ h₂ in
    let (_, _, h₄) = >>=-eq-ok (or_raise (get st.thread_states r.thread_id) key_error) _ h₃ in
    present (get st.run_records run_id) r e ∙ ap (λ x. some x.run_record) (ok-injective h₄)

-- Saving a snapshot with the record that is on file changes no run's record.
pub persist_same :
    (s : ReducedSnapshot) (st : StateStore) (k : String)
    → get st.run_records s.run_record.run_id ≡ some s.run_record
    → get (persist_snapshot s st).run_records k ≡ get st.run_records k
unfolding persist_snapshot
persist_same s st k h =
    ground (
      arith,
      get-put st.run_records s.run_record.run_id s.run_record k,
      eq_iff s.run_record.run_id k,
    )

-- A patch of the four records does what it does to the run's record.
pub records_patch_run :
    (tr : List ThreadRecordUpdate) (rr : List RunRecordUpdate) (ts : List ThreadStateUpdate)
    (rs : List RunStateUpdate) (s t : ReducedSnapshot)
    → apply s (records_patch tr rr ts rs) ≡ ok t
    → patch_record run_record_class s.run_record rr ≡ ok t.run_record
unfolding apply apply_records create_artifacts create_interrupts update_interrupts
    record_artifact_ids record_pending
records_patch_run tr rr ts rs s t h =
    let (u, e, last) = >>=-eq-ok (apply_records (records_patch tr rr ts rs) s) _ h in
    let (_, _, e₁) = >>=-eq-ok (patch_record thread_record_class s.thread_record tr) _ e in
    let (r, f, e₂) = >>=-eq-ok (patch_record run_record_class s.run_record rr) _ e₁ in
    let (_, _, e₃) = >>=-eq-ok (patch_record thread_state_class s.thread_state ts) _ e₂ in
    let (_, _, e₄) = >>=-eq-ok (patch_record run_state_class s.run_state rs) _ e₃ in
    f ∙ ap (λ x. ok x.run_record) (ok-injective e₄ ∙ ok-injective last)

-- The run's record after its status, and what goes with it, has been written.
abbrev pub Becomes : RunStatus → RunRecord → RunRecord → Type 0
Becomes status r t = (t.status ≡ status) × (t.run_id ≡ r.run_id)

module _ (r t : RunRecord) where
  pub paused_run :
      (status : RunStatus)
      → patch_record run_record_class r (RunRecordUpdate.status status ∷ []) ≡ ok t
      → Becomes status r t
  unfolding patch_record apply_updates bump_version checked set_run_record
  paused_run status h = (ground arith, ground arith)

  pub completed_run :
      (status : RunStatus) (at : Option ℕ)
      → patch_record run_record_class r
          (RunRecordUpdate.status status ∷ (RunRecordUpdate.ended_at at ∷ []))
        ≡ ok t
      → Becomes status r t
  unfolding patch_record apply_updates bump_version checked set_run_record
  completed_run status at h = (ground arith, ground arith)

  pub failed_run :
      (status : RunStatus) (at : Option ℕ) (code message : Option String)
      → patch_record run_record_class r (
          RunRecordUpdate.status status
          ∷ (RunRecordUpdate.ended_at at
              ∷ (RunRecordUpdate.failure_code code
                  ∷ (RunRecordUpdate.failure_message message ∷ []))))
        ≡ ok t
      → Becomes status r t
  unfolding patch_record apply_updates bump_version checked set_run_record
  failed_run status at code message h = (ground arith, ground arith)
