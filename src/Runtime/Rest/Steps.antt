-- ===== src/Runtime/Rest/Steps.antt =====
-- Events, checkpoints and marks, and the records of the runs (src/core/runtime/runtime_service.py).
use agent_roles.Common.{
  String, ◌≡◌, refl, sym, ap, ◌∙◌, subst, some, List, [], ◌∷◌, Result, ok, err, arith, ok-injective,
}
use agent_roles.Common.Dict.{get, put, get-put_self}
use agent_roles.Value.{Fields}
use agent_roles.State.Models.{RunStatus, RunRecord, ReducedSnapshot}
use agent_roles.State.Patch.{StatePatch}
use agent_roles.State.Dataclass.{patch_record}
use agent_roles.State.Validation.{run_record_class}
use agent_roles.State.Reducer.{apply}
use agent_roles.Events.Models.{EventDraft}
use agent_roles.Contracts.{Services}
use agent_roles.Stores.State.{StateStore, persist_snapshot, build_snapshot}
use agent_roles.Stores.State.Laws.{OwnKeys}
use agent_roles.Stores.Checkpoints.{CheckpointRecord}
use agent_roles.Runtime.Monad.{World, continue_with, ◌>>◌, pure, lift}
use agent_roles.Runtime.Store.{
  get_state, persist, apply_patch, emit, append_run_events, new_checkpoint, checkpoint, run_event,
}
use agent_roles.Runtime.Marks.{announce, mark}
use agent_roles.Runtime.Keys.{
  IsFiled, new_checkpoint-Untouched, apply_patch-Keeps, append_run_events-Keeps,
}
use agent_roles.Runtime.Rest.{
  SameRuns, >>=-returned, found_id, built_run, persist_same, records_patch_run, Becomes,
}

-- A snapshot that is built, changed but for its run's record, and saved, changes no run's record.
reread :
    (st : StateStore) (run_id : String) (s u : ReducedSnapshot) (k : String)
    → OwnKeys (λ r. r.run_id) st.run_records
    → build_snapshot st run_id ≡ ok s
    → u.run_record ≡ s.run_record
    → get (persist_snapshot u st).run_records k ≡ get st.run_records k
reread st run_id s u k o b e =
    let found = built_run st run_id s b in
    let id = found_id st.run_records run_id s.run_record o found in
    persist_same u st k
      (ap (get st.run_records) (ap (λ r. r.run_id) e ∙ id) ∙ found ∙ ap some (sym e))

-- A patch of the run's state, or of the thread's record, keeps the run's record.
unpatched : (r t : RunRecord) → patch_record run_record_class r [] ≡ ok t → t ≡ r
unfolding patch_record
unpatched r t h = sym (ok-injective h)

module _ (sv : Services) where
  append_same :
      (run_id : String) (ds : List EventDraft) (w w' : World)
      → IsFiled w
      → append_run_events sv run_id ds w ≡ (ok tt, w')
      → SameRuns w w'
  unfolding append_run_events emit get_state persist
  append_same run_id [] w w' f h k = ap (λ x. get x.1.state_store.run_records k) (sym h)
  append_same run_id (d ∷ ds) w w' f h k =
      let (events, v₁, e₁, h₁) = >>=-returned (emit sv run_id (d ∷ ds)) _ w h in
      let (s, v₂, e₂, h₂) = >>=-returned (get_state run_id) _ v₁ h₁ in
      let (u, v₃, e₃, h₃) = >>=-returned (lift (apply s _)) persist v₂ h₂ in
      let built : build_snapshot w.state_store run_id ≡ ok s =
        subst (λ st. build_snapshot st run_id ≡ ok s) (sym (ap (λ x. x.1.state_store) e₁))
          (ap (λ x. x.0) e₂) in
      let same : v₃.state_store ≡ w.state_store = sym (
        ap (λ x. x.1.state_store) e₁
        ∙ ap (λ x. x.1.state_store) e₂
        ∙ ap (λ x. x.1.state_store) e₃) in
      let record_kept =
        unpatched s.run_record u.run_record (records_patch_run [] [] [] _ s u (ap (λ x. x.0) e₃)) in
      ap (λ x. get x.1.state_store.run_records k) (sym h₃)
      ∙ ap (λ st. get (persist_snapshot u st).run_records k) same
      ∙ reread w.state_store run_id s u k f built record_kept

  checkpoint_same :
      (snapshot : ReducedSnapshot) (w w' : World) (c : CheckpointRecord)
      → IsFiled w
      → checkpoint sv snapshot w ≡ (ok c, w')
      → SameRuns w w'
  unfolding checkpoint get_state persist
  checkpoint_same snapshot w w' c f h k =
      let run_id = snapshot.run_record.run_id in
      let (s, v₁, e₁, h₁) = >>=-returned (get_state run_id) _ w h in
      let (c', v₂, e₂, h₂) = >>=-returned (new_checkpoint sv s) _ v₁ h₁ in
      let (u, v₃, e₃, h₃) = >>=-returned (lift (apply s _)) _ v₂ h₂ in
      let same : v₃.state_store ≡ w.state_store =
        sym (ap (λ x. x.1.state_store) e₃)
        ∙ sym (ap (λ x. x.1.state_store) e₂)
        ∙ new_checkpoint-Untouched sv s v₁
        ∙ sym (ap (λ x. x.1.state_store) e₁) in
      let record_kept =
        unpatched s.run_record u.run_record (records_patch_run _ [] [] [] s u (ap (λ x. x.0) e₃)) in
      ap (λ x. get x.1.state_store.run_records k) (sym h₃)
      ∙ ap (λ st. get (persist_snapshot u st).run_records k) same
      ∙ reread w.state_store run_id s u k f (ap (λ x. x.0) e₁) record_kept

apply_patch_lem :
    (s : ReducedSnapshot) (p : StatePatch) (w : World) (u : ReducedSnapshot) (v : World)
    → apply_patch s p w ≡ (ok u, v)
    → (apply s p ≡ ok u) × (v.state_store ≡ persist_snapshot u w.state_store)
unfolding apply_patch persist
apply_patch_lem s p w u v h = from (apply s p) refl h
  where
    from :
        (r : Result ReducedSnapshot)
        → apply s p ≡ r
        → continue_with (r, w) (λ x. persist x >> pure x) ≡ (ok u, v)
        → (apply s p ≡ ok u) × (v.state_store ≡ persist_snapshot u w.state_store)
    from (ok x) e q =
        let same : x ≡ u = ok-injective (ap (λ y. y.0) q) in
        (
          e ∙ ap ok same,
          sym (ap (λ y. y.1.state_store) q) ∙ ap (λ y. persist_snapshot y w.state_store) same,
        )
    from (err x) e q = absurd (ground arith)

stored_run :
    (u : ReducedSnapshot) (run_id : String) (st : StateStore)
    → u.run_record.run_id ≡ run_id
    → get (persist_snapshot u st).run_records run_id ≡ some u.run_record
unfolding persist_snapshot
stored_run u run_id st e =
    subst (λ k. get (put st.run_records u.run_record.run_id u.run_record) k ≡ some u.run_record) e
      (get-put_self st.run_records u.run_record.run_id u.run_record)

-- A run is on file with a status.
abbrev pub IsMarked : RunStatus → String → World → Type 0
IsMarked status run_id w =
    (r : RunRecord) × (get w.state_store.run_records run_id ≡ some r) × (r.status ≡ status)

module _ (sv : Services) where
  announce_same :
      (run_id : String) (u : ReducedSnapshot) (event_type : String) (payload : Fields)
      (w w' : World)
      → IsFiled w
      → announce sv run_id u event_type payload w ≡ (ok tt, w')
      → SameRuns w w'
  unfolding announce
  announce_same run_id u event_type payload w w' f h k =
      let draft = run_event event_type u.thread_record.thread_id u.run_record.run_id payload in
      let (e, v₁, e₁, h₁) = >>=-returned (lift draft) _ w h in
      let (_, v₂, e₂, h₂) = >>=-returned (append_run_events sv run_id (e ∷ [])) _ v₁ h₁ in
      let (c, v₃, e₃, h₃) = >>=-returned (checkpoint sv u) _ v₂ h₂ in
      let start : w ≡ v₁ = ap (λ x. x.1) e₁ in
      let f₁ : IsFiled v₁ = subst IsFiled start f in
      let f₂ : IsFiled v₂ =
        subst IsFiled (ap (λ x. x.1) e₂) (append_run_events-Keeps sv run_id (e ∷ []) v₁ f₁) in
      let runs = λ (v : World). get v.state_store.run_records k in
      ap (λ x. runs x.1) (sym h₃)
      ∙ checkpoint_same sv u v₂ v₃ c f₂ e₃ k
      ∙ append_same sv run_id (e ∷ []) v₁ v₂ f₁ e₂ k
      ∙ ap runs (sym start)

  -- A mark that returns leaves the run on file with the status of its patch.
  pub mark-IsMarked :
      (s : ReducedSnapshot) (p : StatePatch) (event_type : String) (payload : Fields) (w w' : World)
      (status : RunStatus)
      → IsFiled w
      → ((u : ReducedSnapshot) → apply s p ≡ ok u → Becomes status s.run_record u.run_record)
      → mark sv s p event_type payload w ≡ (ok tt, w')
      → IsMarked status s.run_record.run_id w'
  unfolding mark
  mark-IsMarked s p event_type payload w w' status f b h =
      let (u, v, e, rest) = >>=-returned (apply_patch s p) _ w h in
      let (applied, saved) = apply_patch_lem s p w u v e in
      let (marked, id) = b u applied in
      let g : IsFiled v = subst IsFiled (ap (λ x. x.1) e) (apply_patch-Keeps s p w f) in
      (
        u.run_record,
        announce_same s.run_record.run_id u event_type payload v w' g rest s.run_record.run_id
            ∙ ap (λ st. get st.run_records s.run_record.run_id) saved
            ∙ stored_run u s.run_record.run_id w.state_store id,
        marked,
      )
