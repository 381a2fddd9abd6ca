-- ===== src/State/Reducer/Validity/Lists.antt =====
-- The blocks of `StateReducer.apply` that also write lists of identifiers
-- (src/core/state/reducers.py).
use agent_roles.Common.{
  String, ◌≡◌, subst, true, List, [], ◌∷◌, ok, fold_result, fold_result-keeps,
  fold_result-keeps_all, raise_if, >>=-eq-ok, ok-injective, arith, or_raise, value_error,
}
use agent_roles.Common.Dict.{Dict, get, put, contains}
use agent_roles.State.Models.{InterruptRecord, ReducedSnapshot, ThreadState, RunState}
use agent_roles.State.Patch.{StatePatch, InterruptRecordUpdate}
use agent_roles.State.Dataclass.{checked, apply_updates, bump_version}
use agent_roles.State.Validation.{
  thread_state_valid, run_state_valid, interrupt_valid, thread_state_class, run_state_class,
  interrupt_class,
}
use agent_roles.State.Reducer.{
  create_artifact, create_artifacts, record_artifact_ids, create_interrupt, create_interrupts,
  record_pending, set_pending, ensure_same, Tracked, tracked_of, track, update_interrupt,
  update_interrupts,
}
use agent_roles.State.Reducer.Validity.{Entries, IsValid, IsValidPatch, Entries-put, bumped_valid}
use agent_roles.State.Reducer.Validity.Records.{create_artifact-IsValid}

record_artifact_ids_valid :
    (ids : List String) (r : ThreadState) {r' : ThreadState}
    → thread_state_valid r ≡ true
    → record_artifact_ids ids r ≡ ok r'
    → thread_state_valid r' ≡ true
unfolding record_artifact_ids
record_artifact_ids_valid [] r v h = subst (λ x. thread_state_valid x ≡ true) (ok-injective h) v
record_artifact_ids_valid (x ∷ xs) r v h =
    let (m, _, h₁) = >>=-eq-ok (checked thread_state_class _) _ h in
    bumped_valid thread_state_class m h₁

set_pending_valid :
    (pending approvals : List String) (r : RunState) {r' : RunState}
    → set_pending pending approvals r ≡ ok r'
    → run_state_valid r' ≡ true
unfolding set_pending
set_pending_valid pending approvals r h =
    let (m, _, h₁) = >>=-eq-ok (checked run_state_class _) _ h in bumped_valid run_state_class m h₁

record_pending_valid :
    (opened approvals : List String) (r : RunState) {r' : RunState}
    → run_state_valid r ≡ true
    → record_pending opened approvals r ≡ ok r'
    → run_state_valid r' ≡ true
unfolding record_pending
record_pending_valid [] [] r v h = subst (λ x. run_state_valid x ≡ true) (ok-injective h) v
record_pending_valid [] (a ∷ as') r v h = set_pending_valid _ _ r h
record_pending_valid (o ∷ os) as' r v h = set_pending_valid _ _ r h

pub create_artifacts-IsValid :
    (p : StatePatch) (s t : ReducedSnapshot) → IsValid s → create_artifacts p s ≡ ok t → IsValid t
unfolding create_artifacts
create_artifacts-IsValid p s t v h =
    let (m, loop, h₁) = >>=-eq-ok (fold_result create_artifact s p.artifacts_to_create) _ h in
    let (ts, e, h₂) = >>=-eq-ok (record_artifact_ids _ m.thread_state) _ h₁ in
    let w =
      fold_result-keeps IsValid create_artifact create_artifact-IsValid s p.artifacts_to_create m v
        loop in
    subst IsValid (ok-injective h₂) (record {
      thread_record = w.thread_record;
      run_record = w.run_record;
      thread_state = record_artifact_ids_valid _ m.thread_state w.thread_state e;
      run_state = w.run_state;
      node_states = w.node_states;
      interrupts = w.interrupts;
    })

create_interrupt-IsValid :
    (s : ReducedSnapshot) (i : InterruptRecord) (t : ReducedSnapshot)
    → IsValid s
    → interrupt_valid i ≡ true
    → create_interrupt s i ≡ ok t
    → IsValid t
unfolding create_interrupt
create_interrupt-IsValid s i t v w h =
    let (_, _, h₁) = >>=-eq-ok (ensure_same i.run_id s.run_state.run_id) _ h in
    let (_, _, h₂) = >>=-eq-ok (ensure_same i.thread_id s.thread_state.thread_id) _ h₁ in
    let (_, _, h₃) = >>=-eq-ok (raise_if (contains s.interrupts i.interrupt_id) value_error) _ h₂ in
    subst IsValid (ok-injective h₃) (record {
      thread_record = v.thread_record;
      run_record = v.run_record;
      thread_state = v.thread_state;
      run_state = v.run_state;
      node_states = v.node_states;
      interrupts = Entries-put interrupt_valid s.interrupts i.interrupt_id i v.interrupts w;
    })

pub create_interrupts-IsValid :
    (p : StatePatch) (s t : ReducedSnapshot)
    → IsValidPatch p
    → IsValid s
    → create_interrupts p s ≡ ok t
    → IsValid t
unfolding create_interrupts
create_interrupts-IsValid p s t q v h =
    let (m, loop, h₁) = >>=-eq-ok (fold_result create_interrupt s p.interrupts_to_create) _ h in
    let (rs, e, h₂) = >>=-eq-ok (record_pending _ _ m.run_state) _ h₁ in
    let w =
      fold_result-keeps_all IsValid (λ i. interrupt_valid i ≡ true) create_interrupt
        create_interrupt-IsValid s p.interrupts_to_create m q.interrupts v loop in
    subst IsValid (ok-injective h₂) (record {
      thread_record = w.thread_record;
      run_record = w.run_record;
      thread_state = w.thread_state;
      run_state = record_pending_valid _ _ m.run_state w.run_state e;
      node_states = w.node_states;
      interrupts = w.interrupts;
    })

update_interrupt-Entries :
    (t : Tracked) (u : String × List InterruptRecordUpdate) (t' : Tracked)
    → Entries interrupt_valid t.interrupts
    → update_interrupt t u ≡ ok t'
    → Entries interrupt_valid t'.interrupts
unfolding update_interrupt track
update_interrupt-Entries t (id, us) t' v h =
    let (i, _, h₁) = >>=-eq-ok (or_raise (get t.interrupts id) value_error) _ h in
    let (m, _, h₂) = >>=-eq-ok (apply_updates interrupt_class i us) _ h₁ in
    let (i', e, h₃) = >>=-eq-ok (bump_version interrupt_class m) _ h₂ in
    let kept : t'.interrupts ≡ put t.interrupts id i' = ground (arith, h₃) in
    rw kept (Entries-put interrupt_valid t.interrupts id i' v (bumped_valid interrupt_class m e))

pub update_interrupts-IsValid :
    (us : Dict (List InterruptRecordUpdate)) (s t : ReducedSnapshot)
    → IsValid s
    → update_interrupts us s ≡ ok t
    → IsValid t
unfolding update_interrupts
update_interrupts-IsValid [] s t v h = subst IsValid (ok-injective h) v
update_interrupts-IsValid (u ∷ us) s t v h =
    let (tr, loop, h₁) = >>=-eq-ok (fold_result update_interrupt (tracked_of s) (u ∷ us)) _ h in
    let (rs, e, h₂) = >>=-eq-ok (set_pending tr.pending tr.approvals s.run_state) _ h₁ in
    subst IsValid (ok-injective h₂) (record {
      thread_record = v.thread_record;
      run_record = v.run_record;
      thread_state = v.thread_state;
      run_state = set_pending_valid _ _ s.run_state e;
      node_states = v.node_states;
      interrupts =
          fold_result-keeps (λ x. Entries interrupt_valid x.interrupts) update_interrupt
            update_interrupt-Entries (tracked_of s) (u ∷ us) tr v.interrupts loop;
    })
