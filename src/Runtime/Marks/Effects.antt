-- ===== src/Runtime/Marks/Effects.antt =====
-- What the patches that end or suspend a run do to its state (src/core/runtime/runtime_service.py,
-- src/core/state/reducers.py).
use agent_roles.Common.{
  ℕ, String, ◌≡◌, true, Option, none, some, List, [], ◌∷◌, ok, arith, fold_result,
}
use agent_roles.State.Models.{
  ThreadStatus, RunStatus, ThreadRecord, RunRecord, ThreadState, RunState, ReducedSnapshot,
}
use agent_roles.State.Patch.{
  StatePatch, ThreadRecordUpdate, RunRecordUpdate, ThreadStateUpdate, RunStateUpdate, empty_patch,
}
use agent_roles.State.Dataclass.{Dataclass, checked, apply_updates, bump_version, patch_record}
use agent_roles.State.Validation.{
  thread_record_class, run_record_class, thread_state_class, run_state_class,
}
use agent_roles.State.Reducer.{
  apply, apply_records, create_artifacts, create_interrupts, update_interrupts, record_artifact_ids,
  record_pending,
}

-- What a patch of a record comes to, where its checks pass.
pub patch_record_ok :
    {A U : Type 0} (d : Dataclass A U) (a : A) (u : U) (us : List U) (b : A)
    → fold_result d.set a (u ∷ us) ≡ ok b
    → d.valid b ≡ true
    → patch_record d a (u ∷ us) ≡ ok (d.bump b)
unfolding patch_record apply_updates bump_version checked
patch_record_ok d a u us b h v = ground (arith, d.valid-bump b)

-- A patch of the four records only.
abbrev pub records_patch :
    List ThreadRecordUpdate
    → List RunRecordUpdate
    → List ThreadStateUpdate
    → List RunStateUpdate
    → StatePatch
records_patch tr rr ts rs = record empty_patch {
  thread_record_updates = tr;
  run_record_updates = rr;
  thread_state_updates = ts;
  run_state_updates = rs;
}

nothing_else :
    (tr : List ThreadRecordUpdate) (rr : List RunRecordUpdate) (ts : List ThreadStateUpdate)
    (rs : List RunStateUpdate) (s t : ReducedSnapshot)
    → apply_records (records_patch tr rr ts rs) s ≡ ok t
    → apply s (records_patch tr rr ts rs) ≡ ok t
unfolding apply create_artifacts create_interrupts update_interrupts record_artifact_ids
    record_pending
nothing_else tr rr ts rs s t h = rw h

-- The same patch of all four records, where each passes its checks.
pub apply-records_patch :
    (tr : List ThreadRecordUpdate) (rr : List RunRecordUpdate) (ts : List ThreadStateUpdate)
    (rs : List RunStateUpdate) (s : ReducedSnapshot) (tr' : ThreadRecord) (rr' : RunRecord)
    (ts' : ThreadState) (rs' : RunState)
    → patch_record thread_record_class s.thread_record tr ≡ ok tr'
    → patch_record run_record_class s.run_record rr ≡ ok rr'
    → patch_record thread_state_class s.thread_state ts ≡ ok ts'
    → patch_record run_state_class s.run_state rs ≡ ok rs'
    → apply s (records_patch tr rr ts rs)
      ≡ ok (record s { thread_record = tr'; run_record = rr'; thread_state = ts'; run_state = rs' })
unfolding apply_records
apply-records_patch tr rr ts rs s tr' rr' ts' rs' a b c d =
    nothing_else tr rr ts rs s _ (rw (a, b, c, d))

-- The state of a run that has ended, and of its thread.
pub record Ended (status : RunStatus) (before after : ReducedSnapshot) : Type 0 where
  pub run_record : after.run_record.status ≡ status
  pub run_state : after.run_state.status ≡ status
  pub frontier : after.run_state.frontier ≡ []
  pub active : after.run_state.active_nodes ≡ []
  pub thread_record : after.thread_record.current_run_id ≡ none
  pub thread_state : after.thread_state.active_run_id ≡ none
  pub node_states : after.node_states ≡ before.node_states

abbrev freed_record : ℕ → ThreadRecord → ThreadRecord
freed_record t r = record r { current_run_id = none; updated_at = t }

abbrev freed_state : ThreadState → ThreadState
freed_state s = record s { active_run_id = none; thread_status = ThreadStatus.active }

abbrev emptied : RunStatus → RunState → RunState
emptied status s = record s { status = status; frontier = []; active_nodes = [] }

abbrev completed_record : ℕ → RunRecord → RunRecord
completed_record t r = record r { status = RunStatus.completed; ended_at = some t }

abbrev failed_record : ℕ → String → Option String → RunRecord → RunRecord
failed_record t code message r = record r {
  status = RunStatus.failed;
  ended_at = some t;
  failure_code = some code;
  failure_message = message;
}
