-- ===== src/Runtime/Marks.antt =====
-- How the runtime service ends or suspends a run (src/core/runtime/runtime_service.py).
pub mod Effects
use agent_roles.Common.{ℕ, String, Option, none, some, List, [], ◌∷◌}
use agent_roles.Value.{Value, Fields, end, field}
use agent_roles.State.Models.{ThreadStatus, RunStatus, ReducedSnapshot}
use agent_roles.State.Patch.{
  StatePatch, ThreadRecordUpdate, ThreadStateUpdate, RunRecordUpdate, RunStateUpdate, empty_patch,
}
use agent_roles.Contracts.{Services}
use agent_roles.Selector.Paths.{optional_text}
use agent_roles.Runtime.Monad.{Action, ◌>>=◌, ◌>>◌, pure, lift}
use agent_roles.Runtime.Store.{now, apply_patch, append_run_events, checkpoint, run_event}

-- The thread is free for another run.
abbrev pub freed : ℕ → StatePatch
freed ended_at = record empty_patch {
  thread_record_updates =
      ThreadRecordUpdate.current_run_id none ∷ (ThreadRecordUpdate.updated_at ended_at ∷ []);
  thread_state_updates =
      ThreadStateUpdate.active_run_id none
      ∷ (ThreadStateUpdate.thread_status ThreadStatus.active ∷ []);
}

unfoldable pub completed_patch : ℕ → StatePatch
completed_patch ended_at = record (freed ended_at) {
  run_record_updates =
      RunRecordUpdate.status RunStatus.completed ∷ (RunRecordUpdate.ended_at (some ended_at) ∷ []);
  run_state_updates =
      RunStateUpdate.status RunStatus.completed
      ∷ (RunStateUpdate.frontier [] ∷ (RunStateUpdate.active_nodes [] ∷ []));
}

unfoldable pub failed_patch : ℕ → String → Option String → StatePatch
failed_patch ended_at code message = record (freed ended_at) {
  run_record_updates =
      RunRecordUpdate.status RunStatus.failed
      ∷ (RunRecordUpdate.ended_at (some ended_at)
          ∷ (RunRecordUpdate.failure_code (some code)
              ∷ (RunRecordUpdate.failure_message message ∷ [])));
  run_state_updates =
      RunStateUpdate.status RunStatus.failed
      ∷ (RunStateUpdate.frontier [] ∷ (RunStateUpdate.active_nodes [] ∷ []));
}

-- The patch of a run that pauses its thread, as interrupted or waiting.
unfoldable pub paused_patch : RunStatus → StatePatch
paused_patch status = record empty_patch {
  thread_record_updates = ThreadRecordUpdate.status ThreadStatus.paused ∷ [];
  thread_state_updates = ThreadStateUpdate.thread_status ThreadStatus.paused ∷ [];
  run_record_updates = RunRecordUpdate.status status ∷ [];
  run_state_updates = RunStateUpdate.status status ∷ (RunStateUpdate.frontier [] ∷ []);
}

module _ (sv : Services) where
  -- The event about a mark, and the checkpoint.
  unfoldable pub announce : String → ReducedSnapshot → String → Fields → Action (Unit {0})
  announce run_id s event_type payload = do
    e ← lift (run_event event_type s.thread_record.thread_id s.run_record.run_id payload)
    append_run_events sv run_id (e ∷ [])
    checkpoint sv s >>= λ _. pure tt

  unfoldable pub mark : ReducedSnapshot → StatePatch → String → Fields → Action (Unit {0})
  mark s p event_type payload =
      apply_patch s p >>= λ updated. announce s.run_record.run_id updated event_type payload

  -- `_mark_run_completed`
  unfoldable pub mark_run_completed : ReducedSnapshot → Action (Unit {0})
  mark_run_completed s = now sv >>= λ t. mark s (completed_patch t) "run.completed" end

  -- `_mark_run_interrupted` and `_mark_run_waiting`
  unfoldable pub mark_run_interrupted : ReducedSnapshot → String → Action (Unit {0})
  mark_run_interrupted s reason =
      mark s (paused_patch RunStatus.interrupted) "run.interrupted"
        (field "reason" (Value.text reason) end)

  unfoldable pub mark_run_waiting : ReducedSnapshot → String → Action (Unit {0})
  mark_run_waiting s reason =
      mark s (paused_patch RunStatus.waiting) "run.waiting" (field "reason" (Value.text reason) end)

  -- `_mark_run_failed`
  unfoldable pub mark_run_failed : ReducedSnapshot → String → Option String → Action (Unit {0})
  mark_run_failed s code message = now sv >>= λ t.
      mark s (failed_patch t code message) "run.failed" (
        field "failure_code" (Value.text code)
          (field "failure_message" (optional_text message) end))
