-- ===== src/Runtime/Rounds.antt =====
-- `_run_scheduler_loop` (src/core/runtime/runtime_service.py). The code loops until a round
-- returns; here rounds are counted, and a loop cut short says so.
use agent_roles.Common.{ℕ, zero, suc, String, Bool, true, false, some, List, [], ◌∷◌}
use agent_roles.State.Models.{RunStatus, ReducedSnapshot}
use agent_roles.State.Patch.{StatePatch, RunStateUpdate, empty_patch}
use agent_roles.Workflow.Models.{CompiledWorkflow}
use agent_roles.Scheduler.{Decision, dispatch, complete, interrupt, wait, fail, decide}
use agent_roles.Runtime.Monad.{Action, ◌>>=◌, pure}
use agent_roles.Runtime.Context.{Dependencies}
use agent_roles.Runtime.Store.{get_state, apply_patch}
use agent_roles.Runtime.Marks.{
  mark_run_completed, mark_run_interrupted, mark_run_waiting, mark_run_failed,
}
use agent_roles.Runtime.Nodes.{execute_node, code_or}

-- `TERMINAL_RUN_STATUSES`
abbrev pub is_terminal_run : RunStatus → Bool
is_terminal_run RunStatus.completed = true
is_terminal_run RunStatus.failed = true
is_terminal_run RunStatus.cancelled = true
is_terminal_run _ = false

-- What a round leaves the loop to do.
pub data Progress : Type 0 where
  returned again : Progress

-- `return`, or the next round.
abbrev pub go_on : Action Progress → Progress → Action Progress
go_on rest returned = pure returned
go_on rest again = rest

module _ (dp : Dependencies) where
  -- `for node_id in decision.ready_nodes`
  unfoldable pub dispatch_nodes : String → CompiledWorkflow → List String → Action Progress
  dispatch_nodes run_id w [] = pure again
  dispatch_nodes run_id w (id ∷ ids) = do
    current ← get_state run_id
    elim (is_terminal_run current.run_record.status) [
      | true ↦ pure returned
      | false ↦ execute_node dp current w id >>= λ _. dispatch_nodes run_id w ids
    ]

  abbrev pub return_after : Action (Unit {0}) → Action Progress
  return_after m = m >>= λ _. pure returned

  abbrev pub frontier_patch : List String → StatePatch
  frontier_patch ready = record empty_patch {
    run_state_updates = RunStateUpdate.frontier ready ∷ [];
  }

  -- Only a decision to dispatch carries ready nodes.
  unfoldable pub act_on : String → CompiledWorkflow → ReducedSnapshot → Decision → Action Progress
  act_on run_id w s (dispatch []) = pure again
  act_on run_id w s (dispatch (id ∷ ids)) = do
    _ ← apply_patch s (frontier_patch (id ∷ ids))
    dispatch_nodes run_id w (id ∷ ids)
  act_on run_id w s complete = return_after (mark_run_completed dp.services s)
  act_on run_id w s (interrupt reason) = return_after (mark_run_interrupted dp.services s reason)
  act_on run_id w s (wait reason) = return_after (mark_run_waiting dp.services s reason)
  act_on run_id w s (fail code reason) =
      return_after (mark_run_failed dp.services s (code_or (some code) "NO_PROGRESS") (some reason))

  -- The body of the loop.
  unfoldable pub scheduler_round : String → CompiledWorkflow → Action Progress
  scheduler_round run_id w = do
    s ← get_state run_id
    elim (is_terminal_run s.run_record.status) [
      | true ↦ pure returned
      | false ↦ act_on run_id w s (decide dp.config s w)
    ]

  -- `_run_scheduler_loop`, for so many rounds.
  unfoldable pub run_scheduler_loop : ℕ → String → CompiledWorkflow → Action Progress
  run_scheduler_loop zero run_id w = pure again
  run_scheduler_loop (suc rounds) run_id w =
      scheduler_round run_id w >>= go_on (run_scheduler_loop rounds run_id w)
