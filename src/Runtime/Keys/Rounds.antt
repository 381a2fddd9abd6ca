-- ===== src/Runtime/Keys/Rounds.antt =====
-- A round of the scheduler keeps the runs filed, if the executors do
-- (src/core/runtime/runtime_service.py).
use agent_roles.Common.{String, List, [], ◌∷◌, some}
use agent_roles.State.Models.{ReducedSnapshot}
use agent_roles.Workflow.Models.{CompiledWorkflow}
use agent_roles.Scheduler.{Decision, dispatch, complete, interrupt, wait, fail, decide}
use agent_roles.Runtime.Monad.{Action, ◌>>=◌, pure}
use agent_roles.Runtime.Context.{Dependencies, ExecutionContext}
use agent_roles.Runtime.Store.{get_state, apply_patch}
use agent_roles.Runtime.Nodes.{execute_node, code_or}
use agent_roles.Runtime.Rounds.{
  is_terminal_run, returned, dispatch_nodes, return_after, frontier_patch, act_on, scheduler_round,
}
use agent_roles.Runtime.Marks.{
  mark_run_completed, mark_run_interrupted, mark_run_waiting, mark_run_failed,
}
use agent_roles.Runtime.Keys.{Keeps, >>=-Keeps, get_state-Keeps, apply_patch-Keeps}
use agent_roles.Runtime.Keys.Nodes.{
  choose-Keeps, execute_node-Keeps, mark_run_completed-Keeps, mark_run_interrupted-Keeps,
  mark_run_waiting-Keeps, mark_run_failed-Keeps,
}

module _ (dp : Dependencies) (kept : (c : ExecutionContext) → Keeps (dp.execute c)) where
  dispatch_nodes-Keeps :
      (run_id : String) (c : CompiledWorkflow) (ids : List String)
      → Keeps (dispatch_nodes dp run_id c ids)
  unfolding dispatch_nodes
  dispatch_nodes-Keeps run_id c [] = λ w f. f
  dispatch_nodes-Keeps run_id c (id ∷ ids) =
      >>=-Keeps (get_state run_id) _ (get_state-Keeps run_id) (λ s.
        choose-Keeps (is_terminal_run s.run_record.status) (pure returned)
          (execute_node dp s c id >>= λ _. dispatch_nodes dp run_id c ids) (λ w f. f)
          (>>=-Keeps (execute_node dp s c id) (λ _. dispatch_nodes dp run_id c ids)
            (execute_node-Keeps dp kept s c id) (λ _. dispatch_nodes-Keeps run_id c ids)))

  return_after-Keeps : (m : Action (Unit {0})) → Keeps m → Keeps (return_after dp m)
  return_after-Keeps m k = >>=-Keeps m (λ _. pure returned) k (λ _ w f. f)

  act_on-Keeps :
      (run_id : String) (c : CompiledWorkflow) (s : ReducedSnapshot) (d : Decision)
      → Keeps (act_on dp run_id c s d)
  unfolding act_on
  act_on-Keeps run_id c s (dispatch []) = λ w f. f
  act_on-Keeps run_id c s (dispatch (i ∷ is)) =
      >>=-Keeps (apply_patch s (frontier_patch dp (i ∷ is)))
        (λ _. dispatch_nodes dp run_id c (i ∷ is))
        (apply_patch-Keeps s (frontier_patch dp (i ∷ is)))
        (λ _. dispatch_nodes-Keeps run_id c (i ∷ is))
  act_on-Keeps run_id c s complete =
      return_after-Keeps (mark_run_completed dp.services s) (mark_run_completed-Keeps dp.services s)
  act_on-Keeps run_id c s (interrupt reason) =
      return_after-Keeps (mark_run_interrupted dp.services s reason)
        (mark_run_interrupted-Keeps dp.services s reason)
  act_on-Keeps run_id c s (wait reason) =
      return_after-Keeps (mark_run_waiting dp.services s reason)
        (mark_run_waiting-Keeps dp.services s reason)
  act_on-Keeps run_id c s (fail code reason) =
      return_after-Keeps
        (mark_run_failed dp.services s (code_or (some code) "NO_PROGRESS") (some reason))
        (mark_run_failed-Keeps dp.services s (code_or (some code) "NO_PROGRESS") (some reason))

  -- A round keeps the runs filed under their ids, also if it raises.
  pub scheduler_round-Keeps :
      (run_id : String) (c : CompiledWorkflow) → Keeps (scheduler_round dp run_id c)
  unfolding scheduler_round
  scheduler_round-Keeps run_id c = >>=-Keeps (get_state run_id) _ (get_state-Keeps run_id) (λ s.
      choose-Keeps (is_terminal_run s.run_record.status) (pure returned)
        (act_on dp run_id c s (decide dp.config s c)) (λ w f. f)
        (act_on-Keeps run_id c s (decide dp.config s c)))
