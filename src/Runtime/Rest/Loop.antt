-- ===== src/Runtime/Rest/Loop.antt =====
-- A loop of the scheduler that returns leaves its run at rest
-- (src/core/runtime/runtime_service.py).
use agent_roles.Common.{
  ℕ, zero, suc, String, ◌≡◌, refl, ap, ◌∙◌, subst, Bool, true, false, some, List, [], ◌∷◌, Result,
  ok, err, arith,
}
use agent_roles.Common.Dict.{get}
use agent_roles.Value.{Value, end, field}
use agent_roles.State.Models.{RunStatus, ReducedSnapshot}
use agent_roles.Workflow.Models.{CompiledWorkflow}
use agent_roles.Scheduler.{Decision, dispatch, complete, interrupt, wait, fail, decide}
use agent_roles.Runtime.Monad.{World, Action, continue_with, ◌>>=◌, pure}
use agent_roles.Runtime.Context.{Dependencies, ExecutionContext}
use agent_roles.Runtime.Store.{get_state, apply_patch}
use agent_roles.Runtime.Marks.{
  mark_run_completed, mark_run_interrupted, mark_run_waiting, mark_run_failed,
}
use agent_roles.Runtime.Nodes.{execute_node, code_or}
use agent_roles.Runtime.Rounds.{
  is_terminal_run, Progress, returned, again, go_on, dispatch_nodes, frontier_patch, act_on,
  scheduler_round, run_scheduler_loop,
}
use agent_roles.Runtime.Keys.{IsFiled, Keeps, apply_patch-Keeps}
use agent_roles.Runtime.Keys.Nodes.{execute_node-Keeps}
use agent_roles.Runtime.Keys.Rounds.{scheduler_round-Keeps}
use agent_roles.Runtime.Rest.{>>=-returned, found_id, built_run}
use agent_roles.Runtime.Rest.Marked.{
  IsAtRest, terminal_at_rest, Rests, then-Rests, mark_run_completed-Marks, mark_run_failed-Marks,
  paused-Marks, marked_return,
}

module _ (run_id : String) where
  -- A round, or a step of one, that may find the run ended.
  unless_ended :
      (s : ReducedSnapshot) (rest : Action Progress) (w w' : World) (b : Bool)
      → get w.state_store.run_records run_id ≡ some s.run_record
      → is_terminal_run s.run_record.status ≡ b
      → (rest w ≡ (ok returned, w') → IsAtRest run_id w')
      → (elim b as (λ _. Action Progress) [ true ↦ pure returned | false ↦ rest ]) w
        ≡ (ok returned, w')
      → IsAtRest run_id w'
  unless_ended s rest w w' true found t q h =
      subst (IsAtRest run_id) (ap (λ x. x.1) h)
        (s.run_record, found, terminal_at_rest s.run_record.status t)
  unless_ended s rest w w' false found t q h = q h

  -- What follows the reading of the run's state.
  read-Rests :
      (k : ReducedSnapshot → Action Progress)
      → ((s : ReducedSnapshot) (w w' : World)
          → IsFiled w
          → get w.state_store.run_records run_id ≡ some s.run_record
          → k s w ≡ (ok returned, w')
          → IsAtRest run_id w')
      → Rests run_id (get_state run_id >>= k)
  unfolding get_state
  read-Rests k q w w' f h =
      let (s, v, e, rest) = >>=-returned (get_state run_id) k w h in
      let same : w ≡ v = ap (λ x. x.1) e in
      q s v w' (subst IsFiled same f)
        (subst (λ x. get x.state_store.run_records run_id ≡ some s.run_record) same
          (built_run w.state_store run_id s (ap (λ x. x.0) e)))
        rest

module _ (dp : Dependencies) (kept : (c : ExecutionContext) → Keeps (dp.execute c)) where
  dispatch_nodes-Rests :
      (run_id : String) (c : CompiledWorkflow) (ids : List String)
      → Rests run_id (dispatch_nodes dp run_id c ids)
  unfolding dispatch_nodes
  dispatch_nodes-Rests run_id c [] = λ w w' f h. absurd (ground arith)
  dispatch_nodes-Rests run_id c (id ∷ ids) = read-Rests run_id _ (λ s w w' f found h.
      unless_ended run_id s (execute_node dp s c id >>= λ _. dispatch_nodes dp run_id c ids) w w'
        (is_terminal_run s.run_record.status) found refl
        (then-Rests run_id (execute_node dp s c id) (λ _. dispatch_nodes dp run_id c ids)
          (execute_node-Keeps dp kept s c id) (λ _. dispatch_nodes-Rests run_id c ids) w w' f)
        h)

  act_on-Rests :
      (run_id : String) (c : CompiledWorkflow) (s : ReducedSnapshot) (d : Decision) (w w' : World)
      → IsFiled w
      → s.run_record.run_id ≡ run_id
      → act_on dp run_id c s d w ≡ (ok returned, w')
      → IsAtRest run_id w'
  unfolding act_on mark_run_interrupted mark_run_waiting
  act_on-Rests run_id c s (dispatch []) w w' f id h = absurd (ground arith)
  act_on-Rests run_id c s (dispatch (i ∷ is)) w w' f id h =
      then-Rests run_id (apply_patch s (frontier_patch dp (i ∷ is)))
        (λ _. dispatch_nodes dp run_id c (i ∷ is))
        (apply_patch-Keeps s (frontier_patch dp (i ∷ is)))
        (λ _. dispatch_nodes-Rests run_id c (i ∷ is)) w w' f h
  act_on-Rests run_id c s complete w w' f id h =
      marked_return (mark_run_completed dp.services s) RunStatus.completed s run_id w w'
        (mark_run_completed-Marks dp.services s) refl id f h
  act_on-Rests run_id c s (interrupt reason) w w' f id h =
      marked_return (mark_run_interrupted dp.services s reason) RunStatus.interrupted s run_id w w'
        (paused-Marks dp.services s RunStatus.interrupted "run.interrupted"
          (field "reason" (Value.text reason) end))
        refl id f h
  act_on-Rests run_id c s (wait reason) w w' f id h =
      marked_return (mark_run_waiting dp.services s reason) RunStatus.waiting s run_id w w'
        (paused-Marks dp.services s RunStatus.waiting "run.waiting"
          (field "reason" (Value.text reason) end))
        refl id f h
  act_on-Rests run_id c s (fail code reason) w w' f id h =
      let stop = code_or (some code) "NO_PROGRESS" in
      marked_return (mark_run_failed dp.services s stop (some reason)) RunStatus.failed s run_id w
        w' (mark_run_failed-Marks dp.services s stop (some reason)) refl id f h

  scheduler_round-Rests :
      (run_id : String) (c : CompiledWorkflow) → Rests run_id (scheduler_round dp run_id c)
  unfolding scheduler_round
  scheduler_round-Rests run_id c = read-Rests run_id _ (λ s w w' f found h.
      unless_ended run_id s (act_on dp run_id c s (decide dp.config s c)) w w'
        (is_terminal_run s.run_record.status) found refl
        (act_on-Rests run_id c s (decide dp.config s c) w w' f
          (found_id w.state_store.run_records run_id s.run_record f found))
        h)

  -- A round, and the rest of the loop.
  then_loop :
      (run_id : String) (c : CompiledWorkflow) (w w' : World) (rest : Action Progress)
      → IsFiled w
      → ((v : World) → IsFiled v → rest v ≡ (ok returned, w') → IsAtRest run_id w')
      → (r : Result Progress × World) → scheduler_round dp run_id c w ≡ r
      → continue_with r (go_on rest) ≡ (ok returned, w')
      → IsAtRest run_id w'
  then_loop run_id c w w' rest f q (ok returned, v) e h =
      scheduler_round-Rests run_id c w w' f (e ∙ h)
  then_loop run_id c w w' rest f q (ok again, v) e h =
      q v (subst IsFiled (ap (λ x. x.1) e) (scheduler_round-Keeps dp kept run_id c w f)) h
  then_loop run_id c w w' rest f q (err x, v) e h = absurd (ground arith)

  -- Where the runs are filed under their ids, and executors keep them so, a loop of the scheduler
  -- that returns leaves its run on file as completed, failed, cancelled, interrupted or waiting.
  pub run_scheduler_loop-IsAtRest :
      (rounds : ℕ) (run_id : String) (c : CompiledWorkflow) (w w' : World)
      → IsFiled w
      → run_scheduler_loop dp rounds run_id c w ≡ (ok returned, w')
      → IsAtRest run_id w'
  unfolding run_scheduler_loop
  run_scheduler_loop-IsAtRest zero run_id c w w' f h = absurd (ground arith)
  run_scheduler_loop-IsAtRest (suc rounds) run_id c w w' f h =
      then_loop run_id c w w' (run_scheduler_loop dp rounds run_id c) f
        (λ v. run_scheduler_loop-IsAtRest rounds run_id c v w') (scheduler_round dp run_id c w) refl
        h
