-- ===== src/Runtime/Keys/Nodes.antt =====
-- The execution of a node keeps the runs filed, if its executor does
-- (src/core/runtime/runtime_service.py).
use agent_roles.Common.{
  String, Bool, true, false, Option, none, some, List, [], ◌∷◌, or_raise, key_error,
}
use agent_roles.Common.Dict.{get}
use agent_roles.Selector.Inputs.{select_node_input}
use agent_roles.Value.{Fields}
use agent_roles.State.Models.{ArtifactRecord, InterruptRecord, ReducedSnapshot}
use agent_roles.State.Patch.{StatePatch}
use agent_roles.Events.Models.{TraceContext}
use agent_roles.Workflow.Models.{CompiledWorkflow, NodeSpec, OutputBinding}
use agent_roles.Contracts.{Services}
use agent_roles.Runtime.Monad.{Action}
use agent_roles.Runtime.Context.{Dependencies, ExecutionContext, NodeExecutionResult}
use agent_roles.Runtime.Store.{
  now, new_id, get_state, apply_patch, append_run_events, checkpoint, run_event,
}
use agent_roles.Runtime.Outcome.{
  hint, output_artifact, bound_artifacts, new_artifacts, build_result_patch, has_failed,
}
use agent_roles.Runtime.Marks.{
  announce, mark, mark_run_completed, mark_run_interrupted, mark_run_waiting, mark_run_failed,
}
use agent_roles.Runtime.Nodes.{
  node_of, read_agent_binding, resolve_executor_ref, build_execution_context, interrupt_events,
  result_events, begin_node, finish_node, execute_node,
}
use agent_roles.Runtime.Keys.{
  Keeps, >>=-Keeps, lift-Keeps, get_state-Keeps, apply_patch-Keeps, now-Keeps, new_id-Keeps,
  append_run_events-Keeps, checkpoint-Keeps,
}

-- One of two actions.
pub choose-Keeps :
    {A : Type 0} (b : Bool) (m n : Action A)
    → Keeps m
    → Keeps n
    → Keeps (elim b as (λ _. Action A) [ true ↦ m | false ↦ n ])
choose-Keeps true m n h k = h
choose-Keeps false m n h k = k

module _ (sv : Services) where
  announce-Keeps :
      (run_id : String) (s : ReducedSnapshot) (event_type : String) (payload : Fields)
      → Keeps (announce sv run_id s event_type payload)
  unfolding announce
  announce-Keeps run_id s event_type payload =
      lift-Keeps (run_event event_type s.thread_record.thread_id s.run_record.run_id payload) _
        (λ e.
          >>=-Keeps (append_run_events sv run_id (e ∷ [])) _
            (append_run_events-Keeps sv run_id (e ∷ []))
            (λ _. >>=-Keeps (checkpoint sv s) _ (checkpoint-Keeps sv s) (λ _ w f. f)))

  pub mark-Keeps :
      (s : ReducedSnapshot) (p : StatePatch) (event_type : String) (payload : Fields)
      → Keeps (mark sv s p event_type payload)
  unfolding mark
  mark-Keeps s p event_type payload =
      >>=-Keeps (apply_patch s p) _ (apply_patch-Keeps s p)
        (λ u. announce-Keeps s.run_record.run_id u event_type payload)

  pub mark_run_completed-Keeps : (s : ReducedSnapshot) → Keeps (mark_run_completed sv s)
  unfolding mark_run_completed
  mark_run_completed-Keeps s = >>=-Keeps (now sv) _ (now-Keeps sv) (λ t. mark-Keeps s _ _ _)

  pub mark_run_interrupted-Keeps :
      (s : ReducedSnapshot) (reason : String) → Keeps (mark_run_interrupted sv s reason)
  unfolding mark_run_interrupted
  mark_run_interrupted-Keeps s reason = mark-Keeps s _ _ _

  pub mark_run_waiting-Keeps :
      (s : ReducedSnapshot) (reason : String) → Keeps (mark_run_waiting sv s reason)
  unfolding mark_run_waiting
  mark_run_waiting-Keeps s reason = mark-Keeps s _ _ _

  pub mark_run_failed-Keeps :
      (s : ReducedSnapshot) (code : String) (message : Option String)
      → Keeps (mark_run_failed sv s code message)
  unfolding mark_run_failed
  mark_run_failed-Keeps s code message =
      >>=-Keeps (now sv) _ (now-Keeps sv) (λ t. mark-Keeps s _ _ _)

  output_artifact-Keeps :
      (s : ReducedSnapshot) (node_id : String) (b : OutputBinding) (output : Fields)
      → Keeps (output_artifact sv s node_id b output)
  unfolding output_artifact
  output_artifact-Keeps s node_id b output =
      >>=-Keeps (new_id sv "artifact") _ (new_id-Keeps sv "artifact")
        (λ id. >>=-Keeps (now sv) _ (now-Keeps sv) (λ t w f. f))

  bound_artifacts-Keeps :
      (s : ReducedSnapshot) (node_id : String) (b : Option OutputBinding) (output : Fields)
      → Keeps (bound_artifacts sv s node_id b output)
  bound_artifacts-Keeps s node_id none output = λ w f. f
  bound_artifacts-Keeps s node_id (some b) output =
      >>=-Keeps (output_artifact sv s node_id b output) _ (output_artifact-Keeps s node_id b output)
        (λ a w f. f)

  new_artifacts-Keeps :
      (s : ReducedSnapshot) (c : CompiledWorkflow) (node_id : String) (a : Option ArtifactRecord)
      (output : Option Fields)
      → Keeps (new_artifacts sv s c node_id a output)
  unfolding new_artifacts
  new_artifacts-Keeps s c node_id (some a) output = λ w f. f
  new_artifacts-Keeps s c node_id none none = λ w f. f
  new_artifacts-Keeps s c node_id none (some output) =
      lift-Keeps (or_raise (get c.node_map node_id) key_error) _
        (λ spec. bound_artifacts-Keeps s node_id spec.output_binding output)

  build_result_patch-Keeps :
      (s : ReducedSnapshot) (c : CompiledWorkflow) (node_id : String) (r : NodeExecutionResult)
      → Keeps (build_result_patch sv s c node_id r)
  unfolding build_result_patch
  build_result_patch-Keeps s c node_id r = >>=-Keeps (now sv) _ (now-Keeps sv) (λ t.
      lift-Keeps (hint r.next_hints "run_state_extensions") _ (λ a.
        lift-Keeps (hint r.next_hints "thread_state_extensions") _ (λ b.
          >>=-Keeps (new_artifacts sv s c node_id r.artifact r.output) _
            (new_artifacts-Keeps s c node_id r.artifact r.output) (λ as' w f. f))))

interrupt_events-Keeps :
    (s : ReducedSnapshot) (trace : TraceContext) (is : List InterruptRecord)
    → Keeps (interrupt_events s trace is)
unfolding interrupt_events
interrupt_events-Keeps s trace [] = λ w f. f
interrupt_events-Keeps s trace (i ∷ is) = lift-Keeps _ _ (λ e.
    >>=-Keeps (interrupt_events s trace is) _ (interrupt_events-Keeps s trace is) (λ es w f. f))

result_events-Keeps :
    (s : ReducedSnapshot) (node_id : String) (r : NodeExecutionResult)
    → Keeps (result_events s node_id r)
unfolding result_events
result_events-Keeps s node_id r = lift-Keeps (node_of s node_id) _ (λ n. lift-Keeps _ _ (λ e.
    >>=-Keeps (interrupt_events s _ r.interrupts) _ (interrupt_events-Keeps s _ r.interrupts)
      (λ es w f. f)))

build_execution_context-Keeps :
    (s : ReducedSnapshot) (c : CompiledWorkflow) (node_id : String)
    → Keeps (build_execution_context s c node_id)
unfolding build_execution_context
build_execution_context-Keeps s c node_id =
    lift-Keeps (or_raise (get c.node_map node_id) key_error) _ (λ spec.
      lift-Keeps (read_agent_binding s node_id) _ (λ b.
        lift-Keeps (node_of s node_id) _
          (λ n. lift-Keeps (select_node_input s spec.input_selector) _ (λ input w f. f))))

module _ (dp : Dependencies) (kept : (c : ExecutionContext) → Keeps (dp.execute c)) where
  begin_node-Keeps :
      (s : ReducedSnapshot) (c : CompiledWorkflow) (node_id : String) (spec : NodeSpec)
      (ref : String)
      → Keeps (begin_node dp s c node_id spec ref)
  unfolding begin_node
  begin_node-Keeps s c node_id spec ref =
      >>=-Keeps (now dp.services) _ (now-Keeps dp.services) (λ t.
        lift-Keeps (select_node_input s spec.input_selector) _ (λ input.
          lift-Keeps (node_of s node_id) _ (λ n.
            >>=-Keeps (apply_patch s _) _ (apply_patch-Keeps s _) (λ started.
              lift-Keeps (node_of started node_id) _ (λ m. lift-Keeps _ _ (λ e.
                >>=-Keeps (append_run_events dp.services s.run_record.run_id (e ∷ [])) _
                  (append_run_events-Keeps dp.services _ _)
                  (λ _.
                    >>=-Keeps (checkpoint dp.services started) _
                      (checkpoint-Keeps dp.services started)
                      (λ _.
                        >>=-Keeps (build_execution_context started c node_id) _
                          (build_execution_context-Keeps started c node_id) kept))))))))

  finish_node-Keeps :
      (run_id : String) (c : CompiledWorkflow) (node_id : String) (r : NodeExecutionResult)
      → Keeps (finish_node dp run_id c node_id r)
  unfolding finish_node
  finish_node-Keeps run_id c node_id r =
      >>=-Keeps (get_state run_id) _ (get_state-Keeps run_id) (λ current.
        >>=-Keeps (build_result_patch dp.services current c node_id r) _
          (build_result_patch-Keeps dp.services current c node_id r)
          (λ patch. >>=-Keeps (apply_patch current patch) _ (apply_patch-Keeps current patch) (λ u.
            >>=-Keeps (result_events u node_id r) _ (result_events-Keeps u node_id r) (λ events.
              >>=-Keeps (append_run_events dp.services run_id events) _
                (append_run_events-Keeps dp.services run_id events)
                (λ _. >>=-Keeps (checkpoint dp.services u) _ (checkpoint-Keeps dp.services u) (λ _.
                  choose-Keeps (has_failed r.status) _ _ (mark_run_failed-Keeps dp.services u _ _)
                    (λ w f. f)))))))

  pub execute_node-Keeps :
      (s : ReducedSnapshot) (c : CompiledWorkflow) (node_id : String)
      → Keeps (execute_node dp s c node_id)
  unfolding execute_node
  execute_node-Keeps s c node_id =
      lift-Keeps (or_raise (get c.node_map node_id) key_error) _ (λ spec.
        lift-Keeps (resolve_executor_ref s node_id spec.executor_ref) _ (λ ref.
          choose-Keeps (dp.can_execute spec.node_type ref) _ _
            (>>=-Keeps (begin_node dp s c node_id spec ref) _
              (begin_node-Keeps s c node_id spec ref)
              (finish_node-Keeps s.run_record.run_id c node_id))
            (mark_run_failed-Keeps dp.services s _ _)))
