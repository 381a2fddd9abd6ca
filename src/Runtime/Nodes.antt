-- ===== src/Runtime/Nodes.antt =====
-- `_execute_node` (src/core/runtime/runtime_service.py).
use Prim.Native.String.{◌++◌ as join}
use agent_roles.Common.{
  ℕ, suc, String, true, false, Option, none, some, List, [], ◌∷◌, Result, ok, err, key_error,
  or_raise, if◌then◌else◌, without, ◌=ₛ◌,
}
use agent_roles.Common.Dict.{get}
use agent_roles.Value.{Value, Fields, end, field, fget}
use agent_roles.State.Models.{
  NodeStatus, InterruptType, InterruptRecord, NodeState, ReducedSnapshot,
}
use agent_roles.State.Patch.{StatePatch, RunStateUpdate, NodeStateUpdate, empty_patch}
use agent_roles.Selector.Paths.{optional_text}
use agent_roles.Selector.Inputs.{select_node_input}
use agent_roles.Workflow.Models.{CompiledWorkflow, NodeSpec}
use agent_roles.Agents.Bindings.{ResolvedAgentBinding, from_map}
use agent_roles.Events.Models.{TraceContext, EventDraft, to_map}
use agent_roles.Runtime.Monad.{Action, ◌>>=◌, ◌>>◌, pure, lift}
use agent_roles.Runtime.Context.{ExecutionContext, NodeExecutionResult, Dependencies}
use agent_roles.Runtime.Lists.{merge_unique}
use agent_roles.Runtime.Store.{
  now, get_state, apply_patch, append_run_events, checkpoint, new_event, node_trace_context,
}
use agent_roles.Runtime.Outcome.{build_result_patch, has_failed}
use agent_roles.Runtime.Marks.{mark_run_failed}

unfoldable pub node_status_text : NodeStatus → String
node_status_text NodeStatus.pending = "pending"
node_status_text NodeStatus.ready = "ready"
node_status_text NodeStatus.running = "running"
node_status_text NodeStatus.waiting = "waiting"
node_status_text NodeStatus.blocked = "blocked"
node_status_text NodeStatus.succeeded = "succeeded"
node_status_text NodeStatus.failed = "failed"
node_status_text NodeStatus.skipped = "skipped"
node_status_text NodeStatus.cancelled = "cancelled"

unfoldable pub interrupt_type_text : InterruptType → String
interrupt_type_text InterruptType.approval_required = "approval_required"
interrupt_type_text InterruptType.missing_input = "missing_input"
interrupt_type_text InterruptType.system_pause = "system_pause"
interrupt_type_text InterruptType.policy_pause = "policy_pause"
interrupt_type_text InterruptType.external_async_wait = "external_async_wait"

-- `_node_event_type`
unfoldable pub node_event_type : NodeStatus → String
node_event_type NodeStatus.succeeded = "node.succeeded"
node_event_type NodeStatus.failed = "node.failed"
node_event_type NodeStatus.waiting = "node.waiting"
node_event_type NodeStatus.blocked = "node.blocked"
node_event_type NodeStatus.skipped = "node.skipped"
node_event_type NodeStatus.cancelled = "node.cancelled"
node_event_type _ = "node.updated"

-- `x if isinstance(x, dict) else None`, and a value under a key that is itself a dict.
abbrev pub dict_in : Option Value → Option Fields
dict_in (some (Value.dict d)) = some d
dict_in _ = none

abbrev pub dict_at : Fields → String → Option Fields
dict_at d k = dict_in (fget d k)

abbrev pub and_then : {A B : Type 0} → Option A → (A → Option B) → Option B
and_then none f = none
and_then (some a) f = f a

abbrev pub read_payload : Option Fields → Result (Option ResolvedAgentBinding)
read_payload none = ok none
read_payload (some payload) = elim (from_map payload) [ ok b ↦ ok (some b) | err e ↦ err e ]

-- The dict of a node's binding, in the extensions of a run.
abbrev pub payload_at : Option Value → String → Option Fields
payload_at bindings node_id =
    and_then (dict_in bindings)
      (λ d. and_then (dict_at d "agent_bindings_by_node") (λ by_node. dict_at by_node node_id))

-- `_read_agent_binding`
unfoldable pub read_agent_binding : ReducedSnapshot → String → Result (Option ResolvedAgentBinding)
read_agent_binding s node_id =
    read_payload (payload_at (fget s.run_state.extensions "agent_bindings") node_id)

-- `_resolve_executor_ref`
unfoldable pub resolve_executor_ref : ReducedSnapshot → String → String → Result String
resolve_executor_ref s node_id fallback = elim (read_agent_binding s node_id) [
  | ok none ↦ ok fallback
  | ok (some b) ↦ ok b.executor_ref
  | err e ↦ err e
]

-- The patch that starts a node.
unfoldable pub started_patch :
    ReducedSnapshot → String → NodeState → ℕ → Fields → String → StatePatch
started_patch s node_id n started_at input executor_ref = record empty_patch {
  run_state_updates =
      RunStateUpdate.active_nodes (merge_unique s.run_state.active_nodes (node_id ∷ []))
      ∷ (RunStateUpdate.frontier (without node_id s.run_state.frontier) ∷ []);
  node_state_updates =
      (
        node_id,
        NodeStateUpdate.attempt (suc n.attempt)
            ∷ (NodeStateUpdate.status NodeStatus.running
                ∷ (NodeStateUpdate.started_at (some started_at)
                    ∷ (NodeStateUpdate.input_snapshot input
                        ∷ (NodeStateUpdate.executor_ref executor_ref ∷ [])))),
      )
      ∷ [];
}

abbrev pub node_of : ReducedSnapshot → String → Result NodeState
node_of s node_id = or_raise (get s.node_states node_id) key_error

-- `_build_execution_context`
unfoldable pub build_execution_context :
    ReducedSnapshot → CompiledWorkflow → String → Action ExecutionContext
build_execution_context s w node_id = do
  spec ← lift (or_raise (get w.node_map node_id) key_error)
  binding ← lift (read_agent_binding s node_id)
  n ← lift (node_of s node_id)
  input ← lift (select_node_input s spec.input_selector)
  pure (record {
    thread_record = s.thread_record;
    run_record = s.run_record;
    thread_state = s.thread_state;
    run_state = s.run_state;
    node_state = n;
    workflow = w;
    node_spec = spec;
    agent_binding = binding;
    selected_input = input;
    trace_context = to_map (node_trace_context s.run_record.run_id node_id n.attempt);
  })

-- The events `interrupt.created`, one for each interrupt of the result.
unfoldable pub interrupt_events :
    ReducedSnapshot → TraceContext → List InterruptRecord → Action (List EventDraft)
interrupt_events s trace [] = pure []
interrupt_events s trace (i ∷ is) = do
  e ← lift (
      new_event "interrupt.created" s.thread_record.thread_id s.run_record.run_id i.node_id
        (field "interrupt_id" (Value.text i.interrupt_id) (
          field "interrupt_type" (Value.text (interrupt_type_text i.interrupt_type))
            (field "reason_code" (Value.text i.reason_code) end)))
        trace)
  es ← interrupt_events s trace is
  pure (e ∷ es)

unfoldable pub result_events :
    ReducedSnapshot → String → NodeExecutionResult → Action (List EventDraft)
result_events s node_id result = do
  n ← lift (node_of s node_id)
  e ← lift (
      new_event (node_event_type result.status) s.thread_record.thread_id s.run_record.run_id
        (some node_id)
        (field "status" (Value.text (node_status_text result.status)) (
          field "error_code" (optional_text result.error_code)
            (field "error_message" (optional_text result.error_message) end)))
        (node_trace_context s.run_record.run_id node_id n.attempt))
  es ←
      interrupt_events s (node_trace_context s.run_record.run_id node_id n.attempt)
        result.interrupts
  pure (e ∷ es)

-- `error_code or "NODE_EXECUTION_ERROR"`
abbrev pub code_or : Option String → String → String
code_or none d = d
code_or (some s) d = if s =ₛ "" then d else s

module _ (dp : Dependencies) where
  -- From the started node up to its execution's result.
  unfoldable pub begin_node :
      ReducedSnapshot → CompiledWorkflow → String → NodeSpec → String → Action NodeExecutionResult
  begin_node s w node_id spec executor_ref = do
    started_at ← now dp.services
    input ← lift (select_node_input s spec.input_selector)
    n ← lift (node_of s node_id)
    started ← apply_patch s (started_patch s node_id n started_at input executor_ref)
    n' ← lift (node_of started node_id)
    e ← lift (
        new_event "node.started" started.thread_record.thread_id started.run_record.run_id
          (some node_id) (field "executor_ref" (Value.text executor_ref) end)
          (node_trace_context started.run_record.run_id node_id n'.attempt))
    append_run_events dp.services s.run_record.run_id (e ∷ [])
    _ ← checkpoint dp.services started
    context ← build_execution_context started w node_id
    dp.execute context

  abbrev pub fail_if_failed : ReducedSnapshot → NodeExecutionResult → Action (Unit {0})
  fail_if_failed s result = elim (has_failed result.status) [
    | true ↦
        mark_run_failed dp.services s (code_or result.error_code "NODE_EXECUTION_ERROR")
          result.error_message
    | false ↦ pure tt
  ]

  -- From the execution's result to the end.
  unfoldable pub finish_node :
      String → CompiledWorkflow → String → NodeExecutionResult → Action (Unit {0})
  finish_node run_id w node_id result = do
    current ← get_state run_id
    patch ← build_result_patch dp.services current w node_id result
    updated ← apply_patch current patch
    events ← result_events updated node_id result
    append_run_events dp.services run_id events
    _ ← checkpoint dp.services updated
    fail_if_failed updated result

  unfoldable pub execute_node : ReducedSnapshot → CompiledWorkflow → String → Action (Unit {0})
  execute_node s w node_id = do
    spec ← lift (or_raise (get w.node_map node_id) key_error)
    executor_ref ← lift (resolve_executor_ref s node_id spec.executor_ref)
    elim (dp.can_execute spec.node_type executor_ref) [
      | false ↦
          mark_run_failed dp.services s "EXECUTOR_NOT_AVAILABLE"
            (some (join "no executor available for node '" (join node_id "'")))
      | true ↦ begin_node s w node_id spec executor_ref >>= λ result.
          finish_node s.run_record.run_id w node_id result
    ]
