-- ===== src/Runtime/Service/Start.antt =====
-- `start_run` (src/core/runtime/runtime_service.py).
use agent_roles.Common.{
  ℕ, String, Bool, true, false, Option, none, some, List, [], ◌∷◌, Result, ok, err, key_error,
  value_error, or_raise, if◌then◌else◌, is_some, ◌=ₛ◌,
}
use agent_roles.Common.Dict.{Dict, get, values}
use agent_roles.Value.{Value, Fields, end, field}
use agent_roles.State.Models.{
  ThreadStatus, RunStatus, NodeStatus, BudgetSnapshot, BudgetUsage, ThreadRecord, RunRecord,
  ThreadState, RunState, NodeState, ReducedSnapshot,
}
use agent_roles.State.Patch.{
  StatePatch, ThreadRecordUpdate, ThreadStateUpdate, RunStateUpdate, empty_patch,
}
use agent_roles.State.Dataclass.{checked}
use agent_roles.State.Validation.{run_record_class, run_state_class, node_state_class}
use agent_roles.State.Reducer.{apply}
use agent_roles.Workflow.Models.{CompiledWorkflow, NodeSpec}
use agent_roles.Agents.Bindings.{ResolvedWorkflowBindings, to_extension_map}
use agent_roles.Runtime.Monad.{Action, ◌>>=◌, ◌>>◌, pure, lift, ask, raise_when}
use agent_roles.Runtime.Context.{Dependencies}
use agent_roles.Runtime.Store.{
  now, new_id, persist, append_run_events, checkpoint, new_event, run_event, run_trace_context,
}
use agent_roles.Runtime.Rounds.{run_scheduler_loop}
use agent_roles.Runtime.Service.{compiled, run_or, if_returned}

abbrev pub no_budget : BudgetSnapshot
no_budget = record {
  max_model_tokens = none;
  max_tool_calls = none;
  max_external_writes = none;
  max_runtime_ms = none;
  metadata = end;
}

abbrev pub nothing_used : BudgetUsage
nothing_used = record {
  model_tokens_used = 0;
  tool_calls_used = 0;
  external_writes_used = 0;
  runtime_ms_used = 0;
  estimated_cost_usd = none;
  metadata = end;
}

-- `_build_initial_node_states`
abbrev initial_node_state : String → CompiledWorkflow → String → NodeSpec → NodeState
initial_node_state run_id w id spec = record {
  run_id = run_id;
  node_id = id;
  node_type = spec.node_type;
  status = if id =ₛ w.entry_node_id then NodeStatus.ready else NodeStatus.pending;
  attempt = 0;
  input_snapshot = end;
  output_artifact_id = none;
  started_at = none;
  ended_at = none;
  executor_ref = spec.executor_ref;
  error_code = none;
  error_message = none;
  side_effect_ids = [];
  policy_decision_ids = [];
  metadata = end;
  version = 0;
}

unfoldable pub build_initial_node_states :
    String → CompiledWorkflow → Dict NodeSpec → Action (List NodeState)
build_initial_node_states run_id w [] = pure []
build_initial_node_states run_id w ((id, spec) ∷ m) = do
  n ← lift (checked node_state_class (initial_node_state run_id w id spec))
  ns ← build_initial_node_states run_id w m
  pure (n ∷ ns)

-- `_empty_snapshot`
abbrev empty_snapshot : ThreadRecord → ThreadState → RunRecord → RunState → ReducedSnapshot
empty_snapshot t ts r rs = record {
  thread_record = t;
  run_record = r;
  thread_state = ts;
  run_state = rs;
  node_states = [];
  artifacts = [];
  interrupts = [];
  policy_decisions = [];
  side_effects = [];
}

-- `_binding_run_state_updates`
abbrev binding_updates : Option ResolvedWorkflowBindings → List RunStateUpdate
binding_updates none = []
binding_updates (some b) =
    RunStateUpdate.extensions (field "agent_bindings" (Value.dict (to_extension_map b)) end) ∷ []

abbrev has_agent_ref : List NodeSpec → Bool
has_agent_ref [] = false
has_agent_ref (n ∷ ns) = elim n.agent_ref [ some _ ↦ true | none ↦ has_agent_ref ns ]

-- The patch that opens a run.
unfoldable pub opening_patch :
    String → ℕ → Option ResolvedWorkflowBindings → List NodeState → StatePatch
opening_patch run_id started_at bindings nodes = record empty_patch {
  thread_record_updates =
      ThreadRecordUpdate.status ThreadStatus.active
      ∷ (ThreadRecordUpdate.current_run_id (some run_id)
          ∷ (ThreadRecordUpdate.updated_at started_at ∷ []));
  thread_state_updates =
      ThreadStateUpdate.active_run_id (some run_id)
      ∷ (ThreadStateUpdate.thread_status ThreadStatus.active ∷ []);
  run_state_updates = binding_updates bindings;
  node_states_to_upsert = nodes;
}

module _ (dp : Dependencies) where
  -- `_resolve_workflow_bindings`
  unfoldable pub resolve_workflow_bindings :
      CompiledWorkflow → Result (Option ResolvedWorkflowBindings)
  resolve_workflow_bindings w = elim (has_agent_ref (values w.node_map)) [
    | false ↦ ok none
    | true ↦ elim dp.resolve_bindings [
      | none ↦ err value_error
      | some resolve ↦ elim (resolve w) [ ok b ↦ ok (some b) | err e ↦ err e ]
    ]
  ]

  -- The state of a run as `start_run` first stores it.
  unfoldable pub open_run :
      ThreadRecord
      → ThreadState
      → CompiledWorkflow
      → Option ResolvedWorkflowBindings
      → String
      → Fields
      → Action ReducedSnapshot
  open_run thread state w bindings trigger payload = do
    started_at ← now dp.services
    run_id ← new_id dp.services "run"
    run ← lift (
        checked run_record_class (record {
          run_id = run_id;
          thread_id = thread.thread_id;
          workflow_id = w.workflow_id;
          workflow_version = w.workflow_version;
          status = RunStatus.running;
          entry_node_id = w.entry_node_id;
          started_at = some started_at;
          ended_at = none;
          parent_run_id = none;
          trigger = trigger;
          trigger_payload = payload;
          failure_code = none;
          failure_message = none;
          budget_snapshot = no_budget;
          metadata = end;
          version = 0;
        }))
    run_state ← lift (
        checked run_state_class (record {
          run_id = run_id;
          thread_id = thread.thread_id;
          workflow_id = w.workflow_id;
          workflow_version = w.workflow_version;
          status = RunStatus.running;
          frontier = w.entry_node_id ∷ [];
          completed_nodes = [];
          failed_nodes = [];
          waiting_nodes = [];
          blocked_nodes = [];
          active_nodes = [];
          pending_interrupt_ids = [];
          pending_approval_ids = [];
          budget_usage = nothing_used;
          last_event_id = none;
          extensions = end;
          version = 0;
        }))
    nodes ← build_initial_node_states run_id w w.node_map
    s ← lift (
        apply (empty_snapshot thread state run run_state)
          (opening_patch run_id started_at bindings nodes))
    persist s
    pure s

  -- The first three events of a run.
  unfoldable pub announce_run : ReducedSnapshot → CompiledWorkflow → String → Action (Unit {0})
  announce_run s w trigger =
      let thread_id = s.thread_record.thread_id in
      let run_id = s.run_record.run_id in
      do
        created ← lift (
            run_event "run.created" thread_id run_id (
              field "workflow_id" (Value.text w.workflow_id) (
                field "workflow_version" (Value.text w.workflow_version)
                  (field "entry_node_id" (Value.text w.entry_node_id) end))))
        started ←
            lift
              (run_event "run.started" thread_id run_id (field "trigger" (Value.text trigger) end))
        ready ← lift (
            new_event "node.ready" thread_id run_id (some w.entry_node_id)
              (field "reason" (Value.text "entry") end) (run_trace_context run_id))
        append_run_events dp.services run_id (created ∷ (started ∷ (ready ∷ [])))

  -- `start_run`, with so many rounds of the scheduler; `none` if these did not do.
  unfoldable pub start_run :
      ℕ → String → String → Option String → String → Fields → Action (Option RunRecord)
  start_run rounds thread_id workflow_id version trigger payload = do
    w₀ ← ask
    thread ← lift (or_raise (get w₀.state_store.thread_records thread_id) key_error)
    state ← lift (or_raise (get w₀.state_store.thread_states thread_id) key_error)
    raise_when (is_some thread.current_run_id) value_error
    w ← compiled dp workflow_id version
    bindings ← lift (resolve_workflow_bindings w)
    s ← open_run thread state w bindings trigger payload
    announce_run s w trigger
    _ ← checkpoint dp.services s
    p ← run_scheduler_loop dp rounds s.run_record.run_id w
    if_returned p (run_or s.run_record.run_id s.run_record)
