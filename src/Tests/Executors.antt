-- ===== src/Tests/Executors.antt =====
-- The executors at concrete nodes.
use agent_roles.Common.{
  String, ◌≡◌, ◌≢◌, ◌↔◌, refl, true, false, none, some, [], ◌∷◌, keep, ok, err, value_error, Result,
}
use agent_roles.Common.Dict.{get, put}
use agent_roles.Value.{Value, end, field}
use agent_roles.State.Models.{NodeType, InterruptStatus, ReducedSnapshot}
use agent_roles.Stores.State.{
  build_snapshot, persist_snapshot, save_all, save_nodes, save_node_state, put_node, nodes_of_run,
  collect,
}
use agent_roles.Workflow.Models.{ApprovalPolicy, ApproverType, MergeMode, MergeStrategySpec}
use agent_roles.Agents.Bindings.{ResolvedAgentBinding}
use agent_roles.Runtime.Monad.{World}
use agent_roles.Runtime.Context.{ExecutionContext, NodeExecutionResult}
use agent_roles.Runtime.Keys.{Untouched}
use agent_roles.Runtime.Store.{get_state}
use agent_roles.Executors.Flow.{
  upstream_payload, merge_items, merge_by, execute_merge, edges_or_none, succeeds,
}
use agent_roles.Executors.Flow.Merging.{Merges, execute_merge-Merges}
use agent_roles.Executors.Basic.{
  latest_resolved, answer_or_ask, gate, execute_human_gate, execute_builtin,
}
use agent_roles.Executors.Basic.Gate.{Gates, execute_human_gate-Gates}
use agent_roles.Executors.Basic.Untouched.{execute_builtin-Untouched}
use agent_roles.Executors.Agent.{AgentImplementation, select_implementation}
use agent_roles.Executors.Agent.Selection.{fits, select_implementation_iff}
use agent_roles.Tests.Data.{services, snapshot, ask_interrupt, flow, review_spec}
use agent_roles.Tests.Runtime.{world_of}
use agent_roles.Tests.Tools.{context}

abbrev by_human : ApprovalPolicy
by_human = record {
  is_required = true;
  approver_type = ApproverType.human;
  approval_reason_code = "APPROVAL";
}

-- A gate at the node `review`, whose question is still open, and has been answered.
abbrev at_gate : ExecutionContext
at_gate = record context {
  node_spec = record review_spec {
    node_type = NodeType.human_gate;
    approval_policy = some by_human;
  };
}

abbrev answered : ReducedSnapshot
answered = record snapshot {
  interrupts =
      (
        "ask",
        record ask_interrupt {
          status = InterruptStatus.resolved;
          resolved_at = some 8;
          resolution_payload = some (field "ok" (Value.bool true) end);
        },
      )
      ∷ [];
}

abbrev opened : Result NodeExecutionResult × World
opened = execute_human_gate services at_gate (world_of answered)

abbrev result_or : Result NodeExecutionResult → NodeExecutionResult
result_or (ok r) = r
result_or _ = succeeds none

answered_stored : build_snapshot (world_of answered).state_store "run" ≡ ok answered
unfolding build_snapshot persist_snapshot save_all save_nodes save_node_state put_node nodes_of_run
    collect get put
answered_stored = refl

opens : opened ≡ (ok (result_or opened.0), opened.1)
unfolding execute_human_gate gate answer_or_ask latest_resolved get_state build_snapshot
    persist_snapshot save_all save_nodes save_node_state put_node nodes_of_run collect get put
opens = refl

execute_human_gate-Gates_example : Gates at_gate by_human answered (result_or opened.0)
execute_human_gate-Gates_example =
    execute_human_gate-Gates services at_gate by_human answered (world_of answered) opened.1
      (result_or opened.0) refl refl answered_stored opens

-- The text of an object is the name of its class.
abbrev pub repr : Value → String
repr v = "<object>"

abbrev into_list : MergeStrategySpec
into_list = record { mode = MergeMode.collect_list; key_field = none; custom = none }

abbrev merged : Result NodeExecutionResult
merged = execute_merge repr context into_list snapshot

merges : merged ≡ ok (result_or merged)
unfolding execute_merge merge_by merge_items upstream_payload get
merges = refl

execute_merge-Merges_example :
    Merges repr MergeMode.collect_list snapshot
      (edges_or_none (get flow.incoming_edges "review"))
      (result_or merged)
execute_merge-Merges_example =
    execute_merge-Merges repr context into_list snapshot (result_or merged) merges

abbrev pub writer : AgentImplementation
writer = record {
  implementation_ref = some "writers.main";
  can_handle = λ b. false;
  invoke = λ c w. (ok (succeeds none), w);
}

abbrev binding : ResolvedAgentBinding
binding = record {
  node_id = "draft";
  agent_ref = "writer";
  resolved_agent_id = "writer";
  resolved_version = "1";
  executor_ref = "agent.writer";
  implementation_ref = some "writers.main";
  tool_refs = [];
  memory_scopes = [];
  policy_profiles = [];
  capabilities = [];
  metadata = end;
}

select_implementation_iff_example :
    ((i : AgentImplementation)
      → (select_implementation (writer ∷ []) binding ≡ ok i)
        ↔ (keep (fits binding) (writer ∷ []) ≡ i ∷ []))
    × (((i : AgentImplementation) → keep (fits binding) (writer ∷ []) ≢ i ∷ [])
        → select_implementation (writer ∷ []) binding ≡ err value_error)
select_implementation_iff_example = select_implementation_iff (writer ∷ []) binding

execute_builtin-Untouched_example :
    Untouched (execute_builtin services repr NodeType.human_gate at_gate)
execute_builtin-Untouched_example =
    execute_builtin-Untouched services repr NodeType.human_gate at_gate
