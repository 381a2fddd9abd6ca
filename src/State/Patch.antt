-- ===== src/State/Patch.antt =====
-- StatePatch (src/core/state/models.py), and how one dict of updates is applied to a record
-- (`_apply_updates` and `_bump_version` of src/core/state/reducers.py). A dict from field names to
-- values is a list of typed writes, at most one for each field; `unknown` is a name that is no
-- field. A dict-valued field is merged, any other is replaced (`_merge_value`).
use agent_roles.Common.{ℕ, String, Option, some, List, [], Result, ok, err, value_error}
use agent_roles.Common.Dict.{Dict}
use agent_roles.Value.{Fields, update}
use agent_roles.State.Models.{
  ThreadStatus, RunStatus, NodeStatus, NodeType, InterruptType, InterruptStatus, BudgetSnapshot,
  BudgetUsage, ThreadRecord, RunRecord, ThreadState, RunState, NodeState, ArtifactRecord,
  InterruptRecord, PolicyDecisionRecord, SideEffectRecord,
}

-- `_merge_value` on a field that holds a dict or None.
abbrev merge_optional : Option Fields → Option Fields → Option Fields
merge_optional (some d) (some e) = some (update d e)
merge_optional _ v = v

pub data ThreadRecordUpdate : Type 0 where
  thread_id : String → ThreadRecordUpdate
  thread_type : String → ThreadRecordUpdate
  title : Option String → ThreadRecordUpdate
  owner_id : Option String → ThreadRecordUpdate
  tenant_id : Option String → ThreadRecordUpdate
  status : ThreadStatus → ThreadRecordUpdate
  created_at : ℕ → ThreadRecordUpdate
  updated_at : ℕ → ThreadRecordUpdate
  current_run_id : Option String → ThreadRecordUpdate
  latest_checkpoint_id : Option String → ThreadRecordUpdate
  labels : List String → ThreadRecordUpdate
  metadata : Fields → ThreadRecordUpdate
  version : ℕ → ThreadRecordUpdate
  unknown : String → ThreadRecordUpdate

pub data RunRecordUpdate : Type 0 where
  run_id : String → RunRecordUpdate
  thread_id : String → RunRecordUpdate
  workflow_id : String → RunRecordUpdate
  workflow_version : String → RunRecordUpdate
  status : RunStatus → RunRecordUpdate
  entry_node_id : String → RunRecordUpdate
  started_at : Option ℕ → RunRecordUpdate
  ended_at : Option ℕ → RunRecordUpdate
  parent_run_id : Option String → RunRecordUpdate
  trigger : String → RunRecordUpdate
  trigger_payload : Fields → RunRecordUpdate
  failure_code : Option String → RunRecordUpdate
  failure_message : Option String → RunRecordUpdate
  budget_snapshot : BudgetSnapshot → RunRecordUpdate
  metadata : Fields → RunRecordUpdate
  version : ℕ → RunRecordUpdate
  unknown : String → RunRecordUpdate

pub data ThreadStateUpdate : Type 0 where
  thread_id : String → ThreadStateUpdate
  goal : String → ThreadStateUpdate
  global_context : Fields → ThreadStateUpdate
  shared_memory_refs : List String → ThreadStateUpdate
  artifact_ids : List String → ThreadStateUpdate
  active_run_id : Option String → ThreadStateUpdate
  thread_status : ThreadStatus → ThreadStateUpdate
  extensions : Fields → ThreadStateUpdate
  version : ℕ → ThreadStateUpdate
  unknown : String → ThreadStateUpdate

pub data RunStateUpdate : Type 0 where
  run_id : String → RunStateUpdate
  thread_id : String → RunStateUpdate
  workflow_id : String → RunStateUpdate
  workflow_version : String → RunStateUpdate
  status : RunStatus → RunStateUpdate
  frontier : List String → RunStateUpdate
  completed_nodes : List String → RunStateUpdate
  failed_nodes : List String → RunStateUpdate
  waiting_nodes : List String → RunStateUpdate
  blocked_nodes : List String → RunStateUpdate
  active_nodes : List String → RunStateUpdate
  pending_interrupt_ids : List String → RunStateUpdate
  pending_approval_ids : List String → RunStateUpdate
  budget_usage : BudgetUsage → RunStateUpdate
  last_event_id : Option String → RunStateUpdate
  extensions : Fields → RunStateUpdate
  version : ℕ → RunStateUpdate
  unknown : String → RunStateUpdate

pub data NodeStateUpdate : Type 0 where
  run_id : String → NodeStateUpdate
  node_id : String → NodeStateUpdate
  node_type : NodeType → NodeStateUpdate
  status : NodeStatus → NodeStateUpdate
  attempt : ℕ → NodeStateUpdate
  input_snapshot : Fields → NodeStateUpdate
  output_artifact_id : Option String → NodeStateUpdate
  started_at : Option ℕ → NodeStateUpdate
  ended_at : Option ℕ → NodeStateUpdate
  executor_ref : String → NodeStateUpdate
  error_code : Option String → NodeStateUpdate
  error_message : Option String → NodeStateUpdate
  side_effect_ids : List String → NodeStateUpdate
  policy_decision_ids : List String → NodeStateUpdate
  metadata : Fields → NodeStateUpdate
  version : ℕ → NodeStateUpdate
  unknown : String → NodeStateUpdate

pub data InterruptRecordUpdate : Type 0 where
  interrupt_id : String → InterruptRecordUpdate
  run_id : String → InterruptRecordUpdate
  thread_id : String → InterruptRecordUpdate
  node_id : Option String → InterruptRecordUpdate
  interrupt_type : InterruptType → InterruptRecordUpdate
  reason_code : String → InterruptRecordUpdate
  reason_message : String → InterruptRecordUpdate
  payload : Fields → InterruptRecordUpdate
  status : InterruptStatus → InterruptRecordUpdate
  created_at : ℕ → InterruptRecordUpdate
  resolved_at : Option ℕ → InterruptRecordUpdate
  resolution_payload : Option Fields → InterruptRecordUpdate
  version : ℕ → InterruptRecordUpdate
  unknown : String → InterruptRecordUpdate

unfoldable pub set_thread_record : ThreadRecord → ThreadRecordUpdate → Result ThreadRecord
set_thread_record s (ThreadRecordUpdate.thread_id v) = ok (record s { thread_id = v })
set_thread_record s (ThreadRecordUpdate.thread_type v) = ok (record s { thread_type = v })
set_thread_record s (ThreadRecordUpdate.title v) = ok (record s { title = v })
set_thread_record s (ThreadRecordUpdate.owner_id v) = ok (record s { owner_id = v })
set_thread_record s (ThreadRecordUpdate.tenant_id v) = ok (record s { tenant_id = v })
set_thread_record s (ThreadRecordUpdate.status v) = ok (record s { status = v })
set_thread_record s (ThreadRecordUpdate.created_at v) = ok (record s { created_at = v })
set_thread_record s (ThreadRecordUpdate.updated_at v) = ok (record s { updated_at = v })
set_thread_record s (ThreadRecordUpdate.current_run_id v) = ok (record s { current_run_id = v })
set_thread_record s (ThreadRecordUpdate.latest_checkpoint_id v) =
    ok (record s { latest_checkpoint_id = v })
set_thread_record s (ThreadRecordUpdate.labels v) = ok (record s { labels = v })
set_thread_record s (ThreadRecordUpdate.metadata v) =
    ok (record s { metadata = update s.metadata v })
set_thread_record s (ThreadRecordUpdate.version v) = ok (record s { version = v })
set_thread_record s (ThreadRecordUpdate.unknown _) = err value_error

unfoldable pub set_run_record : RunRecord → RunRecordUpdate → Result RunRecord
set_run_record s (RunRecordUpdate.run_id v) = ok (record s { run_id = v })
set_run_record s (RunRecordUpdate.thread_id v) = ok (record s { thread_id = v })
set_run_record s (RunRecordUpdate.workflow_id v) = ok (record s { workflow_id = v })
set_run_record s (RunRecordUpdate.workflow_version v) = ok (record s { workflow_version = v })
set_run_record s (RunRecordUpdate.status v) = ok (record s { status = v })
set_run_record s (RunRecordUpdate.entry_node_id v) = ok (record s { entry_node_id = v })
set_run_record s (RunRecordUpdate.started_at v) = ok (record s { started_at = v })
set_run_record s (RunRecordUpdate.ended_at v) = ok (record s { ended_at = v })
set_run_record s (RunRecordUpdate.parent_run_id v) = ok (record s { parent_run_id = v })
set_run_record s (RunRecordUpdate.trigger v) = ok (record s { trigger = v })
set_run_record s (RunRecordUpdate.trigger_payload v) =
    ok (record s { trigger_payload = update s.trigger_payload v })
set_run_record s (RunRecordUpdate.failure_code v) = ok (record s { failure_code = v })
set_run_record s (RunRecordUpdate.failure_message v) = ok (record s { failure_message = v })
set_run_record s (RunRecordUpdate.budget_snapshot v) = ok (record s { budget_snapshot = v })
set_run_record s (RunRecordUpdate.metadata v) = ok (record s { metadata = update s.metadata v })
set_run_record s (RunRecordUpdate.version v) = ok (record s { version = v })
set_run_record s (RunRecordUpdate.unknown _) = err value_error

unfoldable pub set_thread_state : ThreadState → ThreadStateUpdate → Result ThreadState
set_thread_state s (ThreadStateUpdate.thread_id v) = ok (record s { thread_id = v })
set_thread_state s (ThreadStateUpdate.goal v) = ok (record s { goal = v })
set_thread_state s (ThreadStateUpdate.global_context v) =
    ok (record s { global_context = update s.global_context v })
set_thread_state s (ThreadStateUpdate.shared_memory_refs v) =
    ok (record s { shared_memory_refs = v })
set_thread_state s (ThreadStateUpdate.artifact_ids v) = ok (record s { artifact_ids = v })
set_thread_state s (ThreadStateUpdate.active_run_id v) = ok (record s { active_run_id = v })
set_thread_state s (ThreadStateUpdate.thread_status v) = ok (record s { thread_status = v })
set_thread_state s (ThreadStateUpdate.extensions v) =
    ok (record s { extensions = update s.extensions v })
set_thread_state s (ThreadStateUpdate.version v) = ok (record s { version = v })
set_thread_state s (ThreadStateUpdate.unknown _) = err value_error

unfoldable pub set_run_state : RunState → RunStateUpdate → Result RunState
set_run_state s (RunStateUpdate.run_id v) = ok (record s { run_id = v })
set_run_state s (RunStateUpdate.thread_id v) = ok (record s { thread_id = v })
set_run_state s (RunStateUpdate.workflow_id v) = ok (record s { workflow_id = v })
set_run_state s (RunStateUpdate.workflow_version v) = ok (record s { workflow_version = v })
set_run_state s (RunStateUpdate.status v) = ok (record s { status = v })
set_run_state s (RunStateUpdate.frontier v) = ok (record s { frontier = v })
set_run_state s (RunStateUpdate.completed_nodes v) = ok (record s { completed_nodes = v })
set_run_state s (RunStateUpdate.failed_nodes v) = ok (record s { failed_nodes = v })
set_run_state s (RunStateUpdate.waiting_nodes v) = ok (record s { waiting_nodes = v })
set_run_state s (RunStateUpdate.blocked_nodes v) = ok (record s { blocked_nodes = v })
set_run_state s (RunStateUpdate.active_nodes v) = ok (record s { active_nodes = v })
set_run_state s (RunStateUpdate.pending_interrupt_ids v) =
    ok (record s { pending_interrupt_ids = v })
set_run_state s (RunStateUpdate.pending_approval_ids v) = ok (record s { pending_approval_ids = v })
set_run_state s (RunStateUpdate.budget_usage v) = ok (record s { budget_usage = v })
set_run_state s (RunStateUpdate.last_event_id v) = ok (record s { last_event_id = v })
set_run_state s (RunStateUpdate.extensions v) = ok (record s { extensions = update s.extensions v })
set_run_state s (RunStateUpdate.version v) = ok (record s { version = v })
set_run_state s (RunStateUpdate.unknown _) = err value_error

unfoldable pub set_node_state : NodeState → NodeStateUpdate → Result NodeState
set_node_state s (NodeStateUpdate.run_id v) = ok (record s { run_id = v })
set_node_state s (NodeStateUpdate.node_id v) = ok (record s { node_id = v })
set_node_state s (NodeStateUpdate.node_type v) = ok (record s { node_type = v })
set_node_state s (NodeStateUpdate.status v) = ok (record s { status = v })
set_node_state s (NodeStateUpdate.attempt v) = ok (record s { attempt = v })
set_node_state s (NodeStateUpdate.input_snapshot v) =
    ok (record s { input_snapshot = update s.input_snapshot v })
set_node_state s (NodeStateUpdate.output_artifact_id v) = ok (record s { output_artifact_id = v })
set_node_state s (NodeStateUpdate.started_at v) = ok (record s { started_at = v })
set_node_state s (NodeStateUpdate.ended_at v) = ok (record s { ended_at = v })
set_node_state s (NodeStateUpdate.executor_ref v) = ok (record s { executor_ref = v })
set_node_state s (NodeStateUpdate.error_code v) = ok (record s { error_code = v })
set_node_state s (NodeStateUpdate.error_message v) = ok (record s { error_message = v })
set_node_state s (NodeStateUpdate.side_effect_ids v) = ok (record s { side_effect_ids = v })
set_node_state s (NodeStateUpdate.policy_decision_ids v) = ok (record s { policy_decision_ids = v })
set_node_state s (NodeStateUpdate.metadata v) = ok (record s { metadata = update s.metadata v })
set_node_state s (NodeStateUpdate.version v) = ok (record s { version = v })
set_node_state s (NodeStateUpdate.unknown _) = err value_error

unfoldable pub set_interrupt : InterruptRecord → InterruptRecordUpdate → Result InterruptRecord
set_interrupt s (InterruptRecordUpdate.interrupt_id v) = ok (record s { interrupt_id = v })
set_interrupt s (InterruptRecordUpdate.run_id v) = ok (record s { run_id = v })
set_interrupt s (InterruptRecordUpdate.thread_id v) = ok (record s { thread_id = v })
set_interrupt s (InterruptRecordUpdate.node_id v) = ok (record s { node_id = v })
set_interrupt s (InterruptRecordUpdate.interrupt_type v) = ok (record s { interrupt_type = v })
set_interrupt s (InterruptRecordUpdate.reason_code v) = ok (record s { reason_code = v })
set_interrupt s (InterruptRecordUpdate.reason_message v) = ok (record s { reason_message = v })
set_interrupt s (InterruptRecordUpdate.payload v) = ok (record s { payload = update s.payload v })
set_interrupt s (InterruptRecordUpdate.status v) = ok (record s { status = v })
set_interrupt s (InterruptRecordUpdate.created_at v) = ok (record s { created_at = v })
set_interrupt s (InterruptRecordUpdate.resolved_at v) = ok (record s { resolved_at = v })
set_interrupt s (InterruptRecordUpdate.resolution_payload v) =
    ok (record s { resolution_payload = merge_optional s.resolution_payload v })
set_interrupt s (InterruptRecordUpdate.version v) = ok (record s { version = v })
set_interrupt s (InterruptRecordUpdate.unknown _) = err value_error

pub record StatePatch : Type 0 where
  pub thread_record_updates : List ThreadRecordUpdate
  pub run_record_updates : List RunRecordUpdate
  pub thread_state_updates : List ThreadStateUpdate
  pub run_state_updates : List RunStateUpdate
  pub node_state_updates : Dict (List NodeStateUpdate)
  pub node_states_to_upsert : List NodeState
  pub artifacts_to_create : List ArtifactRecord
  pub interrupts_to_create : List InterruptRecord
  pub interrupt_updates : Dict (List InterruptRecordUpdate)
  pub policy_decisions_to_create : List PolicyDecisionRecord
  pub side_effects_to_create : List SideEffectRecord

-- `StatePatch()`
abbrev pub empty_patch : StatePatch
empty_patch = record {
  thread_record_updates = [];
  run_record_updates = [];
  thread_state_updates = [];
  run_state_updates = [];
  node_state_updates = [];
  node_states_to_upsert = [];
  artifacts_to_create = [];
  interrupts_to_create = [];
  interrupt_updates = [];
  policy_decisions_to_create = [];
  side_effects_to_create = [];
}
