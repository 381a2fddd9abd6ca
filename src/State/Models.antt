-- ===== src/State/Models.antt =====
-- src/core/state/models.py: the enums and records. Identifiers are texts; a datetime is a number of
-- ticks; `estimated_cost_usd` is a number of millionths. Counters and versions are naturals, so
-- the checks that they are not negative hold by type.
use agent_roles.Common.{ℕ, String, Bool, Option, List}
use agent_roles.Common.Dict.{Dict}
use agent_roles.Value.{Fields}

pub data ThreadStatus : Type 0 where
  created active paused completed failed archived : ThreadStatus

pub data RunStatus : Type 0 where
  queued running waiting interrupted completed failed cancelled : RunStatus

pub data NodeStatus : Type 0 where
  pending ready running waiting blocked succeeded failed skipped cancelled : NodeStatus

pub data NodeType : Type 0 where
  agent tool router merge condition human_gate noop : NodeType

pub data InterruptType : Type 0 where
  approval_required missing_input system_pause policy_pause external_async_wait : InterruptType

pub data InterruptStatus : Type 0 where
  open_status resolved cancelled : InterruptStatus

pub data PolicyAction : Type 0 where
  allow deny require_approval redact degrade retry_later : PolicyAction

pub data SideEffectKind : Type 0 where
  read_only local_write external_write : SideEffectKind

pub data QueuePolicy : Type 0 where
  fifo priority : QueuePolicy

pub record BudgetSnapshot : Type 0 where
  pub max_model_tokens : Option ℕ
  pub max_tool_calls : Option ℕ
  pub max_external_writes : Option ℕ
  pub max_runtime_ms : Option ℕ
  pub metadata : Fields

pub record BudgetUsage : Type 0 where
  pub model_tokens_used : ℕ
  pub tool_calls_used : ℕ
  pub external_writes_used : ℕ
  pub runtime_ms_used : ℕ
  pub estimated_cost_usd : Option ℕ
  pub metadata : Fields

pub record ThreadRecord : Type 0 where
  pub thread_id : String
  pub thread_type : String
  pub title : Option String
  pub owner_id : Option String
  pub tenant_id : Option String
  pub status : ThreadStatus
  pub created_at : ℕ
  pub updated_at : ℕ
  pub current_run_id : Option String
  pub latest_checkpoint_id : Option String
  pub labels : List String
  pub metadata : Fields
  pub version : ℕ

pub record RunRecord : Type 0 where
  pub run_id : String
  pub thread_id : String
  pub workflow_id : String
  pub workflow_version : String
  pub status : RunStatus
  pub entry_node_id : String
  pub started_at : Option ℕ
  pub ended_at : Option ℕ
  pub parent_run_id : Option String
  pub trigger : String
  pub trigger_payload : Fields
  pub failure_code : Option String
  pub failure_message : Option String
  pub budget_snapshot : BudgetSnapshot
  pub metadata : Fields
  pub version : ℕ

pub record ThreadState : Type 0 where
  pub thread_id : String
  pub goal : String
  pub global_context : Fields
  pub shared_memory_refs : List String
  pub artifact_ids : List String
  pub active_run_id : Option String
  pub thread_status : ThreadStatus
  pub extensions : Fields
  pub version : ℕ

pub record RunState : Type 0 where
  pub run_id : String
  pub thread_id : String
  pub workflow_id : String
  pub workflow_version : String
  pub status : RunStatus
  pub frontier : List String
  pub completed_nodes : List String
  pub failed_nodes : List String
  pub waiting_nodes : List String
  pub blocked_nodes : List String
  pub active_nodes : List String
  pub pending_interrupt_ids : List String
  pub pending_approval_ids : List String
  pub budget_usage : BudgetUsage
  pub last_event_id : Option String
  pub extensions : Fields
  pub version : ℕ

pub record NodeState : Type 0 where
  pub run_id : String
  pub node_id : String
  pub node_type : NodeType
  pub status : NodeStatus
  pub attempt : ℕ
  pub input_snapshot : Fields
  pub output_artifact_id : Option String
  pub started_at : Option ℕ
  pub ended_at : Option ℕ
  pub executor_ref : String
  pub error_code : Option String
  pub error_message : Option String
  pub side_effect_ids : List String
  pub policy_decision_ids : List String
  pub metadata : Fields
  pub version : ℕ

pub record ArtifactRecord : Type 0 where
  pub artifact_id : String
  pub run_id : String
  pub thread_id : String
  pub producer_node_id : String
  pub artifact_type : String
  pub schema_version : String
  pub payload_ref : Option String
  pub payload_inline : Option Fields
  pub summary : Option String
  pub quality_status : Option String
  pub created_at : ℕ
  pub metadata : Fields

pub record InterruptRecord : Type 0 where
  pub interrupt_id : String
  pub run_id : String
  pub thread_id : String
  pub node_id : Option String
  pub interrupt_type : InterruptType
  pub reason_code : String
  pub reason_message : String
  pub payload : Fields
  pub status : InterruptStatus
  pub created_at : ℕ
  pub resolved_at : Option ℕ
  pub resolution_payload : Option Fields
  pub version : ℕ

pub record PolicyDecisionRecord : Type 0 where
  pub decision_id : String
  pub run_id : String
  pub node_id : Option String
  pub action : PolicyAction
  pub policy_name : String
  pub reason_code : String
  pub reason_message : String
  pub redactions : List String
  pub created_at : ℕ
  pub metadata : Fields

pub record SideEffectRecord : Type 0 where
  pub side_effect_id : String
  pub run_id : String
  pub node_id : String
  pub kind : SideEffectKind
  pub target_type : String
  pub target_ref : String
  pub action : String
  pub args_summary : Fields
  pub is_idempotent : Bool
  pub succeeded : Bool
  pub created_at : ℕ
  pub metadata : Fields

pub record ReducedSnapshot : Type 0 where
  pub thread_record : ThreadRecord
  pub run_record : RunRecord
  pub thread_state : ThreadState
  pub run_state : RunState
  pub node_states : Dict NodeState
  pub artifacts : Dict ArtifactRecord
  pub interrupts : Dict InterruptRecord
  pub policy_decisions : Dict PolicyDecisionRecord
  pub side_effects : Dict SideEffectRecord

pub record SchedulerConfig : Type 0 where
  pub max_parallel_nodes : ℕ
  pub node_queue_policy : QueuePolicy
  pub deadlock_detection_enabled : Bool
  pub deadlock_timeout_ms : ℕ
