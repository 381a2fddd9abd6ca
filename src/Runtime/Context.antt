-- ===== src/Runtime/Context.antt =====
-- What the runtime service is built from, and what it hands to an executor
-- (src/core/contracts/types.py, `_RuntimeDependencies` of src/core/runtime/runtime_service.py). The
-- workflow provider, the node executor and the resolver of agent bindings are protocols, so they
-- are parameters.
use agent_roles.Common.{String, Bool, Option, List, Result}
use agent_roles.Value.{Fields}
use agent_roles.State.Models.{
  NodeStatus, NodeType, ThreadRecord, RunRecord, ThreadState, RunState, NodeState, ArtifactRecord,
  InterruptRecord, PolicyDecisionRecord, SideEffectRecord, SchedulerConfig,
}
use agent_roles.Workflow.Models.{WorkflowDefinition, CompiledWorkflow, NodeSpec}
use agent_roles.Agents.Bindings.{ResolvedAgentBinding, ResolvedWorkflowBindings}
use agent_roles.Contracts.{Services}
use agent_roles.Runtime.Monad.{Action}

pub record ExecutionContext : Type 0 where
  pub thread_record : ThreadRecord
  pub run_record : RunRecord
  pub thread_state : ThreadState
  pub run_state : RunState
  pub node_state : NodeState
  pub workflow : CompiledWorkflow
  pub node_spec : NodeSpec
  pub agent_binding : Option ResolvedAgentBinding
  pub selected_input : Fields
  pub trace_context : Fields

pub record NodeExecutionResult : Type 0 where
  pub status : NodeStatus
  pub output : Option Fields
  pub artifact_type : Option String
  pub artifact : Option ArtifactRecord
  pub interrupts : List InterruptRecord
  pub error_code : Option String
  pub error_message : Option String
  pub policy_decisions : List PolicyDecisionRecord
  pub side_effects : List SideEffectRecord
  pub next_hints : Fields
  pub metadata : Fields

pub record Dependencies : Type 0 where
  pub services : Services
  pub config : SchedulerConfig
  -- `workflow_provider.get_definition(workflow_id, version=...)`
  pub get_definition : String → Option String → Option WorkflowDefinition
  -- `node_executor`; an executor may use the services.
  pub can_execute : NodeType → String → Bool
  pub execute : ExecutionContext → Action NodeExecutionResult
  pub resolve_bindings : Option (CompiledWorkflow → Result ResolvedWorkflowBindings)

pub data ReplayMode : Type 0 where
  diagnostic execution : ReplayMode

pub record ReplayHandle : Type 0 where
  pub run_id : String
  pub source_run_id : String
  pub checkpoint_id : Option String
  pub mode : ReplayMode
