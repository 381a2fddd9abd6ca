-- ===== src/Executors/Together.antt =====
-- The executors of src/core/executors put together, with tools behind the static policy.
use agent_roles.Common.{String, Option, some, List, [], ◌∷◌, Result}
use agent_roles.Value.{Value}
use agent_roles.State.Models.{SchedulerConfig}
use agent_roles.Workflow.Models.{CompiledWorkflow, WorkflowDefinition}
use agent_roles.Agents.Bindings.{ResolvedWorkflowBindings}
use agent_roles.Contracts.{Services}
use agent_roles.Runtime.Context.{Dependencies}
use agent_roles.Tools.Models.{ToolInvoker}
use agent_roles.Tools.Policy.{policy_aware}
use agent_roles.Tools.Static.{StaticPolicyEngine, static_engine}
use agent_roles.Executors.Basic.{NodeExecutor, basic_executor}
use agent_roles.Executors.Agent as Agent
use agent_roles.Executors.Agent.{AgentImplementation}
use agent_roles.Executors.Tool as Tool

abbrev pub delegates :
    Services → StaticPolicyEngine → ToolInvoker → List AgentImplementation → List NodeExecutor
delegates sv e tools agents =
    record {
      can_execute = Tool.can_execute;
      execute = Tool.execute sv (some (policy_aware tools (some (static_engine e sv))));
    }
    ∷ (record { can_execute = Agent.can_execute; execute = Agent.execute agents } ∷ [])

abbrev pub executors :
    Services
    → (Value → String)
    → StaticPolicyEngine
    → ToolInvoker
    → List AgentImplementation
    → NodeExecutor
executors sv repr e tools agents = basic_executor sv repr (delegates sv e tools agents)

-- The dependencies of a runtime with the executors of this folder: the basic one, with one for
-- tools behind a static policy and one for agents.
abbrev pub assembled :
    Services
    → SchedulerConfig
    → (String → Option String → Option WorkflowDefinition)
    → Option (CompiledWorkflow → Result ResolvedWorkflowBindings)
    → (Value → String)
    → StaticPolicyEngine
    → ToolInvoker
    → List AgentImplementation
    → Dependencies
assembled sv config definitions bindings repr e tools agents = record {
  services = sv;
  config = config;
  get_definition = definitions;
  can_execute = (executors sv repr e tools agents).can_execute;
  execute = (executors sv repr e tools agents).execute;
  resolve_bindings = bindings;
}
