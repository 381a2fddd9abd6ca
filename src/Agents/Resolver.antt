-- ===== src/Agents/Resolver.antt =====
-- `RegistryBackedAgentBindingResolver` (src/core/agents/resolver.py).
pub mod Bound
pub mod Reading
use agent_roles.Common.{
  String, Bool, true, false, ◌&&◌, Option, none, some, List, [], ◌∷◌, Result, ok, err, value_error,
  key_error, ◌>>=◌, ◌>>◌, require, or_raise, if◌then◌else◌, fold_result,
}
use agent_roles.Common.Dict.{Dict, get, put, values}
use agent_roles.Value.{end}
use agent_roles.State.Models.{NodeType}
use agent_roles.State.Validation.{non_empty}
use agent_roles.Workflow.Models.{NodeSpec, CompiledWorkflow}
use agent_roles.Agents.Bindings.{
  ResolvedAgentBinding, ResolvedWorkflowBindings, checked_binding, checked_bindings,
}
use agent_roles.Agents.Models.{AgentDescriptor}
use agent_roles.Agents.Registry.{AgentRegistry, resolve}

abbrev pub is_agent_node : NodeType → Bool
is_agent_node NodeType.agent = true
is_agent_node _ = false

abbrev pub bound_to : String → String → AgentDescriptor → ResolvedAgentBinding
bound_to node_id agent_ref d = record {
  node_id = node_id;
  agent_ref = agent_ref;
  resolved_agent_id = d.agent_id;
  resolved_version = d.agent_version;
  executor_ref = d.executor_ref;
  implementation_ref = d.implementation_ref;
  tool_refs = d.tool_refs;
  memory_scopes = d.memory_scopes;
  policy_profiles = d.policy_profiles;
  capabilities = d.capabilities;
  metadata = d.metadata;
}

-- `if binding is not None: bindings[node_spec.node_id] = binding`
abbrev pub with_binding :
    String → Option ResolvedAgentBinding → Dict ResolvedAgentBinding → Dict ResolvedAgentBinding
with_binding node_id none bindings = bindings
with_binding node_id (some b) bindings = put bindings node_id b

module _ (r : AgentRegistry) where
  -- The binding of a node that names an agent.
  unfoldable pub bind_agent : NodeSpec → String → Result ResolvedAgentBinding
  bind_agent n agent_ref = do
    require (is_agent_node n.node_type) value_error
    found ← resolve r agent_ref
    d ← or_raise found key_error
    checked_binding (bound_to n.node_id agent_ref d)

  -- `resolve_node_binding`
  unfoldable pub resolve_node_binding : NodeSpec → Result (Option ResolvedAgentBinding)
  resolve_node_binding n = elim n.agent_ref [
    | none ↦ ok none
    | some agent_ref ↦ bind_agent n agent_ref >>= λ b. ok (some b)
  ]

  -- The loop over the nodes.
  unfoldable pub bind_nodes :
      List NodeSpec → Dict ResolvedAgentBinding → Result (Dict ResolvedAgentBinding)
  bind_nodes [] bindings = ok bindings
  bind_nodes (n ∷ ns) bindings =
      resolve_node_binding n >>= λ b. bind_nodes ns (with_binding n.node_id b bindings)

  -- `resolve_workflow_bindings`
  unfoldable pub resolve_bindings : CompiledWorkflow → Result ResolvedWorkflowBindings
  resolve_bindings w = do
    bindings ← bind_nodes (values w.node_map) []
    checked_bindings (record {
      workflow_id = w.workflow_id;
      workflow_version = w.workflow_version;
      agent_bindings_by_node = bindings;
      metadata = end;
    })
