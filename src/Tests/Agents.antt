-- ===== src/Tests/Agents.antt =====
-- A registry with two versions of a writer, and a workflow that names it.
use agent_roles.Common.{◌≡◌, refl, none, some, [], ◌∷◌, ok, ◌>>=◌}
use agent_roles.Common.Dict.{get, put}
use agent_roles.Value.{Value, end, field, fget, split_path}
use agent_roles.State.Models.{ReducedSnapshot}
use agent_roles.State.Validation.{non_empty}
use agent_roles.Workflow.Models.{NodeSpec, WorkflowDefinition, CompiledWorkflow, compiled_valid}
use agent_roles.Workflow.Compiler.{
  materialize_node_map, no_edges, append_edge, validate_edge_reference, add_edge,
  validate_terminal_conditions, validate_node, validate_node_constraints, collect_edges,
  compile_graph, compile_definition,
}
use agent_roles.Workflow.Compiler.Cycles.{visit_edges, visit, visit_nodes, contains_cycle}
use agent_roles.Versions.{
  latest_version, greatest, version_key, version_key_lt, numbers_lt, number_parts, number_part,
  digits_onto,
}
use agent_roles.Agents.Models.{AgentStatus, AgentDescriptor, split_agent_ref, split_colon}
use agent_roles.Agents.Registry.{
  AgentRegistry, versions_of, register, resolve, get_agent, get_default,
}
use agent_roles.Workflow.Registry.{WorkflowProvider, definitions_of, get_definition}
use agent_roles.Versions.Latest.{IsLatest, default_versions_unsurpassed}
use agent_roles.Agents.Bindings.{
  checked_bindings, ResolvedWorkflowBindings, to_extension_map, binding_valid, checked_binding,
}
use agent_roles.Agents.Resolver.{
  bound_to, bind_agent, bind_nodes, resolve_node_binding, resolve_bindings,
}
use agent_roles.Agents.Resolver.Reading.{read_agent_binding-resolve_node_binding}
use agent_roles.Runtime.Nodes.{read_agent_binding}
use agent_roles.Tests.Data.{definition, flow, draft_spec, review_spec, snapshot}

abbrev writer : AgentDescriptor
writer = record {
  agent_id = "writer";
  name = "writer";
  agent_version = "1.9";
  role = "author";
  description = "writes drafts";
  executor_ref = "agent.writer";
  status = AgentStatus.active;
  domain = none;
  implementation_ref = some "writers.main";
  tags = [];
  tool_refs = "mail" ∷ [];
  memory_scopes = [];
  policy_profiles = [];
  capabilities = [];
  input_contract = end;
  output_contract = end;
  metadata = end;
}

abbrev later_writer : AgentDescriptor
later_writer = record writer { agent_version = "1.10" }

abbrev agents : AgentRegistry
agents = ("writer", ("1.9", writer) ∷ (("1.10", later_writer) ∷ [])) ∷ []

registered : (register writer [] >>= register later_writer) ≡ ok agents
unfolding register get put
registered = refl

abbrev workflows : WorkflowProvider
workflows = ("writer", ("1", definition) ∷ []) ∷ []

default_versions_unsurpassed_example :
    IsLatest (versions_of agents "writer") (get_default agents "writer")
    × IsLatest (definitions_of workflows "writer") (get_definition workflows "writer" none)
default_versions_unsurpassed_example = default_versions_unsurpassed agents workflows "writer"

-- The version 1.10 is after 1.9.
latest_writer : get_default agents "writer" ≡ ok (some later_writer)
unfolding get_default latest_version greatest version_key version_key_lt numbers_lt number_parts
    number_part digits_onto split_path get
latest_writer = refl

abbrev named_spec : NodeSpec
named_spec = record draft_spec { agent_ref = some "writer" }

abbrev naming : WorkflowDefinition
naming = record definition { node_specs = named_spec ∷ (review_spec ∷ []) }

abbrev naming_flow : CompiledWorkflow
naming_flow = record flow { node_map = ("draft", named_spec) ∷ (("review", review_spec) ∷ []) }

naming_compiled : compile_definition naming ≡ ok naming_flow
unfolding compile_definition materialize_node_map collect_edges no_edges add_edge append_edge
    validate_edge_reference compile_graph validate_terminal_conditions validate_node
    validate_node_constraints contains_cycle visit_nodes visit visit_edges compiled_valid non_empty
    get put
naming_compiled = refl

abbrev bindings : ResolvedWorkflowBindings
bindings = record {
  workflow_id = "flow";
  workflow_version = "1";
  agent_bindings_by_node = ("draft", bound_to "draft" "writer" later_writer) ∷ [];
  metadata = end;
}

bindings_resolved : resolve_bindings agents naming_flow ≡ ok bindings
unfolding resolve_bindings bind_nodes resolve_node_binding bind_agent resolve get_agent
    split_agent_ref split_colon get_default latest_version greatest version_key version_key_lt
    numbers_lt number_parts number_part digits_onto split_path get put checked_binding binding_valid
    checked_bindings non_empty
bindings_resolved = refl

abbrev bound : ReducedSnapshot
bound = record snapshot {
  run_state = record snapshot.run_state {
    extensions = field "agent_bindings" (Value.dict (to_extension_map bindings)) end;
  };
}

bound_found :
    fget bound.run_state.extensions "agent_bindings" ≡ some (Value.dict (to_extension_map bindings))
unfolding fget
bound_found = refl

named_found : get naming_flow.node_map "draft" ≡ some named_spec
unfolding get
named_found = refl

read_agent_binding-resolve_node_binding_example :
    read_agent_binding bound "draft" ≡ resolve_node_binding agents named_spec
read_agent_binding-resolve_node_binding_example =
    read_agent_binding-resolve_node_binding agents naming naming_flow bindings bound "draft"
      named_spec naming_compiled bindings_resolved bound_found named_found
