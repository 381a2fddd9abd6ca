-- ===== src/Tests/Workflow.antt =====
-- The compiler, the selector and the scheduler at a workflow of two nodes.
use agent_roles.Common.{◌≡◌, refl, true, [], ◌∷◌, ok, elem, ◌↔◌}
use agent_roles.Common.Dict.{get, put}
use agent_roles.State.Validation.{non_empty}
use agent_roles.Workflow.Models.{compiled_valid, EdgeSpec}
use agent_roles.Workflow.Compiler.{
  materialize_node_map, no_edges, append_edge, validate_edge_reference, EdgeMaps, add_edge,
  validate_terminal_conditions, validate_node, validate_node_constraints, collect_edges,
  compile_graph, compile_definition,
}
use agent_roles.Workflow.Compiler.Cycles.{visit_edges, visit, visit_nodes, contains_cycle}
use agent_roles.Workflow.Compiler.Graphs.{
  IsCompiled, Searches, compile_definition-IsCompiled, collect_edges-search,
}
use agent_roles.Selector.Ready.{select_ready_nodes}
use agent_roles.Selector.Ready.Laws.{CanRun, select_ready_nodes_iff}
use agent_roles.Scheduler.{order_ready_nodes}
use agent_roles.Scheduler.Order.{InOrder, Precedes, order_ready_nodes_lem}
use mathlib.Core.List.{Perm}
use agent_roles.Tests.Data.{snapshot, definition, flow, config, edges_by_source, edge}

definition_compiled : compile_definition definition ≡ ok flow
unfolding compile_definition materialize_node_map collect_edges no_edges add_edge append_edge
    validate_edge_reference compile_graph validate_terminal_conditions validate_node
    validate_node_constraints contains_cycle visit_nodes visit visit_edges compiled_valid non_empty
    get put
definition_compiled = refl

-- An edge from the second node back to the first is found.
abbrev back : EdgeSpec
back = record edge { edge_id = "back"; from_node_id = "review"; to_node_id = "draft" }

cycle_found :
    contains_cycle ("draft" ∷ ("review" ∷ [])) (("draft", edge ∷ []) ∷ (("review", back ∷ []) ∷ []))
    ≡ ok true
unfolding contains_cycle visit_nodes visit visit_edges get
cycle_found = refl

compile_definition-IsCompiled_example : IsCompiled flow
compile_definition-IsCompiled_example =
    compile_definition-IsCompiled definition flow definition_compiled

abbrev edge_maps : EdgeMaps
edge_maps = record { outgoing = flow.outgoing_edges; incoming = flow.incoming_edges }

edges_collected : collect_edges flow.node_map (edge ∷ []) ≡ ok edge_maps
unfolding collect_edges no_edges add_edge append_edge validate_edge_reference get put
edges_collected = refl

collect_edges-search_example : Searches flow.node_map edges_by_source
collect_edges-search_example =
    collect_edges-search flow.node_map (edge ∷ []) edge_maps edges_collected

select_ready_nodes_iff_example :
    (elem "review" (select_ready_nodes snapshot flow) ≡ true) ↔ CanRun snapshot flow "review"
select_ready_nodes_iff_example = select_ready_nodes_iff snapshot flow "review" refl

order_ready_nodes_lem_example :
    Perm (order_ready_nodes config snapshot ("review" ∷ ("draft" ∷ []))) ("review" ∷ ("draft" ∷ []))
    × InOrder
        (Precedes config.node_queue_policy snapshot.run_state.frontier)
        (order_ready_nodes config snapshot ("review" ∷ ("draft" ∷ [])))
order_ready_nodes_lem_example =
    order_ready_nodes_lem config snapshot ("review" ∷ ("draft" ∷ [])) refl
