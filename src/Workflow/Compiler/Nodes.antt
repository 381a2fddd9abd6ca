-- ===== src/Workflow/Compiler/Nodes.antt =====
-- The dict of nodes that `_materialize_node_map` makes (src/core/workflow/compiler.py).
use agent_roles.Common.{◌≡◌, refl, ap, subst, List, [], ◌∷◌, ok, >>=-eq-ok, String}
use agent_roles.Common.Dict.{Dict, put}
use agent_roles.Stores.State.Laws.{IsKeyed, put-IsKeyed}
use agent_roles.Workflow.Models.{NodeSpec, WorkflowDefinition, CompiledWorkflow}
use agent_roles.Workflow.Compiler.{
  with_defaults, materialize_node_map, compile_graph, collect_edges, compile_definition,
}
use agent_roles.Workflow.Compiler.Graphs.{compile_graph_lem}

abbrev pub id_of_node : NodeSpec → String
id_of_node n = n.node_id

materialize_node_map-IsKeyed :
    (d : WorkflowDefinition) (ns : List NodeSpec) (m : Dict NodeSpec)
    → IsKeyed id_of_node m
    → IsKeyed id_of_node (materialize_node_map d ns m)
unfolding materialize_node_map
materialize_node_map-IsKeyed d [] m h = h
materialize_node_map-IsKeyed d (n ∷ ns) m h =
    materialize_node_map-IsKeyed d ns (put m n.node_id (with_defaults d n))
      (put-IsKeyed id_of_node m (with_defaults d n) h)

-- The nodes of a compiled workflow are filed under their ids.
pub compile_definition-IsKeyed :
    (d : WorkflowDefinition) (w : CompiledWorkflow)
    → compile_definition d ≡ ok w
    → IsKeyed id_of_node w.node_map
unfolding compile_definition
compile_definition-IsKeyed d w h =
    let m = materialize_node_map d d.node_specs [] in
    let (edges, _, rest) = >>=-eq-ok (collect_edges m d.edge_specs) (compile_graph d m) h in
    let (_, _, _, same) = compile_graph_lem d m edges w rest in
    subst (IsKeyed id_of_node) (ap (λ v. v.node_map) same)
      (materialize_node_map-IsKeyed d d.node_specs [] (record { own = tt; unique = refl }))
