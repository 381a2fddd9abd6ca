-- ===== src/Workflow/Compiler/Graphs.antt =====
-- The graph that the compiler builds from a definition, and what a compiled workflow promises
-- (src/core/workflow/compiler.py).
use agent_roles.Common.{
  String, ◌≡◌, ◌⊎◌, refl, sym, ap, ◌∙◌, subst, Bool, true, false, not, ◌&&◌, some, List, [], ◌∷◌,
  ◌++◌, ok, or_raise, raise_if, fold_result-keeps, >>=-eq-ok, ok-injective, elem, All, arith, ◌=ₛ◌,
  if◌then◌else◌, key_error, compile_error, is_empty, Option-cases, Bool-cases, inl, inr,
}
use agent_roles.Common.Dict.{Dict, get, put, contains, keys, get-put, elem-keys, get-empty}
use agent_roles.Workflow.Models.{
  NodeSpec, EdgeSpec, WorkflowDefinition, CompiledWorkflow, compiled_valid,
}
use agent_roles.Workflow.Compiler.{
  materialize_node_map, no_edges, append_edge, validate_edge_reference, EdgeMaps, add_edge,
  validate_terminal_conditions, validate_node_constraints, checked_workflow, workflow_of,
  collect_edges, compile_graph, compile_definition,
}
use agent_roles.Workflow.Compiler.Cycles.{Graph, contains_cycle}
use agent_roles.Workflow.Compiler.Cycles.Order.{IsOrder, contains_cycle-IsOrder}
use agent_roles.Workflow.Compiler.Cycles.Walks.{HasCycle, contains_cycle-HasCycle}
use agent_roles.Workflow.Compiler.Cycles.Fuel.{IsClosed, contains_cycle-total}

-- Every node has its edges on file, and each leads to a node.
record IsGraph (m : Dict NodeSpec) (g : Graph) : Type 0 where
  known : (id : String) → contains m id ≡ true → contains g id ≡ true
  inside :
      (id : String) (es : List EdgeSpec)
      → get g id ≡ some es
      → All (λ e. contains m e.to_node_id ≡ true) es

get-no_edges :
    (ids : List String) (d : Graph) (k : String)
    → get (no_edges ids d) k ≡ (if elem k ids then some [] else get d k)
unfolding no_edges
get-no_edges [] d k = refl
get-no_edges (id ∷ ids) d k = ground (arith, get-no_edges ids (put d id []) k, get-put d id [] k)

no_edges-IsGraph : (m : Dict NodeSpec) → IsGraph m (no_edges (keys m) [])
no_edges-IsGraph m = record {
  known = λ id h. ground (arith, get-no_edges (keys m) [] id, elem-keys m id);
  inside = λ id es h.
      let none_yet : es ≡ [] =
        ground (arith, get-no_edges (keys m) [] id, get-empty {V = List EdgeSpec} id) in
      subst (All (λ e. contains m e.to_node_id ≡ true)) (sym none_yet) tt;
}

All-snoc :
    (P : EdgeSpec → Type 0) (es : List EdgeSpec) (e : EdgeSpec)
    → All P es
    → P e
    → All P (es ++ e ∷ [])
All-snoc P [] e h p = (p, tt)
All-snoc P (x ∷ es) e h p = (h.0, All-snoc P es e h.1 p)

append_edge-IsGraph :
    (m : Dict NodeSpec) (g : Graph) (id : String) (e : EdgeSpec) (g' : Graph)
    → contains m e.to_node_id ≡ true
    → IsGraph m g
    → append_edge g id e ≡ ok g'
    → IsGraph m g'
unfolding append_edge
append_edge-IsGraph m g id e g' to h q =
    let (es, found, written) = >>=-eq-ok (or_raise (get g id) key_error) _ q in
    let stored : get g id ≡ some es = ground arith in
    subst (IsGraph m) (ok-injective written) (record {
      known = λ k c. ground (arith, get-put g id (es ++ e ∷ []) k, h.known k c);
      inside = λ k fs r. elim (Bool-cases (id =ₛ k)) [
        | inl same ↦
            let new : es ++ e ∷ [] ≡ fs = ground (arith, get-put g id (es ++ e ∷ []) k) in
            subst (All (λ x. contains m x.to_node_id ≡ true)) new
              (All-snoc (λ x. contains m x.to_node_id ≡ true) es e (h.inside id es stored) to)
        | inr other ↦ h.inside k fs (ground (arith, get-put g id (es ++ e ∷ []) k))
      ];
    })

add_edge-IsGraph :
    (m : Dict NodeSpec) (s : EdgeMaps) (e : EdgeSpec) (t : EdgeMaps)
    → IsGraph m s.outgoing
    → add_edge m s e ≡ ok t
    → IsGraph m t.outgoing
unfolding add_edge validate_edge_reference
add_edge-IsGraph m s e t h q =
    let (_, checks, rest) = >>=-eq-ok (validate_edge_reference m e) _ q in
    let (out, first, rest') = >>=-eq-ok (append_edge s.outgoing e.from_node_id e) _ rest in
    let (_, _, last) = >>=-eq-ok (append_edge s.incoming e.to_node_id e) _ rest' in
    let same : out ≡ t.outgoing = ap (λ x. x.outgoing) (ok-injective last) in
    subst (IsGraph m) same
      (append_edge-IsGraph m s.outgoing e.from_node_id e out (ground (arith, checks)) h first)

All-keys :
    (m : Dict NodeSpec) (es : List EdgeSpec)
    → All (λ e. contains m e.to_node_id ≡ true) es
    → All (λ e. elem e.to_node_id (keys m) ≡ true) es
All-keys m [] h = tt
All-keys m (e ∷ es) h = (elem-keys m e.to_node_id ∙ h.0, All-keys m es h.1)

IsGraph-IsClosed : (m : Dict NodeSpec) (g : Graph) → IsGraph m g → IsClosed g (keys m)
IsGraph-IsClosed m g h id a = elim (Option-cases (get g id)) [
  | inl missing ↦ absurd (ground (arith, h.known id, elem-keys m id))
  | inr (es, found) ↦ (es, found, All-keys m es (h.inside id es found))
]

collect_edges-IsGraph :
    (m : Dict NodeSpec) (es : List EdgeSpec) (t : EdgeMaps)
    → collect_edges m es ≡ ok t
    → IsGraph m t.outgoing
unfolding collect_edges
collect_edges-IsGraph m es t h =
    fold_result-keeps (λ s. IsGraph m s.outgoing) (add_edge m) (add_edge-IsGraph m) _ es t
      (no_edges-IsGraph m) h

-- What the search for a cycle says: there is none, and the nodes can be put in a row, each once, so
-- that every edge leads to a node further on; or there is one, and some node has a walk along edges
-- back to itself.
abbrev pub Searches : Dict NodeSpec → Graph → Type 0
Searches m g =
    ((contains_cycle (keys m) g ≡ ok false)
      × (order : List String) × IsOrder g order
      × All (λ id. elem id order ≡ true) (keys m))
    ⊎ ((contains_cycle (keys m) g ≡ ok true) × HasCycle g)

searched :
    (m : Dict NodeSpec) (g : Graph) (b : Bool) → contains_cycle (keys m) g ≡ ok b → Searches m g
searched m g false h =
    let (order, along, all) = contains_cycle-IsOrder g (keys m) h in inl (h, order, along, all)
searched m g true h = inr (h, contains_cycle-HasCycle g (keys m) h)

-- Once the edges of a definition are accepted, the search for a cycle ends, and is right: where it
-- finds none, the nodes can be put in a row, each once, so that every edge leads to a node further
-- on; where it finds one, some node has a walk along one edge or more back to itself.
pub collect_edges-search :
    (m : Dict NodeSpec) (es : List EdgeSpec) (t : EdgeMaps)
    → collect_edges m es ≡ ok t
    → Searches m t.outgoing
collect_edges-search m es t h =
    let (b, ends) =
      contains_cycle-total t.outgoing (keys m)
        (IsGraph-IsClosed m t.outgoing (collect_edges-IsGraph m es t h)) in
    searched m t.outgoing b ends

-- What the runtime relies on.
pub record IsCompiled (w : CompiledWorkflow) : Type 0 where
  pub valid : compiled_valid w ≡ true
  pub closed : IsClosed w.outgoing_edges (keys w.node_map)
  pub acyclic :
      w.contains_cycles ≡ false
      → (order : List String) × IsOrder w.outgoing_edges order
        × All (λ id. elem id order ≡ true) (keys w.node_map)

checked_workflow_lem :
    (v : CompiledWorkflow) {w : CompiledWorkflow}
    → checked_workflow v ≡ ok w
    → (compiled_valid v ≡ true) × (v ≡ w)
checked_workflow_lem v h = (ground arith, ground arith)

-- A graph that is compiled has been searched, and its workflow passes its checks.
pub compile_graph_lem :
    (d : WorkflowDefinition) (m : Dict NodeSpec) (edges : EdgeMaps) (w : CompiledWorkflow)
    → compile_graph d m edges ≡ ok w
    → (cyclic : Bool) × (contains_cycle (keys m) edges.outgoing ≡ ok cyclic)
      × (compiled_valid (workflow_of d m edges cyclic) ≡ true)
      × (workflow_of d m edges cyclic ≡ w)
unfolding compile_graph
compile_graph_lem d m edges w h =
    let (_, _, h₁) = >>=-eq-ok (validate_terminal_conditions m d.terminal_conditions) _ h in
    let (_, _, h₂) = >>=-eq-ok (validate_node_constraints edges.incoming m) _ h₁ in
    let (cyclic, e, h₃) = >>=-eq-ok (contains_cycle (keys m) edges.outgoing) _ h₂ in
    let (_, _, h₄) = >>=-eq-ok (raise_if (cyclic && not d.allow_cycles) compile_error) _ h₃ in
    let (_, _, h₅) =
      >>=-eq-ok (raise_if (cyclic && is_empty d.terminal_conditions) compile_error) _ h₄ in
    let (valid, same) = checked_workflow_lem (workflow_of d m edges cyclic) h₅ in
    (cyclic, e, valid, same)

compile_graph-IsCompiled :
    (d : WorkflowDefinition) (m : Dict NodeSpec) (edges : EdgeMaps) (w : CompiledWorkflow)
    → IsGraph m edges.outgoing
    → compile_graph d m edges ≡ ok w
    → IsCompiled w
compile_graph-IsCompiled d m edges w graph h =
    let (cyclic, e, valid, same) = compile_graph_lem d m edges w h in
    subst IsCompiled same (record {
      valid = valid;
      closed = IsGraph-IsClosed m edges.outgoing graph;
      acyclic = λ none. contains_cycle-IsOrder edges.outgoing (keys m) (e ∙ ap ok none);
    })

-- A workflow that compiles passes its own checks, all its edges lead to nodes, and if it is not
-- marked as having cycles, its nodes can be put in a row so that every edge leads further on.
pub compile_definition-IsCompiled :
    (d : WorkflowDefinition) (w : CompiledWorkflow) → compile_definition d ≡ ok w → IsCompiled w
unfolding compile_definition
compile_definition-IsCompiled d w h =
    let m = materialize_node_map d d.node_specs [] in
    let (edges, first, rest) = >>=-eq-ok (collect_edges m d.edge_specs) (compile_graph d m) h in
    compile_graph-IsCompiled d m edges w (collect_edges-IsGraph m d.edge_specs edges first) rest
