-- ===== src/Workflow/Compiler/Cycles.antt =====
-- `WorkflowCompiler._contains_cycle` (src/core/workflow/compiler.py): a depth-first search.
pub mod Order
pub mod Walks
pub mod Fuel
use agent_roles.Common.{
  ℕ, zero, suc, String, ◌≡◌, refl, Bool, true, false, not, ◌&&◌, ◌||◌, Option, none, some, List, [],
  ◌∷◌, ◌++◌, Result, ok, err, Error, key_error, ◌>>=◌, or_raise, elem, without, length,
}
use agent_roles.Common.Dict.{Dict, get}
use agent_roles.Workflow.Models.{EdgeSpec}

-- The sets `visiting` and `visited`.
pub record Search : Type 0 where
  pub visiting : List String
  pub visited : List String

abbrev pub Graph : Type 0
Graph = Dict (List EdgeSpec)

abbrev pub enter : String → Search → Search
enter id s = record s { visiting = id ∷ s.visiting }

abbrev pub leave : String → Search → Search
leave id s = record s { visiting = without id s.visiting; visited = id ∷ s.visited }

-- `for edge in edges: if visit(edge.to_node_id): return True`
unfoldable pub visit_edges :
    (String → Search → Result (Bool × Search)) → List EdgeSpec → Search → Result (Bool × Search)
visit_edges visit [] s = ok (false, s)
visit_edges visit (e ∷ es) s = visit e.to_node_id s >>= λ r. elim r.0 [
  | true ↦ ok (true, r.1)
  | false ↦ visit_edges visit es r.1
]

abbrev pub finish : String → Bool × Search → Result (Bool × Search)
finish id (true, s) = ok (true, s)
finish id (false, s) = ok (false, leave id s)

-- `visit`, as deep as the fuel allows; a chain of calls enters each node at most once, so that one
-- more than the number of nodes is enough.
unfoldable pub visit : ℕ → Graph → String → Search → Result (Bool × Search)
visit zero g id s = err Error.fuel_spent
visit (suc fuel) g id s = elim (elem id s.visiting) [
  | true ↦ ok (true, s)
  | false ↦ elim (elem id s.visited) [
    | true ↦ ok (false, s)
    | false ↦ or_raise (get g id) key_error >>= λ es.
        visit_edges (visit fuel g) es (enter id s) >>= finish id
  ]
]

-- `any(visit(node_id) for node_id in node_map)`
unfoldable pub visit_nodes : ℕ → Graph → List String → Search → Result Bool
visit_nodes fuel g [] s = ok false
visit_nodes fuel g (id ∷ ids) s =
    visit fuel g id s >>= λ r. elim r.0 [ true ↦ ok true | false ↦ visit_nodes fuel g ids r.1 ]

unfoldable pub contains_cycle : List String → Graph → Result Bool
contains_cycle ids g = visit_nodes (suc (length ids)) g ids (record { visiting = []; visited = [] })
