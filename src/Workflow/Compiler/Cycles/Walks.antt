-- ===== src/Workflow/Compiler/Cycles/Walks.antt =====
-- Where the search finds a cycle, there is one (src/core/workflow/compiler.py).
use agent_roles.Common.{
  ℕ, zero, suc, String, ◌≡◌, refl, sym, ap, ◌∙◌, subst, Bool, true, false, Option, none, some, List,
  [], ◌∷◌, Result, ok, elem, Occurs, length, ◌⊎◌, ◌=ₛ◌, arith, eq_iff, >>=-eq-ok, Bool-cases, inl,
  inr,
}
use agent_roles.Common.Dict.{get}
use agent_roles.Workflow.Models.{EdgeSpec}
use agent_roles.Workflow.Compiler.Cycles.{
  Graph, Search, enter, finish, visit_edges, visit, visit_nodes, contains_cycle,
}
use agent_roles.Workflow.Compiler.Cycles.Order.{Good, Visits, body, reduced, visit-Extends}

-- An edge of the graph from one node to another.
abbrev pub Edge : Graph → String → String → Type 0
Edge g a b =
    (es : List EdgeSpec) × (e : EdgeSpec) × (get g a ≡ some es) × Occurs e es × (e.to_node_id ≡ b)

-- A walk along one edge or more.
pub data Walk (g : Graph) : String → String → Type 0 where
  along : {a b : String} → Edge g a b → Walk g a b
  further : {a b c : String} → Walk g a b → Edge g b c → Walk g a c

-- A node on a walk back to itself.
abbrev pub HasCycle : Graph → Type 0
HasCycle g = (id : String) × Walk g id id

module _ (g : Graph) where
  -- Each item has an edge to the one before it.
  abbrev Chain : List String → Type 0
  Chain [] = Unit
  Chain (x ∷ []) = Unit
  Chain (x ∷ (y ∷ ys)) = Edge g y x × Chain (y ∷ ys)

  Chain-Walk : (id x : String) (ys : List String) → Chain (x ∷ ys) → elem id ys ≡ true → Walk g id x
  Chain-Walk id x [] c h = absurd (ground arith)
  Chain-Walk id x (y ∷ ys) c h = elim (Bool-cases (y =ₛ id)) [
    | inl same ↦ subst (λ z. Walk g z x) ((eq_iff y id).0 same) (along c.0)
    | inr other ↦ further (Chain-Walk id y ys c.1 (ground arith)) c.0
  ]

  -- What a visit that finds a cycle promises.
  abbrev Finds : (String → Search → Result (Bool × Search)) → Type 0
  Finds v =
      (id : String) (s t : Search)
      → Good g s
      → Chain (id ∷ s.visiting)
      → v id s ≡ ok (true, t)
      → HasCycle g

  found_later :
      (v : String → Search → Result (Bool × Search)) (es : List EdgeSpec) (r : Bool × Search)
      (t : Search)
      → (elim r.0 [ true ↦ ok (true, r.1) | false ↦ visit_edges v es r.1 ]) ≡ ok (true, t)
      → (r ≡ (true, r.1)) ⊎ ((r ≡ (false, r.1)) × (visit_edges v es r.1 ≡ ok (true, t)))
  found_later v es (true, u) t h = inl refl
  found_later v es (false, u) t h = inr (refl, h)

  visit_edges-Finds :
      (v : String → Search → Result (Bool × Search))
      → Visits g v
      → Finds v
      → (id : String) (ids : List String) (es : List EdgeSpec) (s t : Search) → Good g s
      → s.visiting ≡ id ∷ ids
      → Chain (id ∷ ids)
      → ((e : EdgeSpec) → Occurs e es → Edge g id e.to_node_id)
      → visit_edges v es s ≡ ok (true, t)
      → HasCycle g
  unfolding visit_edges
  visit_edges-Finds v p f id ids [] s t k q c o h = absurd (ground arith)
  visit_edges-Finds v p f id ids (e ∷ es) s t k q c o h =
      let (r, first, rest) = >>=-eq-ok (v e.to_node_id s) _ h in
      elim (found_later v es r t rest) [
        | inl now ↦
            f e.to_node_id s r.1 k
              (subst (λ l. Chain (e.to_node_id ∷ l)) (sym q) (o e (inl refl), c))
              (first ∙ ap ok now)
        | inr (clear, later) ↦
            let (x, _) = p e.to_node_id s r.1 k (first ∙ ap ok clear) in
            visit_edges-Finds v p f id ids es r.1 t x.good (x.same ∙ q) c
              (λ y there. o y (inr there)) later
      ]

  finished_true :
      (id : String) (r : Bool × Search) (t : Search) → finish id r ≡ ok (true, t) → r ≡ (true, r.1)
  finished_true id (true, u) t h = refl
  finished_true id (false, u) t h = absurd (ground arith)

  body-edges :
      (v : String → Search → Result (Bool × Search)) (id : String) (s t : Search)
      (o : Option (List EdgeSpec))
      → body g v id s o ≡ ok (true, t)
      → (es : List EdgeSpec) × (u : Search) × (o ≡ some es)
        × (visit_edges v es (enter id s) ≡ ok (true, u))
  body-edges v id s t none h = absurd (ground arith)
  body-edges v id s t (some es) h =
      let (r, first, rest) = >>=-eq-ok (visit_edges v es (enter id s)) (finish id) h in
      (es, r.1, refl, first ∙ ap ok (finished_true id r t rest))

  visit-Finds : (fuel : ℕ) → Finds (visit fuel g)
  unfolding visit
  visit-Finds zero id s t k c h = absurd (ground arith)
  visit-Finds (suc fuel) id s t k c h = elim (Bool-cases (elem id s.visiting)) [
    | inl busy ↦ (id, Chain-Walk id id s.visiting c busy)
    | inr new ↦ elim (Bool-cases (elem id s.visited)) [
      | inl done ↦ absurd (ground arith)
      | inr fresh ↦
          let (es, u, found, edges) =
            body-edges (visit fuel g) id s t (get g id)
              (reduced g fuel id s (ok (true, t)) new fresh h) in
          visit_edges-Finds (visit fuel g) (visit-Extends g fuel) (visit-Finds fuel) id s.visiting
            es (enter id s) u
            (record { order = k.order; apart = λ x q. ground (arith, k.apart x q, eq_iff id x) })
            refl c (λ e there. (es, e, found, there, refl)) edges
    ]
  ]

  found_node :
      (fuel : ℕ) (ids : List String) (r : Bool × Search)
      → (elim r.0 [ true ↦ ok true | false ↦ visit_nodes fuel g ids r.1 ]) ≡ ok true
      → (r ≡ (true, r.1)) ⊎ ((r ≡ (false, r.1)) × (visit_nodes fuel g ids r.1 ≡ ok true))
  found_node fuel ids (true, u) h = inl refl
  found_node fuel ids (false, u) h = inr (refl, h)

  visit_nodes-Finds :
      (fuel : ℕ) (ids : List String) (s : Search)
      → Good g s
      → s.visiting ≡ []
      → visit_nodes fuel g ids s ≡ ok true
      → HasCycle g
  unfolding visit_nodes
  visit_nodes-Finds fuel [] s k q h = absurd (ground arith)
  visit_nodes-Finds fuel (id ∷ ids) s k q h =
      let (r, first, rest) = >>=-eq-ok (visit fuel g id s) _ h in
      elim (found_node fuel ids r rest) [
        | inl now ↦
            visit-Finds fuel id s r.1 k (subst (λ l. Chain (id ∷ l)) (sym q) tt) (first ∙ ap ok now)
        | inr (clear, later) ↦
            let (x, _) = visit-Extends g fuel id s r.1 k (first ∙ ap ok clear) in
            visit_nodes-Finds fuel ids r.1 x.good (x.same ∙ q) later
      ]

  -- A search that finds a cycle is right: some node has a walk along edges back to itself.
  pub contains_cycle-HasCycle : (ids : List String) → contains_cycle ids g ≡ ok true → HasCycle g
  unfolding contains_cycle
  contains_cycle-HasCycle ids h =
      visit_nodes-Finds (suc (length ids)) ids (record { visiting = []; visited = [] })
        (record { order = tt; apart = λ y q. refl }) refl h
