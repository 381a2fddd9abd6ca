-- ===== src/Workflow/Compiler/Cycles/Fuel.antt =====
-- The search for a cycle ends: it never enters a node that it has not left, so one more step than
-- there are nodes is deep enough (src/core/workflow/compiler.py).
use agent_roles.Common.{
  ℕ, zero, suc, ◌+◌, ◌≤◌, ◌<◌, String, ◌≡◌, refl, sym, ap, ◌∙◌, subst, Bool, true, false, some,
  List, [], ◌∷◌, Result, ok, elem, elem-without, without, is_unique, length, All, arith, eq_iff,
  eq_refl, Bool-cases, inl, inr,
}
use agent_roles.Common.Dict.{get}
use agent_roles.Workflow.Models.{EdgeSpec}
use agent_roles.Workflow.Compiler.Cycles.{
  Graph, Search, enter, leave, finish, visit_edges, visit, visit_nodes, contains_cycle,
}

length-without_le : (x : String) (ys : List String) → length (without x ys) ≤ length ys
length-without_le x [] = omega arith
length-without_le x (y ∷ ys) = ground (arith, length-without_le x ys)

length-without :
    (x : String) (ys : List String) → elem x ys ≡ true → length (without x ys) < length ys
length-without x [] e = absurd (ground arith)
length-without x (y ∷ ys) e = ground (arith, length-without x ys, length-without_le x ys)

-- Distinct members of a list are no more than it has.
length-members :
    (xs ys : List String)
    → is_unique xs ≡ true
    → ((x : String) → elem x xs ≡ true → elem x ys ≡ true)
    → length xs ≤ length ys
length-members [] ys u m = omega arith
length-members (x ∷ xs) ys u m =
    let rest =
      length-members xs (without x ys) (ground arith)
        (λ z e. ground (arith, m z, elem-without z x ys, eq_iff x z)) in
    let less = length-without x ys (m x (ground (arith, eq_refl x))) in omega arith

-- The nodes in progress are distinct nodes of the graph.
record Inside (ids : List String) (s : Search) : Type 0 where
  unique : is_unique s.visiting ≡ true
  members : (x : String) → elem x s.visiting ≡ true → elem x ids ≡ true

-- Every node has its edges on file, and they lead to nodes.
abbrev pub IsClosed : Graph → List String → Type 0
IsClosed g ids =
    (id : String)
    → elem id ids ≡ true
    → (es : List EdgeSpec) × (get g id ≡ some es) × All (λ e. elem e.to_node_id ids ≡ true) es

without-absent : (x : String) (xs : List String) → elem x xs ≡ false → without x xs ≡ xs
without-absent x [] n = refl
without-absent x (y ∷ ys) n = ground (arith, without-absent x ys)

without-head : (x : String) (xs : List String) → elem x xs ≡ false → without x (x ∷ xs) ≡ xs
without-head x xs n = ground (arith, without-absent x xs n, eq_refl x)

-- A visit gives a result, and where it finds no cycle, the nodes in progress are what they were.
abbrev Ends : Search → Result (Bool × Search) → Type 0
Ends s m = (r : Bool × Search) × (m ≡ ok r) × (r.0 ≡ false → r.1.visiting ≡ s.visiting)

module _ (g : Graph) (ids : List String) where
  abbrev Visits : ℕ → (String → Search → Result (Bool × Search)) → Type 0
  Visits fuel v =
      (id : String) (s : Search)
      → elem id ids ≡ true
      → Inside ids s
      → length ids < fuel + length s.visiting
      → Ends s (v id s)

  -- The nodes in progress alone decide what a search still needs.
  Inside-same : (s t : Search) → t.visiting ≡ s.visiting → Inside ids s → Inside ids t
  Inside-same s t e h = record {
    unique = rw e h.unique;
    members = λ x q. h.members x (subst (λ l. elem x l ≡ true) e q);
  }

  -- A visit that ended, and the edges after it.
  next_edge :
      (v : String → Search → Result (Bool × Search)) (e : EdgeSpec) (es : List EdgeSpec)
      (s : Search) (r : Bool × Search)
      → v e.to_node_id s ≡ ok r
      → (r.0 ≡ false → r.1.visiting ≡ s.visiting)
      → ((u : Search) → u.visiting ≡ s.visiting → Ends u (visit_edges v es u))
      → Ends s (visit_edges v (e ∷ es) s)
  unfolding visit_edges
  next_edge v e es s (true, u) first same rest =
      ((true, u), rw first refl, λ h. absurd (ground arith))
  next_edge v e es s (false, u) first same rest =
      let (r, later, kept) = rest u (same refl) in (r, rw first later, λ h. kept h ∙ same refl)

  visit_edges-Ends :
      (fuel : ℕ) (v : String → Search → Result (Bool × Search))
      → Visits fuel v
      → (es : List EdgeSpec) (s : Search) → All (λ e. elem e.to_node_id ids ≡ true) es
      → Inside ids s
      → length ids < fuel + length s.visiting
      → Ends s (visit_edges v es s)
  unfolding visit_edges
  visit_edges-Ends fuel v p [] s a i l = ((false, s), refl, λ _. refl)
  visit_edges-Ends fuel v p (e ∷ es) s a i l =
      let (r, first, same) = p e.to_node_id s a.0 i l in
      next_edge v e es s r first same (λ u k.
        visit_edges-Ends fuel v p es u a.1 (Inside-same s u k i)
          (subst (λ l. length ids < fuel + length l) (sym k) l))

  -- `visit` of a node that is not known yet.
  visit_new :
      (fuel : ℕ) (id : String) (s : Search) (es : List EdgeSpec) (r : Bool × Search)
      → elem id s.visiting ≡ false
      → elem id s.visited ≡ false
      → get g id ≡ some es
      → visit_edges (visit fuel g) es (enter id s) ≡ ok r
      → visit (suc fuel) g id s ≡ finish id r
  unfolding visit
  visit_new fuel id s es r new fresh found edges = ground arith

  leave_new :
      (id : String) (s : Search) (r : Bool × Search)
      → elem id s.visiting ≡ false
      → (r.0 ≡ false → r.1.visiting ≡ (enter id s).visiting)
      → Ends s (finish id r)
  leave_new id s (true, u) new same = ((true, u), refl, λ h. absurd (ground arith))
  leave_new id s (false, u) new same =
      ((false, leave id u), refl, λ _. ap (without id) (same refl) ∙ without-head id s.visiting new)

  visit-Ends : IsClosed g ids → (fuel : ℕ) → Visits fuel (visit fuel g)
  unfolding visit
  visit-Ends c zero id s a i l =
      absurd (omega (arith, l, length-members s.visiting ids i.unique i.members))
  visit-Ends c (suc fuel) id s a i l = elim (Bool-cases (elem id s.visiting)) [
    | inl busy ↦ ((true, s), ground arith, λ h. absurd (ground arith))
    | inr new ↦ elim (Bool-cases (elem id s.visited)) [
      | inl done ↦ ((false, s), ground arith, λ _. refl)
      | inr fresh ↦
          let (es, found, targets) = c id a in
          let (r, edges, kept) =
            visit_edges-Ends fuel (visit fuel g) (visit-Ends c fuel) es (enter id s) targets
              (record {
                unique = ground (arith, i.unique);
                members = λ x q. ground (arith, i.members x, eq_iff id x);
              })
              (omega (arith, l)) in
          subst (Ends s) (sym (visit_new fuel id s es r new fresh found edges))
            (leave_new id s r new kept)
    ]
  ]

  next_node :
      (fuel : ℕ) (id : String) (nodes : List String) (s : Search) (r : Bool × Search)
      → visit fuel g id s ≡ ok r
      → (r.0 ≡ false → r.1.visiting ≡ s.visiting)
      → ((u : Search) → u.visiting ≡ s.visiting → (b : Bool) × (visit_nodes fuel g nodes u ≡ ok b))
      → (b : Bool) × (visit_nodes fuel g (id ∷ nodes) s ≡ ok b)
  unfolding visit_nodes
  next_node fuel id nodes s (true, u) first same rest = (true, rw first refl)
  next_node fuel id nodes s (false, u) first same rest =
      let (b, later) = rest u (same refl) in (b, rw first later)

  visit_nodes-total :
      IsClosed g ids
      → (fuel : ℕ) (nodes : List String) (s : Search)
      → ((id : String) → elem id nodes ≡ true → elem id ids ≡ true)
      → Inside ids s
      → length ids < fuel + length s.visiting
      → (b : Bool) × (visit_nodes fuel g nodes s ≡ ok b)
  unfolding visit_nodes
  visit_nodes-total c fuel [] s m i l = (false, refl)
  visit_nodes-total c fuel (id ∷ nodes) s m i l =
      let (r, first, same) = visit-Ends c fuel id s (m id (ground (arith, eq_refl id))) i l in
      next_node fuel id nodes s r first same (λ u k.
        visit_nodes-total c fuel nodes u (λ x q. m x (ground arith)) (Inside-same s u k i)
          (subst (λ l. length ids < fuel + length l) (sym k) l))

-- The search ends, with fuel to spare: if every node has its edges on file and they lead to nodes,
-- it says whether there is a cycle.
pub contains_cycle-total :
    (g : Graph) (ids : List String) → IsClosed g ids → (b : Bool) × (contains_cycle ids g ≡ ok b)
unfolding contains_cycle
contains_cycle-total g ids c =
    visit_nodes-total g ids c (suc (length ids)) ids (record { visiting = []; visited = [] })
      (λ id q. q) (record { unique = refl; members = λ x q. absurd (ground arith) }) (omega arith)
