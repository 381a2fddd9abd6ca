-- ===== src/Workflow/Compiler/Cycles/Order.antt =====
-- A graph in which the search finds no cycle has an order of its nodes along its edges
-- (src/core/workflow/compiler.py).
use agent_roles.Common.{
  ℕ, zero, suc, String, ◌≡◌, refl, sym, ap, ◌∙◌, subst, Bool, true, false, Option, none, some, List,
  [], ◌∷◌, Result, ok, key_error, ◌>>=◌, or_raise, elem, elem-without, without, length, All, arith,
  eq_iff, eq_refl, >>=-eq-ok, Bool-cases, inl, inr,
}
use agent_roles.Common.Dict.{get}
use agent_roles.Workflow.Models.{EdgeSpec}
use agent_roles.Workflow.Compiler.Cycles.{
  Graph, Search, enter, leave, finish, visit_edges, visit, visit_nodes, contains_cycle,
}

-- Every edge out of a node leads into a list.
abbrev pub Leads : Graph → String → List String → Type 0
Leads g id vs =
    (es : List EdgeSpec) → get g id ≡ some es → All (λ e. elem e.to_node_id vs ≡ true) es

-- No node comes twice, and every edge out of a node leads to a node further on.
abbrev pub IsOrder : Graph → List String → Type 0
IsOrder g [] = Unit
IsOrder g (id ∷ vs) = (elem id vs ≡ false) × Leads g id vs × IsOrder g vs

-- The finished nodes are in order, and no node is in progress and finished.
pub record Good (g : Graph) (s : Search) : Type 0 where
  pub order : IsOrder g s.visited
  pub apart : (x : String) → elem x s.visited ≡ true → elem x s.visiting ≡ false

-- What a search that finds no cycle does.
pub record Extends (g : Graph) (s t : Search) : Type 0 where
  pub good : Good g t
  pub same : t.visiting ≡ s.visiting
  pub more : (x : String) → elem x s.visited ≡ true → elem x t.visited ≡ true

without-absent : (x : String) (xs : List String) → elem x xs ≡ false → without x xs ≡ xs
without-absent x [] n = refl
without-absent x (y ∷ ys) n = ground (arith, without-absent x ys)

same_edges : {o : Option (List EdgeSpec)} {a b : List EdgeSpec} → o ≡ some a → o ≡ some b → a ≡ b
same_edges h k = cc

without-absent-cons : (x : String) (xs : List String) → elem x xs ≡ false → without x (x ∷ xs) ≡ xs
without-absent-cons x xs n = ground (arith, without-absent x xs n, eq_refl x)

All-more :
    (P Q : EdgeSpec → Type 0) (es : List EdgeSpec)
    → ((e : EdgeSpec) → P e → Q e)
    → All P es
    → All Q es
All-more P Q [] f h = tt
All-more P Q (e ∷ es) f h = (f e h.0, All-more P Q es f h.1)

module _ (g : Graph) where
  -- What a visit of one node promises, if it ends with no cycle found.
  abbrev pub Visits : (String → Search → Result (Bool × Search)) → Type 0
  Visits v =
      (id : String) (s t : Search)
      → Good g s
      → v id s ≡ ok (false, t)
      → Extends g s t × (elem id t.visited ≡ true)

  -- An edge that is passed leads to a node that is visited with no cycle found.
  passed :
      (v : String → Search → Result (Bool × Search)) (es : List EdgeSpec) (r : Bool × Search)
      (t : Search)
      → (elim r.0 [ true ↦ ok (true, r.1) | false ↦ visit_edges v es r.1 ]) ≡ ok (false, t)
      → (r.0 ≡ false) × (visit_edges v es r.1 ≡ ok (false, t))
  passed v es (true, u) t h = absurd (ground arith)
  passed v es (false, u) t h = (refl, h)

  Extends-refl : (s : Search) → Good g s → Extends g s s
  Extends-refl s k = record { good = k; same = refl; more = λ x e. e }

  visit_edges-Extends :
      (v : String → Search → Result (Bool × Search))
      → Visits v
      → (es : List EdgeSpec) (s t : Search) → Good g s
      → visit_edges v es s ≡ ok (false, t)
      → Extends g s t × All (λ e. elem e.to_node_id t.visited ≡ true) es
  unfolding visit_edges
  visit_edges-Extends v p [] s t k h =
      let same : s ≡ t = ground arith in (subst (Extends g s) same (Extends-refl s k), tt)
  visit_edges-Extends v p (e ∷ es) s t k h =
      let (r, first, rest) = >>=-eq-ok (v e.to_node_id s) _ h in
      let (clear, later) = passed v es r t rest in
      let (x, seen) = p e.to_node_id s r.1 k (first ∙ ap (λ b. ok (b, r.1)) clear) in
      let (y, all) = visit_edges-Extends v p es r.1 t x.good later in
      (
        record { good = y.good; same = y.same ∙ x.same; more = λ n q. y.more n (x.more n q) },
        (y.more e.to_node_id seen, all),
      )

  -- A node that is entered and left with no cycle found.
  visit_new-Extends :
      (v : String → Search → Result (Bool × Search))
      → Visits v
      → (id : String) (es : List EdgeSpec) (s u : Search) → Good g s
      → elem id s.visiting ≡ false
      → elem id s.visited ≡ false
      → get g id ≡ some es
      → visit_edges v es (enter id s) ≡ ok (false, u)
      → Extends g s (leave id u) × (elem id (leave id u).visited ≡ true)
  visit_new-Extends v p id es s u k new fresh found h =
      let inside : Good g (enter id s) = record {
        order = k.order;
        apart = λ x q. ground (arith, k.apart x q, eq_iff id x);
      } in
      let (x, all) = visit_edges-Extends v p es (enter id s) u inside h in
      let back : without id u.visiting ≡ s.visiting =
        ap (without id) x.same ∙ without-absent-cons id s.visiting new in
      (
        record {
          good = record {
            order = (
              ground (arith, x.good.apart id, ap (elem id) x.same, eq_refl id),
              λ es' q.
                  subst (All (λ e. elem e.to_node_id u.visited ≡ true)) (same_edges found q) all,
              x.good.order,
            );
            apart = λ y q. ground (arith, elem-without y id u.visiting, x.good.apart y);
          };
          same = back;
          more = λ y q. ground (arith, x.more y q);
        },
        ground (arith, eq_refl id),
      )

  -- The rest of `visit`, for a node that is not known yet.
  abbrev pub body :
      (String → Search → Result (Bool × Search))
      → String
      → Search
      → Option (List EdgeSpec)
      → Result (Bool × Search)
  body v id s o = or_raise o key_error >>= λ es. visit_edges v es (enter id s) >>= finish id

  pub reduced :
      (fuel : ℕ) (id : String) (s : Search) (m : Result (Bool × Search))
      → elem id s.visiting ≡ false
      → elem id s.visited ≡ false
      → visit (suc fuel) g id s ≡ m
      → body (visit fuel g) id s (get g id) ≡ m
  unfolding visit
  reduced fuel id s m new fresh h =
      let rest = body (visit fuel g) id s (get g id) in
      let known : Bool → Result (Bool × Search) =
        λ b. elim b as (λ x. Result (Bool × Search)) [ true ↦ ok (false, s) | false ↦ rest ] in
      let marked : Bool → Result (Bool × Search) = λ b. elim b as (λ x. Result (Bool × Search)) [
        | true ↦ ok (true, s)
        | false ↦ known (elem id s.visited)
      ] in
      subst (λ b. known b ≡ m) fresh (subst (λ b. marked b ≡ m) new h)

  finished :
      (id : String) (r : Bool × Search) (t : Search)
      → finish id r ≡ ok (false, t)
      → (r ≡ (false, r.1)) × (t ≡ leave id r.1)
  finished id (true, u) t h = absurd (ground arith)
  finished id (false, u) t h = (refl, ground arith)

  entered :
      (v : String → Search → Result (Bool × Search)) (id : String) (s t : Search)
      (o : Option (List EdgeSpec))
      → body v id s o ≡ ok (false, t)
      → (es : List EdgeSpec) × (u : Search) × (o ≡ some es)
        × (visit_edges v es (enter id s) ≡ ok (false, u))
        × (t ≡ leave id u)
  entered v id s t none h = absurd (ground arith)
  entered v id s t (some es) h =
      let (r, first, rest) = >>=-eq-ok (visit_edges v es (enter id s)) (finish id) h in
      let (clear, left) = finished id r t rest in (es, r.1, refl, first ∙ ap ok clear, left)

  pub visit-Extends : (fuel : ℕ) → Visits (visit fuel g)
  unfolding visit
  visit-Extends zero id s t k h = ground arith
  visit-Extends (suc fuel) id s t k h = elim (Bool-cases (elem id s.visiting)) [
    | inl busy ↦ absurd (ground arith)
    | inr new ↦ elim (Bool-cases (elem id s.visited)) [
      | inl done ↦
          let same : s ≡ t = ground arith in
          (
            subst (Extends g s) same (Extends-refl s k),
            subst (λ r. elem id r.visited ≡ true) same done,
          )
      | inr fresh ↦
          let (es, u, found, edges, left) =
            entered (visit fuel g) id s t (get g id)
              (reduced fuel id s (ok (false, t)) new fresh h) in
          let (x, seen) =
            visit_new-Extends (visit fuel g) (visit-Extends fuel) id es s u k new fresh found
              edges in
          (subst (Extends g s) (sym left) x, subst (λ r. elem id r.visited ≡ true) (sym left) seen)
    ]
  ]

  next_node :
      (fuel : ℕ) (ids : List String) (r : Bool × Search)
      → (elim r.0 [ true ↦ ok true | false ↦ visit_nodes fuel g ids r.1 ]) ≡ ok false
      → (r.0 ≡ false) × (visit_nodes fuel g ids r.1 ≡ ok false)
  next_node fuel ids (true, u) h = absurd (ground arith)
  next_node fuel ids (false, u) h = (refl, h)

  visit_nodes-Extends :
      (fuel : ℕ) (ids : List String) (s : Search)
      → Good g s
      → visit_nodes fuel g ids s ≡ ok false
      → (t : Search) × Extends g s t × All (λ id. elem id t.visited ≡ true) ids
  unfolding visit_nodes
  visit_nodes-Extends fuel [] s k h = (s, Extends-refl s k, tt)
  visit_nodes-Extends fuel (id ∷ ids) s k h =
      let (r, first, rest) = >>=-eq-ok (visit fuel g id s) _ h in
      let (clear, later) = next_node fuel ids r rest in
      let (x, seen) = visit-Extends fuel id s r.1 k (first ∙ ap (λ b. ok (b, r.1)) clear) in
      let (t, y, all) = visit_nodes-Extends fuel ids r.1 x.good later in
      (
        t,
        record { good = y.good; same = y.same ∙ x.same; more = λ n q. y.more n (x.more n q) },
        (y.more id seen, all),
      )

  -- A workflow in which the search finds no cycle has none: its nodes can be put in a row, each
  -- once, so that every edge leads to a node further on.
  pub contains_cycle-IsOrder :
      (ids : List String)
      → contains_cycle ids g ≡ ok false
      → (order : List String) × IsOrder g order × All (λ id. elem id order ≡ true) ids
  unfolding contains_cycle
  contains_cycle-IsOrder ids h =
      let (t, x, all) =
        visit_nodes-Extends (suc (length ids)) ids (record { visiting = []; visited = [] })
          (record { order = tt; apart = λ y q. refl }) h in
      (t.visited, x.good.order, all)
