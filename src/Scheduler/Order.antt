-- ===== src/Scheduler/Order.antt =====
-- The ready nodes are dispatched in queue order (src/core/runtime/scheduler.py).
use agent_roles.Common.{
  ℕ, suc, ◌+◌, ◌<◌, ◌⊎◌, some, none, is_unique, length, text_lt, if◌then◌else◌, eq_iff, eq_refl,
  ◌≡◌, refl, ap, ◌∙◌, ◌||◌, ◌=ₛ◌, elem, String, Bool, true, false, List, [], ◌∷◌, arith, Bool-cases,
  inl, inr,
}
use mathlib.Core.List.{Perm}
use mathlib.Core.List.Perm
use agent_roles.Common.TextOrder.{text_lt-asymm}
use agent_roles.State.Models.{QueuePolicy, ReducedSnapshot, SchedulerConfig}
use agent_roles.Common.Dict.{Dict, get, put, get-put, get-empty}
use agent_roles.Scheduler.{
  insert_sorted, sorted, frontier_order, place, key_lt, queue_lt, order_ready_nodes,
}

-- No item is smaller than the one before it.
abbrev IsSorted : (String → String → Bool) → List String → Type 0
IsSorted lt [] = Unit
IsSorted lt (x ∷ []) = Unit
IsSorted lt (x ∷ (y ∷ ys)) = (lt y x ≡ false) × IsSorted lt (y ∷ ys)

module _ (lt : String → String → Bool)
    (asymm : (a b : String) → lt a b ≡ true → lt b a ≡ false) where
  -- The head of an insertion is the new item or the old head.
  insert-IsSorted :
      (x : String) (ys : List String) → IsSorted lt ys → IsSorted lt (insert_sorted lt x ys)
  unfolding insert_sorted
  insert-IsSorted x [] h = tt
  insert-IsSorted x (y ∷ []) h = ground (arith, asymm y x)
  insert-IsSorted x (y ∷ (z ∷ ys)) h = ground (arith, asymm y x, insert-IsSorted x (z ∷ ys) h.1)

  sorted-IsSorted : (xs : List String) → IsSorted lt (sorted lt xs)
  unfolding sorted
  sorted-IsSorted [] = tt
  sorted-IsSorted (x ∷ xs) = insert-IsSorted x (sorted lt xs) (sorted-IsSorted xs)

module _ (lt : String → String → Bool) where
  insert-perm : (x : String) (ys : List String) → Perm (insert_sorted lt x ys) (x ∷ ys)
  unfolding insert_sorted
  insert-perm x [] = Perm.refl _
  insert-perm x (y ∷ ys) = elim (Bool-cases (lt y x)) [
    | inl less ↦ rw less (Perm.trans (Perm.cons y (insert-perm x ys)) (Perm.swap x y ys))
    | inr more ↦ rw more (Perm.refl _)
  ]

  sorted-perm : (xs : List String) → Perm (sorted lt xs) xs
  unfolding sorted
  sorted-perm [] = Perm.refl _
  sorted-perm (x ∷ xs) = Perm.trans (insert-perm x (sorted lt xs)) (Perm.cons x (sorted-perm xs))

  elem-insert_sorted :
      (a x : String) (ys : List String) → elem a (insert_sorted lt x ys) ≡ elem a (x ∷ ys)
  unfolding insert_sorted
  elem-insert_sorted a x [] = refl
  elem-insert_sorted a x (y ∷ ys) = ground (arith, elem-insert_sorted a x ys)

  -- Sorting keeps the members.
  pub elem-sorted : (a : String) (xs : List String) → elem a (sorted lt xs) ≡ elem a xs
  unfolding sorted
  elem-sorted a [] = refl
  elem-sorted a (x ∷ xs) =
      elem-insert_sorted a x (sorted lt xs) ∙ ap (λ b. x =ₛ a || b) (elem-sorted a xs)

queue_lt-asymm :
    (q : QueuePolicy) (frontier : List String) (a b : String)
    → queue_lt q frontier a b ≡ true
    → queue_lt q frontier b a ≡ false
queue_lt-asymm QueuePolicy.priority frontier a b h = text_lt-asymm a b h
queue_lt-asymm QueuePolicy.fifo frontier a b h = ground (arith, text_lt-asymm a b)

-- The place of an id on a list: its index, or the length of the list if it is not there.
abbrev pub position : List String → String → ℕ
position [] id = 0
position (x ∷ xs) id = let rest = position xs id in if x =ₛ id then 0 else suc rest

-- The node `a` comes no later than `b` in a queue: by id, or by place on the frontier, with the id
-- to break ties.
abbrev pub Precedes : QueuePolicy → List String → String → String → Type 0
Precedes QueuePolicy.priority frontier a b = text_lt b a ≡ false
Precedes QueuePolicy.fifo frontier a b =
    (position frontier a < position frontier b)
    ⊎ ((position frontier a ≡ position frontier b) × (text_lt b a ≡ false))

-- Each item comes no later than the next.
abbrev pub InOrder : (String → String → Type 0) → List String → Type 0
InOrder P [] = Unit
InOrder P (x ∷ []) = Unit
InOrder P (x ∷ (y ∷ ys)) = P x y × InOrder P (y ∷ ys)

IsSorted-InOrder :
    (lt : String → String → Bool) (P : String → String → Type 0)
    → ((a b : String) → lt b a ≡ false → P a b)
    → (xs : List String) → IsSorted lt xs
    → InOrder P xs
IsSorted-InOrder lt P f [] h = tt
IsSorted-InOrder lt P f (x ∷ []) h = tt
IsSorted-InOrder lt P f (x ∷ (y ∷ ys)) h = (f x y h.0, IsSorted-InOrder lt P f (y ∷ ys) h.1)

get-frontier_order :
    (ids : List String) (i : ℕ) (d : Dict ℕ) (id : String)
    → is_unique ids ≡ true
    → get (frontier_order i ids d) id
      ≡ (if elem id ids then some (i + position ids id) else get d id)
unfolding frontier_order
get-frontier_order [] i d id u = refl
get-frontier_order (x ∷ xs) i d id u =
    ground (arith, get-frontier_order xs (suc i) (put d x i) id, get-put d x i id, eq_iff x id)

length-put_new :
    (d : Dict ℕ) (k : String) (v : ℕ) → get d k ≡ none → length (put d k v) ≡ suc (length d)
unfolding put get
length-put_new [] k v h = refl
length-put_new ((j, w) ∷ d) k v h = ground (arith, length-put_new d k v)

length-frontier_order :
    (ids : List String) (i : ℕ) (d : Dict ℕ)
    → is_unique ids ≡ true
    → ((id : String) → elem id ids ≡ true → get d id ≡ none)
    → length (frontier_order i ids d) ≡ length ids + length d
unfolding frontier_order
length-frontier_order [] i d u n = omega arith
length-frontier_order (x ∷ xs) i d u n =
    let rest =
      length-frontier_order xs (suc i) (put d x i) (ground arith)
        (λ id e. ground (arith, get-put d x i id, n id, eq_iff x id)) in
    omega (arith, rest, length-put_new d x i (n x (ground (arith, eq_refl x))))

position-absent :
    (ids : List String) (id : String) → elem id ids ≡ false → position ids id ≡ length ids
position-absent [] id h = refl
position-absent (x ∷ xs) id h = ground (arith, position-absent xs id)

place-position :
    (ids : List String) (id : String)
    → is_unique ids ≡ true
    → place (frontier_order 0 ids []) id ≡ position ids id
place-position ids id u =
    let g = get-frontier_order ids 0 [] id u in
    let n = length-frontier_order ids 0 [] u (λ i e. get-empty i) in
    ground (arith, g, n, get-empty {V = ℕ} id, position-absent ids id)

queue_lt-Precedes :
    (q : QueuePolicy) (frontier : List String)
    → is_unique frontier ≡ true
    → (a b : String) → queue_lt q frontier b a ≡ false
    → Precedes q frontier a b
queue_lt-Precedes QueuePolicy.priority frontier u a b h = h
queue_lt-Precedes QueuePolicy.fifo frontier u a b h =
    by_place (frontier_order 0 frontier []) (place-position frontier a u)
      (place-position frontier b u) h
  where
    by_place :
        (d : Dict ℕ)
        → place d a ≡ position frontier a
        → place d b ≡ position frontier b
        → key_lt d b a ≡ false
        → Precedes QueuePolicy.fifo frontier a b
    by_place d p q h = ground (arith, p, q)

-- Where no node is on the frontier twice, the queue holds the ready nodes, each as often as before,
-- and in the order of the policy: under priority by id, and under fifo by place on the frontier,
-- after which come the nodes that are not on it, with the id to break ties.
pub order_ready_nodes_lem :
    (c : SchedulerConfig) (s : ReducedSnapshot) (ready : List String)
    → is_unique s.run_state.frontier ≡ true
    → Perm (order_ready_nodes c s ready) ready
      × InOrder (Precedes c.node_queue_policy s.run_state.frontier) (order_ready_nodes c s ready)
unfolding order_ready_nodes
order_ready_nodes_lem c s ready u =
    let q = c.node_queue_policy in
    let f = s.run_state.frontier in
    (
      sorted-perm (queue_lt q f) ready,
      IsSorted-InOrder (queue_lt q f) (Precedes q f) (queue_lt-Precedes q f u)
          (sorted (queue_lt q f) ready) (sorted-IsSorted (queue_lt q f) (queue_lt-asymm q f) ready),
    )
