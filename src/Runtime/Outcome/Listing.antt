-- ===== src/Runtime/Outcome/Listing.antt =====
-- Where a node stands in the lists of its run after it has run
-- (src/core/runtime/runtime_service.py).
use agent_roles.Common.{
  String, ◌≡◌, refl, Bool, true, false, List, [], ◌∷◌, ◌++◌, ok, fold_result, if◌then◌else◌, elem,
  is_unique, without, elem-without, is_unique-without, elem-snoc, arith, ◌=ₛ◌,
}
use agent_roles.State.Models.{NodeStatus, RunState}
use agent_roles.State.Patch.{set_run_state}
use agent_roles.Runtime.Lists.{elem-dedupe, is_unique-dedupe}
use agent_roles.Runtime.Outcome.{
  relisted, status_lists, has_succeeded, has_failed, is_waiting, is_blocked,
}

-- A list holds a node if its status puts it there, and holds the others as it did before.
abbrev pub Lists : Bool → String → List String → List String → Type 0
Lists back node_id before after =
    (is_unique after ≡ true)
    × ((a : String) → elem a after ≡ (if node_id =ₛ a then back else elem a before))

relisted-Lists :
    (back : Bool) (node_id : String) (xs : List String)
    → Lists back node_id xs (relisted back node_id xs)
unfolding relisted
relisted-Lists true id xs = (
  is_unique-dedupe _,
  λ a. ground (
    arith,
    elem-dedupe a (without id xs ++ id ∷ []),
    elem-snoc a (without id xs) id,
    elem-without a id xs,
  ),
)
relisted-Lists false id xs =
    (is_unique-dedupe _, λ a. ground (arith, elem-dedupe a (without id xs), elem-without a id xs))

without-Lists :
    (node_id : String) (xs : List String)
    → is_unique xs ≡ true
    → Lists false node_id xs (without node_id xs)
without-Lists id xs u = (is_unique-without id xs u, λ a. elem-without a id xs)

-- The five lists of a run, before and after a node has ended with a status.
abbrev pub Ended : NodeStatus → String → RunState → RunState → Type 0
Ended status node_id before after =
    Lists false node_id before.active_nodes after.active_nodes
    × Lists (has_succeeded status) node_id before.completed_nodes after.completed_nodes
    × Lists (has_failed status) node_id before.failed_nodes after.failed_nodes
    × Lists (is_waiting status) node_id before.waiting_nodes after.waiting_nodes
    × Lists (is_blocked status) node_id before.blocked_nodes after.blocked_nodes

-- A node that ends with a status leaves the active nodes and every list of another status, stands
-- in the list of its own, and no other node moves; all five lists are free of repetition, if the
-- active nodes were.
pub status_lists-Ended :
    (status : NodeStatus) (node_id : String) (r : RunState)
    → is_unique r.active_nodes ≡ true
    → (r' : RunState) × (fold_result set_run_state r (status_lists status node_id r) ≡ ok r')
      × Ended status node_id r r'
unfolding set_run_state status_lists
status_lists-Ended status id r u = (
  _,
  refl,
  (
    without-Lists id r.active_nodes u,
    relisted-Lists (has_succeeded status) id r.completed_nodes,
    relisted-Lists (has_failed status) id r.failed_nodes,
    relisted-Lists (is_waiting status) id r.waiting_nodes,
    relisted-Lists (is_blocked status) id r.blocked_nodes,
  ),
)
