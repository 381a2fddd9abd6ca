-- ===== src/Runtime/Service/Resolution.antt =====
-- What a resumed run does with its pending interrupts and the nodes that they held back
-- (src/core/runtime/runtime_service.py).
use agent_roles.Common.{
  ℕ, String, ◌≡◌, refl, ap, Bool, false, not, ◌&&◌, ◌||◌, Option, none, some, List, [], ◌∷◌, elem,
  elem-without, any_of, arith, ◌=ₛ◌, if◌then◌else◌,
}
use agent_roles.Common.Dict.{get, put, get-put}
use agent_roles.Value.{Fields}
use agent_roles.State.Models.{NodeStatus, InterruptStatus, InterruptRecord, ReducedSnapshot}
use agent_roles.State.Patch.{NodeStateUpdate, InterruptRecordUpdate}
use agent_roles.Runtime.Lists.{elem-merge_unique}
use agent_roles.Runtime.Service.Resume.{
  Resumption, resumption_of, release_node, resolve_interrupt, resolve_all, held_node, ready_again,
  resolution,
}

-- Whether an optional name is that of a node.
abbrev is_node : Option String → String → Bool
is_node none n = false
is_node (some m) n = m =ₛ n

-- Whether the interrupt of an id is on file and names the node.
unfoldable pub holds : ReducedSnapshot → String → String → Bool
holds s node_id id = elim (get s.interrupts id) [
  | none ↦ false
  | some i ↦ is_node i.node_id node_id
]

-- A resumption after the interrupts `ids` are resolved with a payload, beside what it was before:
-- what is written of every interrupt and of every node, and where each node stands.
abbrev pub Resolves : ReducedSnapshot → ℕ → Fields → List String → Resumption → Resumption → Type 0
Resolves s t payload ids before after =
    ((id : String)
      → get after.interrupt_updates id ≡ (
          if elem id ids
          then some (
              InterruptRecordUpdate.status InterruptStatus.resolved
              ∷ (InterruptRecordUpdate.resolved_at (some t)
                  ∷ (InterruptRecordUpdate.resolution_payload (some payload) ∷ [])))
          else get before.interrupt_updates id))
    × ((n : String)
        → get after.node_updates n ≡ (
            if any_of (holds s n) ids
            then some (
                NodeStateUpdate.status NodeStatus.ready
                ∷ (NodeStateUpdate.error_code none ∷ (NodeStateUpdate.error_message none ∷ [])))
            else get before.node_updates n))
    × ((n : String) → elem n after.frontier ≡ (elem n before.frontier || any_of (holds s n) ids))
    × ((n : String)
        → elem n after.waiting ≡ (elem n before.waiting && not (any_of (holds s n) ids)))
    × ((n : String)
        → elem n after.blocked ≡ (elem n before.blocked && not (any_of (holds s n) ids)))

-- An interrupt holds the node that is found for it.
holds-held : (s : ReducedSnapshot) (n id : String) → holds s n id ≡ is_node (held_node s id) n
unfolding holds
holds-held s n id = found (get s.interrupts id)
  where
    found :
        (o : Option InterruptRecord)
        → elim o as (λ _. Bool) [ none ↦ false | some i ↦ is_node i.node_id n ]
          ≡ is_node (elim o as (λ _. Option String) [ none ↦ none | some i ↦ i.node_id ]) n
    found none = refl
    found (some i) = refl

release_node-frontier :
    (o : Option String) (r : Resumption) (n : String)
    → elem n (release_node o r).frontier ≡ (elem n r.frontier || is_node o n)
unfolding release_node
release_node-frontier none r n = ground arith
release_node-frontier (some m) r n = ground (arith, elem-merge_unique n r.frontier (m ∷ []))

release_node-waiting :
    (o : Option String) (r : Resumption) (n : String)
    → elem n (release_node o r).waiting ≡ (elem n r.waiting && not (is_node o n))
unfolding release_node
release_node-waiting none r n = ground arith
release_node-waiting (some m) r n = ground (arith, elem-without n m r.waiting)

release_node-blocked :
    (o : Option String) (r : Resumption) (n : String)
    → elem n (release_node o r).blocked ≡ (elem n r.blocked && not (is_node o n))
unfolding release_node
release_node-blocked none r n = ground arith
release_node-blocked (some m) r n = ground (arith, elem-without n m r.blocked)

release_node-node_updates :
    (o : Option String) (r : Resumption) (n : String)
    → get (release_node o r).node_updates n
      ≡ (if is_node o n then some ready_again else get r.node_updates n)
unfolding release_node
release_node-node_updates none r n = ground arith
release_node-node_updates (some m) r n = ground (arith, get-put r.node_updates m ready_again n)

release_node-interrupt_updates :
    (o : Option String) (r : Resumption)
    → (release_node o r).interrupt_updates ≡ r.interrupt_updates
unfolding release_node
release_node-interrupt_updates none r = refl
release_node-interrupt_updates (some m) r = refl

resolve_interrupt-Resolves :
    (s : ReducedSnapshot) (t : ℕ) (payload : Fields) (id : String) (r : Resumption)
    → Resolves s t payload (id ∷ []) r (resolve_interrupt s t payload id r)
unfolding resolve_interrupt
resolve_interrupt-Resolves s t payload id r =
    let o = held_node s id in
    let r' : Resumption = record r {
      interrupt_updates = put r.interrupt_updates id (resolution t payload);
    } in
    (
      λ x. ground (
        arith,
        ap (λ d. get d x) (release_node-interrupt_updates o r'),
        get-put r.interrupt_updates id (resolution t payload) x,
      ),
      λ n. ground (arith, release_node-node_updates o r' n, holds-held s n id),
      λ n. ground (arith, release_node-frontier o r' n, holds-held s n id),
      λ n. ground (arith, release_node-waiting o r' n, holds-held s n id),
      λ n. ground (arith, release_node-blocked o r' n, holds-held s n id),
    )

resolve_all-from :
    (s : ReducedSnapshot) (t : ℕ) (payload : Fields) (ids : List String) (r : Resumption)
    → Resolves s t payload ids r (resolve_all s t payload ids r)
unfolding resolve_all
resolve_all-from s t payload [] r =
    (λ id. ground arith, λ n. ground arith, λ n. ground arith, λ n. ground arith, λ n. ground arith)
resolve_all-from s t payload (id ∷ ids) r =
    let first = resolve_interrupt-Resolves s t payload id r in
    let rest = resolve_all-from s t payload ids (resolve_interrupt s t payload id r) in
    (
      λ x. ground (arith, first.0 x, rest.0 x),
      λ n. ground (arith, first.1 n, rest.1 n),
      λ n. ground (arith, first.2 n, rest.2 n),
      λ n. ground (arith, first.3 n, rest.3 n),
      λ n. ground (arith, first.4 n, rest.4 n),
    )

-- A payload resolves every pending interrupt, and no other: it is written as resolved, at the time
-- and with the payload. Each node that one of them names is written as ready with no error, put on
-- the frontier, and taken off the waiting and the blocked nodes; no other node is written, and the
-- others stand where they stood.
pub resolve_all-Resolves :
    (s : ReducedSnapshot) (t : ℕ) (payload : Fields)
    → Resolves s t payload s.run_state.pending_interrupt_ids
        (resumption_of s.run_state)
        (resolve_all s t payload s.run_state.pending_interrupt_ids (resumption_of s.run_state))
resolve_all-Resolves s t payload =
    resolve_all-from s t payload s.run_state.pending_interrupt_ids (resumption_of s.run_state)
