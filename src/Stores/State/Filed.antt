-- ===== src/Stores/State/Filed.antt =====
-- Every dict of the state store, filed by the identifiers of its records
-- (src/core/stores/memory_state_store.py).
use agent_roles.Common.{
  String, ◌≡◌, refl, false, ◌&&◌, none, List, [], ◌∷◌, ◌=ₛ◌, arith, eq_iff, Bool-cases, inl, inr,
}
use agent_roles.Common.Dict.{values}
use agent_roles.State.Models.{NodeState, ReducedSnapshot}
use agent_roles.Stores.State.{
  NodeDict, StateStore, get_node, put_node, save_node_state, save_nodes, persist_snapshot,
}
use agent_roles.Stores.State.Laws.{IsKeyed, put-IsKeyed}
use agent_roles.Stores.State.RoundTrip.{IsStore, persist_snapshot-IsStore}

-- Every key is the run and the node of its state, and no key comes twice.
abbrev pub NodesFiled : NodeDict → Type 0
NodesFiled [] = Unit
NodesFiled ((r, n, s) ∷ d) =
    (s.run_id ≡ r) × (s.node_id ≡ n) × (get_node d r n ≡ none) × NodesFiled d

-- Each of the nine dicts is filed by the identifiers of its records, and no key comes twice.
pub record IsFiledStore (st : StateStore) : Type 0 where
  pub threads : IsKeyed (λ r. r.thread_id) st.thread_records
  pub runs : IsKeyed (λ r. r.run_id) st.run_records
  pub thread_states : IsKeyed (λ s. s.thread_id) st.thread_states
  pub run_states : IsKeyed (λ s. s.run_id) st.run_states
  pub nodes : NodesFiled st.node_states
  pub others : IsStore st

get_node-put_none :
    (d : NodeDict) (r n r' n' : String) (s : NodeState)
    → ((r =ₛ r') && (n =ₛ n')) ≡ false
    → get_node d r' n' ≡ none
    → get_node (put_node d r n s) r' n' ≡ none
unfolding get_node put_node
get_node-put_none [] r n r' n' s e h = ground arith
get_node-put_none ((q, m, t) ∷ d) r n r' n' s e h =
    ground
      (arith, get_node-put_none d r n r' n' s e, eq_iff q r, eq_iff m n, eq_iff q r', eq_iff m n')

put_node-NodesFiled :
    (s : NodeState) (d : NodeDict) → NodesFiled d → NodesFiled (put_node d s.run_id s.node_id s)
unfolding put_node get_node
put_node-NodesFiled s [] f = (refl, refl, refl, tt)
put_node-NodesFiled s ((r, n, t) ∷ d) (a, b, c, f) =
    elim (Bool-cases ((r =ₛ s.run_id) && (n =ₛ s.node_id))) [
      | inl same ↦
          rw same (ground (arith, eq_iff r s.run_id), ground (arith, eq_iff n s.node_id), c, f)
      | inr other ↦ rw other (
        a,
        b,
        get_node-put_none d s.run_id s.node_id r n s
            (ground
              (arith, eq_iff r s.run_id, eq_iff s.run_id r, eq_iff n s.node_id, eq_iff s.node_id n))
            c,
        put_node-NodesFiled s d f,
      )
    ]

save_nodes-NodesFiled :
    (ns : List NodeState) (d : NodeDict) → NodesFiled d → NodesFiled (save_nodes ns d)
unfolding save_nodes save_node_state
save_nodes-NodesFiled [] d f = f
save_nodes-NodesFiled (n ∷ ns) d f =
    save_nodes-NodesFiled ns (save_node_state n d) (put_node-NodesFiled n d f)

-- Saving a snapshot keeps each of the nine dicts of the store filed by the identifiers of its
-- records, the node states by run and node, with no key twice.
pub persist_snapshot-IsFiledStore :
    (s : ReducedSnapshot) (st : StateStore) → IsFiledStore st → IsFiledStore (persist_snapshot s st)
unfolding persist_snapshot
persist_snapshot-IsFiledStore s st h = record {
  threads = put-IsKeyed (λ r. r.thread_id) st.thread_records s.thread_record h.threads;
  runs = put-IsKeyed (λ r. r.run_id) st.run_records s.run_record h.runs;
  thread_states = put-IsKeyed (λ x. x.thread_id) st.thread_states s.thread_state h.thread_states;
  run_states = put-IsKeyed (λ x. x.run_id) st.run_states s.run_state h.run_states;
  nodes = save_nodes-NodesFiled (values s.node_states) st.node_states h.nodes;
  others = persist_snapshot-IsStore s st h.others;
}
