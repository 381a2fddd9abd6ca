-- ===== src/Stores/State/RoundTrip.antt =====
-- A snapshot that is saved and built again (src/core/stores/memory_state_store.py,
-- src/core/runtime/runtime_service.py).
use agent_roles.Common.{String, ◌≡◌, refl, sym, ap, ◌∙◌, some, [], ok}
use agent_roles.Common.Dict.{Dict, get, values, get-put_self}
use agent_roles.State.Models.{ReducedSnapshot}
use agent_roles.Stores.State.{
  StateStore, get_node, save_all, persist_snapshot, collect, build_snapshot,
}
use agent_roles.Stores.State.Laws.{
  or_else, if_of_run, IsKeyed, OfRun, save_all-IsKeyed, get-save_all, get-collect, get-nodes_of_run,
  get_node-save_nodes,
}

-- The four dicts of a store that hold records of every run are keyed by identifier.
pub record IsStore (st : StateStore) : Type 0 where
  pub artifacts : IsKeyed (λ a. a.artifact_id) st.artifacts
  pub interrupts : IsKeyed (λ i. i.interrupt_id) st.interrupts
  pub policy_decisions : IsKeyed (λ d. d.decision_id) st.policy_decisions
  pub side_effects : IsKeyed (λ e. e.side_effect_id) st.side_effects

-- A snapshot whose records name each other and whose dicts are keyed by identifier.
pub record IsCoherent (s : ReducedSnapshot) : Type 0 where
  pub run_thread : s.run_record.thread_id ≡ s.thread_record.thread_id
  pub state_thread : s.thread_state.thread_id ≡ s.thread_record.thread_id
  pub state_run : s.run_state.run_id ≡ s.run_record.run_id
  pub nodes : IsKeyed (λ n. n.node_id) s.node_states
  pub nodes_run : OfRun s.run_record.run_id s.node_states
  pub artifacts : IsKeyed (λ a. a.artifact_id) s.artifacts
  pub interrupts : IsKeyed (λ i. i.interrupt_id) s.interrupts
  pub policy_decisions : IsKeyed (λ d. d.decision_id) s.policy_decisions
  pub side_effects : IsKeyed (λ e. e.side_effect_id) s.side_effects

-- What a snapshot built from `st` with `s` on top holds: the four records of `s`; and each node,
-- artifact, interrupt, decision and side effect as `s` has it, or else as `st` has it for that run.
pub record Restores (s : ReducedSnapshot) (st : StateStore) (t : ReducedSnapshot) : Type 0 where
  pub thread_record : t.thread_record ≡ s.thread_record
  pub run_record : t.run_record ≡ s.run_record
  pub thread_state : t.thread_state ≡ s.thread_state
  pub run_state : t.run_state ≡ s.run_state
  pub node_states :
      (k : String)
      → get t.node_states k
        ≡ or_else (get s.node_states k) (get_node st.node_states s.run_record.run_id k)
  pub artifacts :
      (k : String)
      → get t.artifacts k
        ≡ if_of_run
            (λ a. a.run_id)
            s.run_record.run_id
            (or_else (get s.artifacts k) (get st.artifacts k))
  pub interrupts :
      (k : String)
      → get t.interrupts k
        ≡ if_of_run
            (λ i. i.run_id)
            s.run_record.run_id
            (or_else (get s.interrupts k) (get st.interrupts k))
  pub policy_decisions :
      (k : String)
      → get t.policy_decisions k
        ≡ if_of_run
            (λ d. d.run_id)
            s.run_record.run_id
            (or_else (get s.policy_decisions k) (get st.policy_decisions k))
  pub side_effects :
      (k : String)
      → get t.side_effects k
        ≡ if_of_run
            (λ e. e.run_id)
            s.run_record.run_id
            (or_else (get s.side_effects k) (get st.side_effects k))

-- Saving a snapshot keeps those four dicts keyed by identifier.
pub persist_snapshot-IsStore :
    (s : ReducedSnapshot) (st : StateStore) → IsStore st → IsStore (persist_snapshot s st)
unfolding persist_snapshot
persist_snapshot-IsStore s st h = record {
  artifacts = save_all-IsKeyed (λ a. a.artifact_id) (values s.artifacts) st.artifacts h.artifacts;
  interrupts =
      save_all-IsKeyed (λ i. i.interrupt_id) (values s.interrupts) st.interrupts h.interrupts;
  policy_decisions =
      save_all-IsKeyed (λ d. d.decision_id) (values s.policy_decisions) st.policy_decisions
        h.policy_decisions;
  side_effects =
      save_all-IsKeyed (λ e. e.side_effect_id) (values s.side_effects) st.side_effects
        h.side_effects;
}

-- A dict that is saved over another, and collected again.
module _ {V : Type 0} (id run : V → String) (r : String) where
  get-collect_saved :
      (d old : Dict V) (k : String)
      → IsKeyed id d
      → IsKeyed id old
      → get (collect id run r (values (save_all id (values d) old)) []) k
        ≡ if_of_run run r (or_else (get d k) (get old k))
  get-collect_saved d old k h g =
      get-collect id run r (save_all id (values d) old) k (save_all-IsKeyed id (values d) old g)
      ∙ ap (if_of_run run r) (get-save_all id d old k h)

-- The four records of the saved snapshot are found again.
records_found :
    (s : ReducedSnapshot) (st : StateStore)
    → IsCoherent s
    → let p = persist_snapshot s st in
      (get p.run_records s.run_record.run_id ≡ some s.run_record)
      × (get p.thread_records s.run_record.thread_id ≡ some s.thread_record)
      × (get p.run_states s.run_record.run_id ≡ some s.run_state)
      × (get p.thread_states s.run_record.thread_id ≡ some s.thread_state)
unfolding persist_snapshot
records_found s st c = (
  get-put_self st.run_records s.run_record.run_id s.run_record,
  rw c.run_thread (get-put_self st.thread_records s.thread_record.thread_id s.thread_record),
  rw (sym c.state_run) (get-put_self st.run_states s.run_state.run_id s.run_state),
  rw (c.run_thread, sym c.state_thread)
      (get-put_self st.thread_states s.thread_state.thread_id s.thread_state),
)

-- A coherent snapshot that is saved can be built again: its four records are as they were, and
-- every node, artifact, interrupt, decision and side effect is as the snapshot has it, or else as
-- the store had it for that run.
pub build_snapshot-persist_snapshot :
    (s : ReducedSnapshot) (st : StateStore)
    → IsCoherent s
    → IsStore st
    → (t : ReducedSnapshot) × (build_snapshot (persist_snapshot s st) s.run_record.run_id ≡ ok t)
      × Restores s st t
unfolding build_snapshot persist_snapshot
build_snapshot-persist_snapshot s st c h =
    let (a, b, d, e) = records_found s st c in
    let r = s.run_record.run_id in
    (
      _,
      rw (a, b, d, e),
      record {
        thread_record = refl;
        run_record = refl;
        thread_state = refl;
        run_state = refl;
        node_states = λ k.
            get-nodes_of_run r _ k
            ∙ get_node-save_nodes r s.node_states st.node_states k c.nodes c.nodes_run;
        artifacts = λ k.
            get-collect_saved (λ x. x.artifact_id) (λ x. x.run_id) r s.artifacts st.artifacts k
              c.artifacts h.artifacts;
        interrupts = λ k.
            get-collect_saved (λ x. x.interrupt_id) (λ x. x.run_id) r s.interrupts st.interrupts k
              c.interrupts h.interrupts;
        policy_decisions = λ k.
            get-collect_saved (λ x. x.decision_id) (λ x. x.run_id) r s.policy_decisions
              st.policy_decisions k c.policy_decisions h.policy_decisions;
        side_effects = λ k.
            get-collect_saved (λ x. x.side_effect_id) (λ x. x.run_id) r s.side_effects
              st.side_effects k c.side_effects h.side_effects;
      },
    )
