-- ===== src/Stores/State/Queries.antt =====
-- The reads of single records and the lists of a run's records
-- (src/core/stores/memory_state_store.py).
use agent_roles.Common.{
  ℕ, String, Bool, Option, List, ◌=ₛ◌, ◌==◌, ltb, if◌then◌else◌, keep, text_lt,
}
use agent_roles.Common.Dict.{get, values}
use agent_roles.State.Models.{
  ThreadRecord, RunRecord, ThreadState, RunState, NodeState, ArtifactRecord, InterruptRecord,
  PolicyDecisionRecord, SideEffectRecord,
}
use agent_roles.Scheduler.{sorted}
use agent_roles.Stores.State.{StateStore, get_node, nodes_of_run}

abbrev get_thread_record : StateStore → String → Option ThreadRecord
get_thread_record st thread_id = get st.thread_records thread_id

abbrev get_run_record : StateStore → String → Option RunRecord
get_run_record st run_id = get st.run_records run_id

abbrev get_thread_state : StateStore → String → Option ThreadState
get_thread_state st thread_id = get st.thread_states thread_id

abbrev get_run_state : StateStore → String → Option RunState
get_run_state st run_id = get st.run_states run_id

abbrev get_node_state : StateStore → String → String → Option NodeState
get_node_state st run_id node_id = get_node st.node_states run_id node_id

abbrev get_artifact : StateStore → String → Option ArtifactRecord
get_artifact st artifact_id = get st.artifacts artifact_id

abbrev get_interrupt : StateStore → String → Option InterruptRecord
get_interrupt st interrupt_id = get st.interrupts interrupt_id

-- `<` of two pairs of a time and an id.
abbrev created_before : ℕ → String → ℕ → String → Bool
created_before t a u b = if t == u then text_lt a b else ltb t u

module _ {V : Type 0} (id : V → String) (run : V → String) (created_at : V → ℕ) where
  -- The records of a run, by the time of their creation and their id.
  unfoldable of_run : String → List V → List V
  of_run run_id vs =
      sorted (λ v u. created_before (created_at v) (id v) (created_at u) (id u))
        (keep (λ v. run v =ₛ run_id) vs)

unfoldable list_node_states : StateStore → String → List NodeState
list_node_states st run_id =
    sorted (λ (n : NodeState) m. text_lt n.node_id m.node_id)
      (values (nodes_of_run run_id st.node_states))

unfoldable list_artifacts : StateStore → String → List ArtifactRecord
list_artifacts st run_id =
    of_run (λ a. a.artifact_id) (λ a. a.run_id) (λ a. a.created_at) run_id (values st.artifacts)

unfoldable list_interrupts : StateStore → String → List InterruptRecord
list_interrupts st run_id =
    of_run (λ i. i.interrupt_id) (λ i. i.run_id) (λ i. i.created_at) run_id (values st.interrupts)

unfoldable list_policy_decisions : StateStore → String → List PolicyDecisionRecord
list_policy_decisions st run_id =
    of_run (λ d. d.decision_id) (λ d. d.run_id) (λ d. d.created_at) run_id
      (values st.policy_decisions)

unfoldable list_side_effects : StateStore → String → List SideEffectRecord
list_side_effects st run_id =
    of_run (λ e. e.side_effect_id) (λ e. e.run_id) (λ e. e.created_at) run_id
      (values st.side_effects)
