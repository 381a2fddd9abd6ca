-- ===== src/Stores/State.antt =====
-- `InMemoryStateStore` (src/core/stores/memory_state_store.py): what the runtime saves, and the
-- snapshot that it reads back.
pub mod Laws
pub mod Queries
pub mod RoundTrip
pub mod Filed
use agent_roles.Common.{
  ℕ, String, ◌≡◌, refl, Bool, true, false, ◌&&◌, ◌||◌, Option, none, some, List, [], ◌∷◌, Result,
  ok, err, key_error, ◌>>=◌, ◌=ₛ◌, if◌then◌else◌, or_raise,
}
use agent_roles.Common.Dict.{Dict, get, put, values}
use agent_roles.State.Models.{
  ThreadRecord, RunRecord, ThreadState, RunState, NodeState, ArtifactRecord, InterruptRecord,
  PolicyDecisionRecord, SideEffectRecord, ReducedSnapshot,
}

-- A dict whose keys are pairs of a run and a node.
abbrev pub NodeDict : Type 0
NodeDict = List (String × String × NodeState)

unfoldable pub get_node : NodeDict → String → String → Option NodeState
get_node [] run_id node_id = none
get_node ((r, n, s) ∷ d) run_id node_id =
    if (r =ₛ run_id) && (n =ₛ node_id) then some s else get_node d run_id node_id

unfoldable pub put_node : NodeDict → String → String → NodeState → NodeDict
put_node [] run_id node_id v = (run_id, node_id, v) ∷ []
put_node ((r, n, s) ∷ d) run_id node_id v =
    if (r =ₛ run_id) && (n =ₛ node_id)
    then (r, n, v) ∷ d
    else (r, n, s) ∷ put_node d run_id node_id v

pub record StateStore : Type 0 where
  pub thread_records : Dict ThreadRecord
  pub run_records : Dict RunRecord
  pub thread_states : Dict ThreadState
  pub run_states : Dict RunState
  pub node_states : NodeDict
  pub artifacts : Dict ArtifactRecord
  pub interrupts : Dict InterruptRecord
  pub policy_decisions : Dict PolicyDecisionRecord
  pub side_effects : Dict SideEffectRecord

abbrev pub empty_store : StateStore
empty_store = record {
  thread_records = [];
  run_records = [];
  thread_states = [];
  run_states = [];
  node_states = [];
  artifacts = [];
  interrupts = [];
  policy_decisions = [];
  side_effects = [];
}

unfoldable pub save_thread_record : ThreadRecord → StateStore → StateStore
save_thread_record r st = record st { thread_records = put st.thread_records r.thread_id r }

unfoldable pub save_run_record : RunRecord → StateStore → StateStore
save_run_record r st = record st { run_records = put st.run_records r.run_id r }

unfoldable pub save_thread_state : ThreadState → StateStore → StateStore
save_thread_state s st = record st { thread_states = put st.thread_states s.thread_id s }

unfoldable pub save_run_state : RunState → StateStore → StateStore
save_run_state s st = record st { run_states = put st.run_states s.run_id s }

unfoldable pub save_node_state : NodeState → NodeDict → NodeDict
save_node_state s d = put_node d s.run_id s.node_id s

-- Saving each record of a dict under its own id: `for x in xs.values(): store.save_x(x)`.
unfoldable pub save_all : {V : Type 0} → (V → String) → List V → Dict V → Dict V
save_all id [] d = d
save_all id (v ∷ vs) d = save_all id vs (put d (id v) v)

unfoldable pub save_nodes : List NodeState → NodeDict → NodeDict
save_nodes [] d = d
save_nodes (n ∷ ns) d = save_nodes ns (save_node_state n d)

-- `RuntimeService._persist_snapshot` (src/core/runtime/runtime_service.py).
unfoldable pub persist_snapshot : ReducedSnapshot → StateStore → StateStore
persist_snapshot s st = record {
  thread_records = put st.thread_records s.thread_record.thread_id s.thread_record;
  run_records = put st.run_records s.run_record.run_id s.run_record;
  thread_states = put st.thread_states s.thread_state.thread_id s.thread_state;
  run_states = put st.run_states s.run_state.run_id s.run_state;
  node_states = save_nodes (values s.node_states) st.node_states;
  artifacts = save_all (λ a. a.artifact_id) (values s.artifacts) st.artifacts;
  interrupts = save_all (λ i. i.interrupt_id) (values s.interrupts) st.interrupts;
  policy_decisions = save_all (λ d. d.decision_id) (values s.policy_decisions) st.policy_decisions;
  side_effects = save_all (λ e. e.side_effect_id) (values s.side_effects) st.side_effects;
}

-- `{node_id: state for ((run, node_id), state) in ... if run == run_id}`
unfoldable pub nodes_of_run : String → NodeDict → Dict NodeState
nodes_of_run run_id [] = []
nodes_of_run run_id ((r, n, s) ∷ d) =
    let rest = nodes_of_run run_id d in if r =ₛ run_id then (n, s) ∷ rest else rest

-- `{record.id: record for record in ... if record.run_id == run_id}`
unfoldable pub collect :
    {V : Type 0} → (V → String) → (V → String) → String → List V → Dict V → Dict V
collect id run run_id [] d = d
collect id run run_id (v ∷ vs) d =
    collect id run run_id vs (if run v =ₛ run_id then put d (id v) v else d)

-- `build_snapshot`
unfoldable pub build_snapshot : StateStore → String → Result ReducedSnapshot
build_snapshot st run_id = do
  run_record ← or_raise (get st.run_records run_id) key_error
  thread_record ← or_raise (get st.thread_records run_record.thread_id) key_error
  run_state ← or_raise (get st.run_states run_id) key_error
  thread_state ← or_raise (get st.thread_states run_record.thread_id) key_error
  ok (record {
    thread_record = thread_record;
    run_record = run_record;
    thread_state = thread_state;
    run_state = run_state;
    node_states = nodes_of_run run_id st.node_states;
    artifacts = collect (λ a. a.artifact_id) (λ a. a.run_id) run_id (values st.artifacts) [];
    interrupts = collect (λ i. i.interrupt_id) (λ i. i.run_id) run_id (values st.interrupts) [];
    policy_decisions =
        collect (λ d. d.decision_id) (λ d. d.run_id) run_id (values st.policy_decisions) [];
    side_effects =
        collect (λ e. e.side_effect_id) (λ e. e.run_id) run_id (values st.side_effects) [];
  })
