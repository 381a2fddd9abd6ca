-- ===== src/Selector/Ready.antt =====
-- Which nodes may run, and when a workflow is done (src/core/state/selectors.py).
pub mod Laws
use agent_roles.Common.{
  ℕ, String, ◌≡◌, refl, Bool, true, false, not, ◌&&◌, ◌||◌, Option, none, some, List, [], ◌∷◌,
  Result, ok, err, Error, ◌=ₛ◌, if◌then◌else◌, is_some, keep, leb, length, any_of, all_of, is_empty,
}
use agent_roles.Common.Dict.{Dict, get, values, keys}
use agent_roles.Value.{Value, Fields, value_eq}
use agent_roles.State.Models.{
  NodeStatus, NodeState, PolicyAction, PolicyDecisionRecord, InterruptRecord, ReducedSnapshot,
}
use agent_roles.Workflow.Models.{
  EdgeCondition, EdgeConditionType, EdgeSpec, JoinPolicy, JoinPolicyKind, NodeSpec,
  TerminalCondition, TerminalConditionType, CompiledWorkflow,
}
use agent_roles.Selector.Paths.{extract_path, artifact_payload, action_text}
use agent_roles.Selector.Inputs.{is_for_node}

-- `TERMINAL_NODE_STATUSES`
abbrev pub is_terminal : NodeStatus → Bool
is_terminal NodeStatus.succeeded = true
is_terminal NodeStatus.failed = true
is_terminal NodeStatus.skipped = true
is_terminal NodeStatus.cancelled = true
is_terminal _ = false

-- `SUCCESS_NODE_STATUSES`
abbrev pub is_success : NodeStatus → Bool
is_success NodeStatus.succeeded = true
is_success _ = false

abbrev pub is_failed : NodeStatus → Bool
is_failed NodeStatus.failed = true
is_failed _ = false

-- `_has_open_interrupt_for_node`
unfoldable pub has_open_interrupt : ReducedSnapshot → String → Bool
has_open_interrupt s node_id =
    any_of
      (λ id. elim (get s.interrupts id) [ none ↦ false | some i ↦ is_for_node i.node_id node_id ])
      s.run_state.pending_interrupt_ids

-- `str(decision.action) == str(condition.expected_value)`: only a text prints as an action does.
abbrev pub is_action : PolicyAction → Value → Bool
is_action a (Value.text t) = action_text a =ₛ t
is_action a _ = false

-- An artifact's payload meets a condition on its fields; only a KeyError is caught, and
-- `_extract_path` raises no other.
unfoldable pub payload_satisfies : EdgeCondition → EdgeConditionType → Value → Bool
payload_satisfies c EdgeConditionType.result_field_exists v = elim (extract_path v c.operand_path) [
  | ok _ ↦ true
  | err _ ↦ false
]
payload_satisfies c EdgeConditionType.result_field_equals v = elim (extract_path v c.operand_path) [
  | ok actual ↦ value_eq actual c.expected_value
  | err _ ↦ false
]
payload_satisfies c _ v = false

-- The artifact of `state.output_artifact_id`, if there is one on file.
unfoldable pub output_payload : ReducedSnapshot → NodeState → Option Value
output_payload s n = elim n.output_artifact_id [
  | none ↦ none
  | some id ↦ elim (get s.artifacts id) [ none ↦ none | some a ↦ some (artifact_payload a) ]
]

unfoldable pub condition_satisfied :
    ReducedSnapshot → NodeState → EdgeCondition → EdgeConditionType → Bool
condition_satisfied s n c EdgeConditionType.always = true
condition_satisfied s n c EdgeConditionType.policy_action =
    any_of
      (λ id. elim (get s.policy_decisions id) [
        | none ↦ false
        | some d ↦ is_action d.action c.expected_value
      ])
      n.policy_decision_ids
condition_satisfied s n c t = elim (output_payload s n) [
  | none ↦ false
  | some v ↦ payload_satisfies c t v
]

-- `_edge_condition_satisfied`
unfoldable pub edge_condition_satisfied : ReducedSnapshot → NodeState → Option EdgeCondition → Bool
edge_condition_satisfied s n none = true
edge_condition_satisfied s n (some c) = condition_satisfied s n c c.condition_type

-- The loop of `_dependencies_satisfied` over the edges: `none` where a source has no state.
unfoldable pub upstream_states : ReducedSnapshot → List EdgeSpec → Option (List NodeState)
upstream_states s [] = some []
upstream_states s (e ∷ es) =
    let rest = upstream_states s es in
    elim (get s.node_states e.from_node_id) [
      | none ↦ none
      | some n ↦
          if edge_condition_satisfied s n e.edge_condition
          then elim rest [ none ↦ none | some ns ↦ some (n ∷ ns) ]
          else rest
    ]

abbrev pub count_success : List NodeState → ℕ
count_success ns = length (keep (λ n. is_success n.status) ns)

-- `join_policy.quorum or 0`
abbrev pub quorum_or_zero : Option ℕ → ℕ
quorum_or_zero none = 0
quorum_or_zero (some n) = n

unfoldable pub join_satisfied : JoinPolicyKind → Option ℕ → List NodeState → Bool
join_satisfied JoinPolicyKind.all_success q ns = all_of (λ n. is_success n.status) ns
join_satisfied JoinPolicyKind.any_success q ns = any_of (λ n. is_success n.status) ns
join_satisfied JoinPolicyKind.all_done q ns = all_of (λ n. is_terminal n.status) ns
join_satisfied JoinPolicyKind.quorum q ns = leb (quorum_or_zero q) (count_success ns)

abbrev pub policy_satisfied : Option JoinPolicy → List NodeState → Bool
policy_satisfied none ns = join_satisfied JoinPolicyKind.all_success none ns
policy_satisfied (some p) ns = join_satisfied p.join_kind p.quorum_size ns

abbrev pub edges_or_empty : Option (List EdgeSpec) → List EdgeSpec
edges_or_empty none = []
edges_or_empty (some es) = es

-- `_dependencies_satisfied`
unfoldable pub dependencies_satisfied :
    ReducedSnapshot → CompiledWorkflow → String → Option JoinPolicy → Bool
dependencies_satisfied s w node_id policy =
    let incoming = edges_or_empty (get w.incoming_edges node_id) in
    if is_empty incoming then node_id =ₛ w.entry_node_id else elim (upstream_states s incoming) [
      | none ↦ false
      | some ns ↦ not (is_empty ns) && policy_satisfied policy ns
    ]

-- One round of the loop of `select_ready_nodes`, by the node's status.
unfoldable pub status_ready :
    ReducedSnapshot → CompiledWorkflow → String → Option JoinPolicy → NodeStatus → Bool
status_ready s w node_id policy NodeStatus.ready = true
status_ready s w node_id policy NodeStatus.pending =
    not (has_open_interrupt s node_id) && dependencies_satisfied s w node_id policy
status_ready s w node_id policy NodeStatus.blocked =
    not (has_open_interrupt s node_id) && dependencies_satisfied s w node_id policy
status_ready s w node_id policy _ = false

unfoldable pub node_ready : ReducedSnapshot → CompiledWorkflow → String → NodeSpec → Bool
node_ready s w node_id spec = elim (get s.node_states node_id) [
  | none ↦ false
  | some n ↦ status_ready s w node_id spec.join_policy n.status
]

unfoldable pub ready_among : ReducedSnapshot → CompiledWorkflow → Dict NodeSpec → List String
ready_among s w [] = []
ready_among s w ((id, spec) ∷ m) =
    let rest = ready_among s w m in if node_ready s w id spec then id ∷ rest else rest

unfoldable pub select_ready_nodes : ReducedSnapshot → CompiledWorkflow → List String
select_ready_nodes s w = ready_among s w w.node_map

abbrev pub node_terminal : ReducedSnapshot → String → Bool
node_terminal s id = elim (get s.node_states id) [ none ↦ false | some n ↦ is_terminal n.status ]

abbrev pub node_succeeded : ReducedSnapshot → String → Bool
node_succeeded s id = elim (get s.node_states id) [ none ↦ false | some n ↦ is_success n.status ]

-- `_evaluate_terminal_condition`
unfoldable pub terminal_condition :
    ReducedSnapshot → CompiledWorkflow → TerminalCondition → TerminalConditionType → Bool
terminal_condition s w c TerminalConditionType.all_terminal =
    all_of (λ id. node_terminal s id) (keys w.node_map)
terminal_condition s w c TerminalConditionType.explicit_node_completed = elim c.node_id [
  | none ↦ false
  | some id ↦ node_succeeded s id
]
terminal_condition s w c TerminalConditionType.any_fatal_failure =
    any_of (λ n. is_failed n.status) (values s.node_states)
terminal_condition s w c TerminalConditionType.custom_ref = false

-- With no conditions every node must be known and terminal.
unfoldable pub terminal_condition_met : ReducedSnapshot → CompiledWorkflow → Bool
terminal_condition_met s w =
    if is_empty w.terminal_conditions
    then all_of (λ id. node_terminal s id) (keys w.node_map)
    else any_of (λ c. terminal_condition s w c c.condition_type) w.terminal_conditions
