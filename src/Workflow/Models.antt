-- ===== src/Workflow/Models.antt =====
-- src/core/workflow/workflow_models.py, with the `__post_init__` checks of each record. The
-- durations and counts that the checks bound below are naturals.
use agent_roles.Common.{
  ℕ, String, Bool, true, false, not, ◌&&◌, ◌||◌, Option, none, some, List, [], ◌∷◌, ltb, elem,
  is_unique, is_empty, is_some,
}
use agent_roles.Common.Dict.{Dict, contains}
use agent_roles.Value.{Value, Fields}
use agent_roles.State.Models.{NodeType}
use agent_roles.State.Validation.{non_empty}

pub data MergeStrategyKind : Type 0 where
  replace shallow_merge deep_merge : MergeStrategyKind

pub data InputSourceType : Type 0 where
  thread_state run_state artifact literal interrupt_resolution memory_result : InputSourceType

pub data RetryScope : Type 0 where
  node_only subgraph replan_required : RetryScope

pub data BackoffKind : Type 0 where
  no_backoff fixed exponential : BackoffKind

pub data TimeoutBehavior : Type 0 where
  fail retry interrupt : TimeoutBehavior

pub data ApproverType : Type 0 where
  human service : ApproverType

pub data JoinPolicyKind : Type 0 where
  all_success any_success all_done quorum : JoinPolicyKind

pub data EdgeConditionType : Type 0 where
  always result_field_equals result_field_exists policy_action custom_ref : EdgeConditionType

pub data TerminalConditionType : Type 0 where
  all_terminal explicit_node_completed any_fatal_failure custom_ref : TerminalConditionType

pub data MergeMode : Type 0 where
  collect_list keyed_map custom_ref : MergeMode

pub record InputSource : Type 0 where
  pub source_type : InputSourceType
  pub source_ref : String
  pub required : Bool
  pub path : Option String

pub record InputSelector : Type 0 where
  pub sources : List InputSource
  pub merge_strategy : MergeStrategyKind

pub record OutputBinding : Type 0 where
  pub artifact_type : String
  pub write_to_thread_extensions : Option (List String)
  pub write_to_run_extensions : Option (List String)

pub record RetryPolicy : Type 0 where
  pub max_attempts : ℕ
  pub backoff_kind : BackoffKind
  pub backoff_ms : ℕ
  pub retryable_error_codes : List String
  pub retry_scope : RetryScope

pub record TimeoutPolicy : Type 0 where
  pub timeout_ms : ℕ
  pub on_timeout : TimeoutBehavior

pub record ApprovalPolicy : Type 0 where
  pub is_required : Bool
  pub approver_type : ApproverType
  pub approval_reason_code : String

pub record JoinPolicy : Type 0 where
  pub join_kind : JoinPolicyKind
  pub quorum_size : Option ℕ

pub record EdgeCondition : Type 0 where
  pub condition_type : EdgeConditionType
  pub operand_path : Option String
  pub expected_value : Value

pub record TerminalCondition : Type 0 where
  pub condition_type : TerminalConditionType
  pub node_id : Option String
  pub config : Fields

pub record MergeStrategySpec : Type 0 where
  pub mode : MergeMode
  pub key_field : Option String
  pub custom : Option String

pub record NodeSpec : Type 0 where
  pub node_id : String
  pub node_type : NodeType
  pub executor_ref : String
  pub input_selector : InputSelector
  pub agent_ref : Option String
  pub output_binding : Option OutputBinding
  pub retry_policy : Option RetryPolicy
  pub timeout_policy : Option TimeoutPolicy
  pub approval_policy : Option ApprovalPolicy
  pub join_policy : Option JoinPolicy
  pub merge_strategy : Option MergeStrategySpec
  pub config : Fields
  pub metadata : Fields

pub record EdgeSpec : Type 0 where
  pub edge_id : String
  pub from_node_id : String
  pub to_node_id : String
  pub edge_condition : Option EdgeCondition
  pub metadata : Fields

pub record WorkflowDefinition : Type 0 where
  pub workflow_id : String
  pub name : String
  pub workflow_version : String
  pub entry_node_id : String
  pub node_specs : List NodeSpec
  pub edge_specs : List EdgeSpec
  pub default_retry_policy : Option RetryPolicy
  pub default_timeout_policy : Option TimeoutPolicy
  pub allow_cycles : Bool
  pub terminal_conditions : List TerminalCondition
  pub metadata : Fields

pub record CompiledWorkflow : Type 0 where
  pub workflow_id : String
  pub workflow_version : String
  pub entry_node_id : String
  pub node_map : Dict NodeSpec
  pub outgoing_edges : Dict (List EdgeSpec)
  pub incoming_edges : Dict (List EdgeSpec)
  pub allow_cycles : Bool
  pub contains_cycles : Bool
  pub terminal_conditions : List TerminalCondition

-- `if x is not None: _require_non_empty(x)`, and `not x` of an optional text.
abbrev given_filled : Option String → Bool
given_filled none = true
given_filled (some s) = non_empty s

abbrev filled : Option String → Bool
filled none = false
filled (some s) = non_empty s

abbrev pub is_agent : NodeType → Bool
is_agent NodeType.agent = true
is_agent _ = false

abbrev pub is_merge : NodeType → Bool
is_merge NodeType.merge = true
is_merge _ = false

abbrev pub is_human_gate : NodeType → Bool
is_human_gate NodeType.human_gate = true
is_human_gate _ = false

abbrev pub is_quorum : JoinPolicyKind → Bool
is_quorum JoinPolicyKind.quorum = true
is_quorum _ = false

abbrev pub is_explicit_node : TerminalConditionType → Bool
is_explicit_node TerminalConditionType.explicit_node_completed = true
is_explicit_node _ = false

unfoldable pub input_selector_valid : InputSelector → Bool
input_selector_valid s = not (is_empty s.sources)

unfoldable pub join_policy_valid : JoinPolicy → Bool
join_policy_valid p =
    not (is_quorum p.join_kind) || elim p.quorum_size [ none ↦ false | some n ↦ ltb 0 n ]

unfoldable pub terminal_condition_valid : TerminalCondition → Bool
terminal_condition_valid c = not (is_explicit_node c.condition_type) || filled c.node_id

unfoldable pub node_spec_valid : NodeSpec → Bool
node_spec_valid n =
    non_empty n.node_id
    && (non_empty n.executor_ref
        && (given_filled n.agent_ref
            && ((not (is_some n.agent_ref) || is_agent n.node_type)
                && ((not (is_merge n.node_type) || is_some n.merge_strategy)
                    && (not (is_human_gate n.node_type) || is_some n.approval_policy)))))

unfoldable pub edge_spec_valid : EdgeSpec → Bool
edge_spec_valid e = non_empty e.edge_id && (non_empty e.from_node_id && non_empty e.to_node_id)

abbrev pub node_ids : List NodeSpec → List String
node_ids [] = []
node_ids (n ∷ ns) = n.node_id ∷ node_ids ns

abbrev pub edge_ids : List EdgeSpec → List String
edge_ids [] = []
edge_ids (e ∷ es) = e.edge_id ∷ edge_ids es

unfoldable pub definition_valid : WorkflowDefinition → Bool
definition_valid d =
    (non_empty d.workflow_id
      && (non_empty d.name && (non_empty d.workflow_version && non_empty d.entry_node_id)))
    && (not (is_empty d.node_specs)
        && (is_unique (node_ids d.node_specs)
            && (elem d.entry_node_id (node_ids d.node_specs) && is_unique (edge_ids d.edge_specs))))

unfoldable pub compiled_valid : CompiledWorkflow → Bool
compiled_valid w =
    non_empty w.workflow_id
    && (non_empty w.workflow_version
        && (non_empty w.entry_node_id
            && (contains w.node_map w.entry_node_id
                && not (w.contains_cycles && not w.allow_cycles))))
