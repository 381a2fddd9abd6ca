-- ===== src/Tools/Static.antt =====
-- `StaticPolicyEngine` (src/core/policies/static.py). Its sets are lists of texts.
pub mod Decisions
use Prim.Native.String.{◌++◌ as join}
use agent_roles.Common.{
  ℕ, String, Bool, true, false, ◌&&◌, Option, none, some, List, [], ◌∷◌, Result, ok, err,
  value_error, elem, is_unique, if◌then◌else◌,
}
use agent_roles.Common.Dict.{Dict, get}
use agent_roles.Value.{Value, Fields, end, field}
use agent_roles.State.Models.{PolicyAction, PolicyDecisionRecord, SideEffectRecord}
use agent_roles.State.Validation.{decision_valid, non_empty}
use agent_roles.Contracts.{Services}
use agent_roles.Runtime.Monad.{Action, ◌>>=◌, ◌>>◌, pure, lift}
use agent_roles.Runtime.Context.{ExecutionContext, NodeExecutionResult}
use agent_roles.Runtime.Store.{now, new_id}
use agent_roles.Tools.Models.{ToolDescriptor, ToolInvocationRequest, PolicyEngine}

pub record StaticPolicyEngine : Type 0 where
  pub deny_tool_refs : List String
  pub approval_tool_refs : List String
  pub redact_tool_refs : Dict (List String)
  pub deny_side_effect_targets : List String
  pub approval_side_effect_targets : List String
  pub policy_name : String

abbrev pub checked_decision : PolicyDecisionRecord → Result PolicyDecisionRecord
checked_decision c = if decision_valid c then ok c else err value_error

-- What a decision says.
pub record Ruling : Type 0 where
  pub action : PolicyAction
  pub reason_code : String
  pub reason_message : String
  pub redactions : List String

abbrev about_tool : String → String → String
about_tool tool_ref rest = join "tool '" (join tool_ref (join "'" rest))

abbrev about_effect : String → String → String
about_effect target_ref rest = join "side effect '" (join target_ref (join "'" rest))

module _ (e : StaticPolicyEngine) where
  abbrev redaction_or_none : String → Option (List String) → Ruling
  redaction_or_none tool_ref none = record {
    action = PolicyAction.allow;
    reason_code = "tool_allowed";
    reason_message = about_tool tool_ref " allowed";
    redactions = [];
  }
  redaction_or_none tool_ref (some paths) = record {
    action = PolicyAction.redact;
    reason_code = "tool_input_redacted";
    reason_message = about_tool tool_ref " input redacted by policy";
    redactions = paths;
  }

  -- The tests of `pre_tool_invoke`, in their order.
  unfoldable pub tool_ruling : String → Ruling
  tool_ruling tool_ref =
      if elem tool_ref e.deny_tool_refs
      then record {
        action = PolicyAction.deny;
        reason_code = "tool_denied";
        reason_message = about_tool tool_ref " denied by policy";
        redactions = [];
      }
      else if elem tool_ref e.approval_tool_refs
      then record {
        action = PolicyAction.require_approval;
        reason_code = "tool_requires_approval";
        reason_message = about_tool tool_ref " requires approval";
        redactions = [];
      }
      else redaction_or_none tool_ref (get e.redact_tool_refs tool_ref)

  -- The tests of `pre_side_effect`.
  unfoldable pub side_effect_ruling : String → Ruling
  side_effect_ruling target_ref =
      if elem target_ref e.deny_side_effect_targets
      then record {
        action = PolicyAction.deny;
        reason_code = "side_effect_denied";
        reason_message = about_effect target_ref " denied by policy";
        redactions = [];
      }
      else if elem target_ref e.approval_side_effect_targets
      then record {
        action = PolicyAction.require_approval;
        reason_code = "side_effect_requires_approval";
        reason_message = about_effect target_ref " requires approval";
        redactions = [];
      }
      else record {
        action = PolicyAction.allow;
        reason_code = "side_effect_allowed";
        reason_message = "side effect allowed";
        redactions = [];
      }

  -- The record that `_decision` makes.
  abbrev pub decision_of : ExecutionContext → Ruling → String → ℕ → PolicyDecisionRecord
  decision_of context r id created_at = record {
    decision_id = id;
    run_id = context.run_record.run_id;
    node_id = some context.node_state.node_id;
    action = r.action;
    policy_name = e.policy_name;
    reason_code = r.reason_code;
    reason_message = r.reason_message;
    redactions = r.redactions;
    created_at = created_at;
    metadata = field "tool_node_id" (Value.text context.node_state.node_id) end;
  }

  module _ (sv : Services) where
    -- `_decision`; the runtime's services have a generator of identifiers.
    unfoldable pub decision : ExecutionContext → Ruling → Action PolicyDecisionRecord
    decision context r = do
      id ← new_id sv "policy"
      created_at ← now sv
      lift (checked_decision (decision_of context r id created_at))

    unfoldable pub pre_tool_invoke :
        ToolDescriptor → ToolInvocationRequest → ExecutionContext → Action PolicyDecisionRecord
    pre_tool_invoke d request context = decision context (tool_ruling d.tool_ref)

    unfoldable pub pre_side_effect :
        ExecutionContext → SideEffectRecord → Action PolicyDecisionRecord
    pre_side_effect context effect = decision context (side_effect_ruling effect.target_ref)

    unfoldable pub pre_node_execute : ExecutionContext → Action PolicyDecisionRecord
    pre_node_execute context = decision context (record {
      action = PolicyAction.allow;
      reason_code = "node_allowed";
      reason_message = "node execution allowed";
      redactions = [];
    })

    -- The engine as the code calls it.
    abbrev pub static_engine : PolicyEngine
    static_engine = record { pre_tool_invoke = pre_tool_invoke; pre_side_effect = pre_side_effect }
