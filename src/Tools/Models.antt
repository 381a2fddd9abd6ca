-- ===== src/Tools/Models.antt =====
-- The records of tools (src/core/tools/models.py), the result of a tool
-- (src/core/contracts/types.py), and the protocols of the invoker and of the policy engine
-- (src/core/contracts), as records of functions.
use agent_roles.Common.{
  ℕ, String, Bool, true, false, not, ◌&&◌, Option, none, some, List, is_unique, ◌==◌,
}
use agent_roles.Value.{Fields}
use agent_roles.State.Models.{SideEffectKind, PolicyDecisionRecord, SideEffectRecord}
use agent_roles.State.Validation.{non_empty}
use agent_roles.Runtime.Monad.{Action}
use agent_roles.Runtime.Context.{ExecutionContext}

pub data ToolTransportKind : Type 0 where
  local_function http_api command database mcp custom : ToolTransportKind

pub data ToolApprovalMode : Type 0 where
  none_mode optional required : ToolApprovalMode

pub record ToolDescriptor : Type 0 where
  pub tool_ref : String
  pub name : String
  pub description : String
  pub transport_kind : ToolTransportKind
  pub input_schema : Fields
  pub output_schema : Fields
  pub side_effect_kind : SideEffectKind
  pub approval_mode : ToolApprovalMode
  pub provider_ref : Option String
  pub operation_ref : Option String
  pub timeout_ms : Option ℕ
  pub is_idempotent : Bool
  pub tags : List String
  pub metadata : Fields

abbrev is_mcp : ToolTransportKind → Bool
is_mcp ToolTransportKind.mcp = true
is_mcp _ = false

-- `not self.provider_ref`, and `self.timeout_ms is not None and self.timeout_ms <= 0`.
abbrev is_filled : Option String → Bool
is_filled none = false
is_filled (some s) = non_empty s

abbrev is_zero : Option ℕ → Bool
is_zero none = false
is_zero (some n) = n == 0

-- `ToolDescriptor.__post_init__`
unfoldable pub descriptor_valid : ToolDescriptor → Bool
descriptor_valid d =
    non_empty d.tool_ref
    && (non_empty d.name
        && (non_empty d.description
            && (is_unique d.tags
                && (not (is_zero d.timeout_ms)
                    && not (is_mcp d.transport_kind && not (is_filled d.provider_ref))))))

pub record ToolInvocationRequest : Type 0 where
  pub tool_ref : String
  pub tool_input : Fields
  pub caller_node_id : Option String
  pub trace_context : Fields
  pub metadata : Fields

pub record ToolQuery : Type 0 where
  pub tags : List String
  pub transport_kind : Option ToolTransportKind
  pub side_effect_kind : Option SideEffectKind
  pub approval_mode : Option ToolApprovalMode
  pub provider_ref : Option String

pub record ToolInvocationResult : Type 0 where
  pub success : Bool
  pub output : Option Fields
  pub error_code : Option String
  pub error_message : Option String
  pub policy_decisions : List PolicyDecisionRecord
  pub side_effects : List SideEffectRecord
  pub metadata : Fields

-- `ToolInvoker`. A tool may do anything to the world.
pub record ToolInvoker : Type 0 where
  pub invoke : String → Fields → ExecutionContext → Action ToolInvocationResult
  pub get_descriptor : String → Option ToolDescriptor

-- `PolicyEngine`, by the two hooks that the code calls.
pub record PolicyEngine : Type 0 where
  pub pre_tool_invoke :
      ToolDescriptor → ToolInvocationRequest → ExecutionContext → Action PolicyDecisionRecord
  pub pre_side_effect : ExecutionContext → SideEffectRecord → Action PolicyDecisionRecord
