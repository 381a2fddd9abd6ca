-- ===== src/Tools/Policy.antt =====
-- `PolicyAwareToolInvoker` (src/core/tools/policy.py): a policy that stands before a tool.
pub mod Redaction
pub mod Guarding
use Prim.Native.String.{◌++◌ as join}
use agent_roles.Common.{
  ℕ, String, Bool, true, false, Option, none, some, List, [], ◌∷◌, ok, err, value_error, ◌=ₛ◌,
  if◌then◌else◌, is_empty,
}
use agent_roles.Value.{Value, Fields, end, field, fget, fput, update, split_path}
use agent_roles.Selector.Paths.{action_text, text_list}
use agent_roles.State.Models.{PolicyAction, PolicyDecisionRecord}
use agent_roles.State.Validation.{non_empty}
use agent_roles.Runtime.Monad.{Action, ◌>>=◌, ◌>>◌, pure, raise_when}
use agent_roles.Runtime.Context.{ExecutionContext}
use agent_roles.Tools.Models.{
  ToolDescriptor, ToolInvocationRequest, ToolInvocationResult, ToolInvoker, PolicyEngine,
}

-- `d.pop(k, None)`
unfoldable pub fdrop : Fields → String → Fields
fdrop end k = end
fdrop (field j v d) k = let rest = fdrop d k in if j =ₛ k then rest else field j v rest

-- The dict under a key, if there is one: `part in current`, and the next value is a dict.
unfoldable pub dict_under : Fields → String → Option Fields
dict_under d k = elim (fget d k) [ some (Value.dict e) ↦ some e | _ ↦ none ]

-- The walk of `_redact_path`: through dicts only, and the last segment is removed.
unfoldable pub redact_parts : List String → Fields → Fields
redact_parts [] d = d
redact_parts (p ∷ []) d = fdrop d p
redact_parts (p ∷ (q ∷ ps)) d = elim (dict_under d p) [
  | none ↦ d
  | some e ↦ fput d p (Value.dict (redact_parts (q ∷ ps) e))
]

-- `_redact_path`
unfoldable pub redact_path : Fields → String → Fields
redact_path d path = if path =ₛ "" then d else redact_parts (split_path path) d

-- `for path in decision.redactions`
unfoldable pub redact_all : List String → Fields → Fields
redact_all [] d = d
redact_all (path ∷ paths) d = redact_all paths (redact_path d path)

-- What goes before what a tool reported.
abbrev pub attach : PolicyDecisionRecord → Fields → ToolInvocationResult → ToolInvocationResult
attach decision noted r = record r {
  policy_decisions = decision ∷ r.policy_decisions;
  metadata = update noted r.metadata;
}

abbrev pub noted_action : PolicyDecisionRecord → Fields
noted_action c = field "policy_action" (Value.text (action_text c.action)) end

abbrev pub noted_redactions : PolicyDecisionRecord → Fields
noted_redactions c =
    field "policy_action" (Value.text (action_text c.action))
      (field "redactions" (text_list c.redactions) end)

-- A call that the policy stops.
abbrev pub stopped : String → PolicyDecisionRecord → String → ToolInvocationResult
stopped tool_ref c code = record {
  success = false;
  output = none;
  error_code = some code;
  error_message = some c.reason_message;
  policy_decisions = c ∷ [];
  side_effects = [];
  metadata =
      field "policy_action" (Value.text (action_text c.action))
        (field "tool_ref" (Value.text tool_ref) end);
}

-- `f"POLICY_{str(decision.action).upper()}"`, and the two codes with names of their own.
abbrev pub stop_code : PolicyAction → String
stop_code PolicyAction.require_approval = "POLICY_APPROVAL_REQUIRED"
stop_code PolicyAction.deny = "POLICY_DENIED"
stop_code PolicyAction.allow = "POLICY_ALLOW"
stop_code PolicyAction.redact = "POLICY_REDACT"
stop_code PolicyAction.degrade = "POLICY_DEGRADE"
stop_code PolicyAction.retry_later = "POLICY_RETRY_LATER"

-- What a decision does with the call of a tool.
pub data Verdict : Type 0 where
  pass redacted stop : Verdict

unfoldable pub verdict : PolicyAction → List String → Verdict
verdict PolicyAction.allow rs = Verdict.pass
verdict PolicyAction.redact rs = if is_empty rs then Verdict.stop else Verdict.redacted
verdict _ rs = Verdict.stop

abbrev pub checked_request : ToolInvocationRequest → Action ToolInvocationRequest
checked_request r = if non_empty r.tool_ref then pure r else λ w. (err value_error, w)

module _ (delegate : ToolInvoker) where
  -- What follows the decision.
  unfoldable pub follow :
      Verdict
      → String
      → Fields
      → ExecutionContext
      → PolicyDecisionRecord
      → Action ToolInvocationResult
  follow Verdict.pass tool_ref input context c =
      delegate.invoke tool_ref input context >>= λ r. pure (attach c (noted_action c) r)
  follow Verdict.redacted tool_ref input context c =
      delegate.invoke tool_ref (redact_all c.redactions input) context >>= λ r.
      pure (attach c (noted_redactions c) r)
  follow Verdict.stop tool_ref input context c = pure (stopped tool_ref c (stop_code c.action))

  abbrev pub act_on_decision :
      String → Fields → ExecutionContext → PolicyDecisionRecord → Action ToolInvocationResult
  act_on_decision tool_ref input context c =
      follow (verdict c.action c.redactions) tool_ref input context c

  -- The call of a tool that has a descriptor, under an engine.
  unfoldable pub governed :
      PolicyEngine
      → ToolDescriptor
      → String
      → Fields
      → ExecutionContext
      → Action ToolInvocationResult
  governed engine d tool_ref input context = do
    request ← checked_request (record {
      tool_ref = tool_ref;
      tool_input = input;
      caller_node_id = some context.node_state.node_id;
      trace_context = context.trace_context;
      metadata = end;
    })
    c ← engine.pre_tool_invoke d request context
    act_on_decision tool_ref input context c

  -- `invoke`: a tool without a descriptor, and a runtime without an engine, is not governed.
  unfoldable pub invoke :
      Option PolicyEngine → String → Fields → ExecutionContext → Action ToolInvocationResult
  invoke engine tool_ref input context = elim (delegate.get_descriptor tool_ref) [
    | none ↦ delegate.invoke tool_ref input context
    | some d ↦ elim engine [
      | none ↦ delegate.invoke tool_ref input context
      | some e ↦ governed e d tool_ref input context
    ]
  ]

  -- The invoker as its callers have it; `get_descriptor` is the delegate's.
  abbrev pub policy_aware : Option PolicyEngine → ToolInvoker
  policy_aware engine = record { invoke = invoke engine; get_descriptor = delegate.get_descriptor }
