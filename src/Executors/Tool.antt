-- ===== src/Executors/Tool.antt =====
-- `ToolNodeExecutor` (src/core/executors/tool_executor.py).
pub mod Outcomes
pub mod Approval
use Prim.Native.String.{◌++◌ as join}
use package.text.Mathlib.Text.{starts_with}
use agent_roles.Common.{
  ℕ, zero, suc, String, Bool, true, false, ◌||◌, Option, none, some, List, [], ◌∷◌, Result, ok, err,
  value_error, ◌=ₛ◌, if◌then◌else◌,
}
use agent_roles.Value.{Value, Fields, end, field, fget}
use agent_roles.State.Models.{
  NodeStatus, NodeType, InterruptType, InterruptStatus, InterruptRecord, PolicyAction,
  PolicyDecisionRecord,
}
use agent_roles.State.Validation.{interrupt_valid, non_empty}
use agent_roles.Contracts.{Services}
use agent_roles.Executors.Requests.{checked_interrupt}
use agent_roles.Selector.Inputs.{payload_or_empty}
use agent_roles.Runtime.Monad.{Action, ◌>>=◌, ◌>>◌, pure, lift}
use agent_roles.Runtime.Context.{ExecutionContext, NodeExecutionResult}
use agent_roles.Runtime.Nodes.{code_or}
use agent_roles.Runtime.Store.{now, new_id}
use agent_roles.Tools.Models.{ToolInvocationResult, ToolInvoker}

abbrev is_tool : NodeType → Bool
is_tool NodeType.tool = true
is_tool _ = false

-- `can_execute`
unfoldable pub can_execute : NodeType → String → Bool
can_execute t executor_ref = is_tool t || starts_with executor_ref "tool."

-- The text after so many characters.
abbrev after : ℕ → String → String
after zero s = s
after (suc n) String.[] = String.[]
after (suc n) (String.◌∷◌ c s) = after n s

-- `d.get("tool_ref")`, where None is as good as nothing.
abbrev ref_in : Fields → Option Value
ref_in d = elim (fget d "tool_ref") [
  | none ↦ none
  | some v ↦ elim v [ Value.null ↦ none | other ↦ some other ]
]

abbrev or_else : Option Value → Option Value → Option Value
or_else none b = b
or_else (some a) b = some a

abbrev prefixed_ref : String → Option Value
prefixed_ref executor_ref =
    if starts_with executor_ref "tool." then some (Value.text (after 5 executor_ref)) else none

-- A reference is a text that is not empty.
abbrev as_ref : Option Value → Result String
as_ref (some (Value.text s)) = if non_empty s then ok s else err value_error
as_ref _ = err value_error

-- `_resolve_tool_ref`
unfoldable pub resolve_tool_ref : ExecutionContext → Result String
resolve_tool_ref c = as_ref (
    or_else (ref_in c.node_spec.config)
      (or_else (ref_in c.node_spec.metadata) (prefixed_ref c.node_spec.executor_ref)))

abbrev is_approval : PolicyAction → Bool
is_approval PolicyAction.require_approval = true
is_approval _ = false

-- The first decision that asks for an approval; `any` asks whether there is one.
unfoldable pub first_approval : List PolicyDecisionRecord → Option PolicyDecisionRecord
first_approval [] = none
first_approval (d ∷ ds) =
    let rest = first_approval ds in if is_approval d.action then some d else rest

abbrev tool_metadata : String → ToolInvocationResult → Fields
tool_metadata tool_ref r =
    field "tool_ref" (Value.text tool_ref) (field "tool_metadata" (Value.dict r.metadata) end)

abbrev node_result : NodeStatus → String → ToolInvocationResult → NodeExecutionResult
node_result status tool_ref r = record {
  status = status;
  output = none;
  artifact_type = none;
  artifact = none;
  interrupts = [];
  error_code = none;
  error_message = none;
  policy_decisions = r.policy_decisions;
  side_effects = [];
  next_hints = end;
  metadata = tool_metadata tool_ref r;
}

abbrev pub waits : String → ToolInvocationResult → InterruptRecord → NodeExecutionResult
waits tool_ref r i = record (node_result NodeStatus.waiting tool_ref r) {
  output = some end;
  interrupts = i ∷ [];
}

abbrev pub succeeds : String → ToolInvocationResult → NodeExecutionResult
succeeds tool_ref r = record (node_result NodeStatus.succeeded tool_ref r) {
  output = some (payload_or_empty r.output);
  side_effects = r.side_effects;
}

abbrev pub fails : String → ToolInvocationResult → NodeExecutionResult
fails tool_ref r = record (node_result NodeStatus.failed tool_ref r) {
  error_code = some (code_or r.error_code "TOOL_INVOCATION_FAILED");
  error_message =
      some (code_or r.error_message (join "tool '" (join tool_ref "' invocation failed")));
  side_effects = r.side_effects;
}

abbrev pub approval_request :
    ExecutionContext → String → PolicyDecisionRecord → String → ℕ → InterruptRecord
approval_request c tool_ref d id created_at = record {
  interrupt_id = id;
  run_id = c.run_record.run_id;
  thread_id = c.thread_record.thread_id;
  node_id = some c.node_state.node_id;
  interrupt_type = InterruptType.approval_required;
  reason_code = d.reason_code;
  reason_message = d.reason_message;
  payload = field "tool_ref" (Value.text tool_ref) (
      field "decision_id" (Value.text d.decision_id)
        (field "policy_name" (Value.text d.policy_name) end));
  status = InterruptStatus.open_status;
  created_at = created_at;
  resolved_at = none;
  resolution_payload = none;
  version = 0;
}

module _ (sv : Services) where
  -- `_approval_interrupt`
  unfoldable pub approval_interrupt :
      ExecutionContext → String → PolicyDecisionRecord → Action InterruptRecord
  approval_interrupt c tool_ref d = do
    id ← new_id sv "interrupt"
    created_at ← now sv
    lift (checked_interrupt (approval_request c tool_ref d id created_at))

  -- What the node makes of the result of its tool.
  unfoldable pub conclude :
      ExecutionContext
      → String
      → ToolInvocationResult
      → Option PolicyDecisionRecord
      → Bool
      → Action NodeExecutionResult
  conclude c tool_ref r (some d) success =
      approval_interrupt c tool_ref d >>= λ i. pure (waits tool_ref r i)
  conclude c tool_ref r none true = pure (succeeds tool_ref r)
  conclude c tool_ref r none false = pure (fails tool_ref r)

  abbrev invoke_tool : ToolInvoker → ExecutionContext → Action NodeExecutionResult
  invoke_tool invoker c = do
    tool_ref ← lift (resolve_tool_ref c)
    r ← invoker.invoke tool_ref c.selected_input c
    conclude c tool_ref r (first_approval r.policy_decisions) r.success

  -- `execute`
  unfoldable pub execute : Option ToolInvoker → ExecutionContext → Action NodeExecutionResult
  execute none c = λ w. (err value_error, w)
  execute (some invoker) c = invoke_tool invoker c
