-- ===== src/Tests/Tools.antt =====
-- Tools behind a policy, and the nodes that call them, at concrete data.
use agent_roles.Common.{
  String, ◌≡◌, ◌↔◌, inr, refl, true, false, none, some, [], ◌∷◌, Occurs, ok, Result,
}
use agent_roles.Common.Dict.{get}
use agent_roles.Value.{Value, Fields, end, field, fget, fput}
use agent_roles.State.Models.{NodeStatus, SideEffectKind, InterruptRecord, PolicyDecisionRecord}
use agent_roles.State.Validation.{decision_valid, non_empty}
use agent_roles.Runtime.Monad.{World}
use agent_roles.Runtime.Context.{ExecutionContext, NodeExecutionResult}
use agent_roles.Runtime.Store.{now, new_id}
use agent_roles.Tools.Models.{
  ToolTransportKind, ToolApprovalMode, ToolDescriptor, ToolInvocationResult, ToolInvoker, ToolQuery,
}
use agent_roles.Tools.Registry.{register, list_tools}
use agent_roles.Tools.Registry.Meeting.{Meets}
use agent_roles.Tools.Registry.Laws.{Registers, register-Registers, list_tools_iff}
use agent_roles.Tools.Policy.{
  invoke, governed, follow, verdict, redact_all, redact_path, redact_parts, dict_under, fdrop,
  policy_aware,
}
use agent_roles.Tools.Policy.Guarding.{request_of, IsGuarded, invoke-IsGuarded}
use agent_roles.Tools.Static.{
  StaticPolicyEngine, static_engine, pre_tool_invoke, decision_of, decision, tool_ruling,
}
use agent_roles.Tools.Static.Decisions.{Rules, pre_tool_invoke-Rules, invoke-barred}
use agent_roles.Executors.Tool as Tool
use agent_roles.Executors.Tool.Outcomes.{Ending, IsRequest, execute-Ending}
use agent_roles.Executors.Tool.Approval.{execute-waits}
use agent_roles.Tests.Data.{
  services, snapshot, run_record, thread_record, thread_state, run_state, review_node, flow,
  review_spec, tally,
}
use agent_roles.Tests.Runtime.{world_of}

abbrev pub mail : ToolDescriptor
mail = record {
  tool_ref = "mail";
  name = "mail";
  description = "sends a letter";
  transport_kind = ToolTransportKind.local_function;
  input_schema = end;
  output_schema = end;
  side_effect_kind = SideEffectKind.external_write;
  approval_mode = ToolApprovalMode.required;
  provider_ref = none;
  operation_ref = none;
  timeout_ms = none;
  is_idempotent = false;
  tags = "letters" ∷ [];
  metadata = end;
}

abbrev search_tool : ToolDescriptor
search_tool = record mail { tool_ref = "find"; name = "find"; tags = [] }

-- Each tool answers with its input.
abbrev pub echo : ToolInvoker
echo = record {
  invoke = λ ref input c w. (
    ok (record {
      success = true;
      output = some input;
      error_code = none;
      error_message = none;
      policy_decisions = [];
      side_effects = [];
      metadata = end;
    }),
    w,
  );
  get_descriptor = λ ref. some mail;
}

-- A policy that asks for an approval of letters, and one that redacts them.
abbrev pub strict : StaticPolicyEngine
strict = record {
  deny_tool_refs = "rm" ∷ [];
  approval_tool_refs = "mail" ∷ [];
  redact_tool_refs = [];
  deny_side_effect_targets = [];
  approval_side_effect_targets = [];
  policy_name = "static_policy";
}

abbrev discreet : StaticPolicyEngine
discreet = record strict {
  approval_tool_refs = [];
  redact_tool_refs = ("mail", "user.key" ∷ []) ∷ [];
}

abbrev letter : Fields
letter = field "to" (Value.text "ann") (
    field "user"
      (Value.dict (field "key" (Value.text "secret") (field "name" (Value.text "bob") end))) end)

abbrev pub context : ExecutionContext
context = record {
  thread_record = thread_record;
  run_record = run_record;
  thread_state = thread_state;
  run_state = run_state;
  node_state = review_node;
  workflow = flow;
  node_spec = record review_spec { executor_ref = "tool.mail" };
  agent_binding = none;
  selected_input = letter;
  trace_context = end;
}

register-Registers_example : Registers mail [] (register mail [])
register-Registers_example = register-Registers mail []

abbrev by_tag : ToolQuery
by_tag = record {
  tags = "letters" ∷ [];
  transport_kind = none;
  side_effect_kind = none;
  approval_mode = none;
  provider_ref = none;
}

list_tools_iff_example :
    Occurs mail (list_tools by_tag (("mail", mail) ∷ (("find", search_tool) ∷ [])))
    ↔ ((get (("mail", mail) ∷ (("find", search_tool) ∷ [])) "mail" ≡ some mail) × Meets by_tag mail)
list_tools_iff_example =
    list_tools_iff by_tag (("mail", mail) ∷ (("find", search_tool) ∷ [])) mail (refl, (refl, tt))

-- What comes of a letter under the policy that redacts.
abbrev sent : Result ToolInvocationResult × World
sent =
    invoke echo (some (static_engine discreet services)) "mail" letter context (world_of snapshot)

abbrev told_or : Result ToolInvocationResult → ToolInvocationResult
told_or (ok r) = r
told_or _ = record {
  success = false;
  output = none;
  error_code = none;
  error_message = none;
  policy_decisions = [];
  side_effects = [];
  metadata = end;
}

sends : sent ≡ (ok (told_or sent.0), sent.1)
unfolding invoke governed follow verdict redact_all redact_path redact_parts dict_under fdrop
    pre_tool_invoke decision decision_valid tool_ruling non_empty new_id now fget fput get tally
sends = refl

invoke-IsGuarded_example :
    (c : PolicyDecisionRecord) × (v : World) × (pre_tool_invoke discreet services mail
        (request_of "mail" letter context)
        context
        (world_of snapshot)
      ≡ (ok c, v))
    × IsGuarded echo "mail" letter context c v (told_or sent.0) sent.1
invoke-IsGuarded_example =
    invoke-IsGuarded echo (static_engine discreet services) mail "mail" letter context
      (world_of snapshot) sent.1 (told_or sent.0) refl sends

abbrev judged : Result PolicyDecisionRecord × World
judged =
    pre_tool_invoke discreet services mail (request_of "mail" letter context) context
      (world_of snapshot)

abbrev decided_or : Result PolicyDecisionRecord → PolicyDecisionRecord
decided_or (ok c) = c
decided_or _ = decision_of discreet context (tool_ruling discreet "mail") "none" 0

judges : judged ≡ (ok (decided_or judged.0), judged.1)
unfolding pre_tool_invoke decision decision_valid tool_ruling non_empty new_id now get tally
judges = refl

pre_tool_invoke-Rules_example :
    Rules discreet "mail" (decided_or judged.0).action (decided_or judged.0).redactions
pre_tool_invoke-Rules_example =
    pre_tool_invoke-Rules discreet services mail (request_of "mail" letter context) context
      (world_of snapshot) judged.1 (decided_or judged.0) judges

invoke-barred_example :
    (c : PolicyDecisionRecord) × (r : ToolInvocationResult) × (invoke echo
        (some (static_engine strict services))
        "mail"
        letter
        context
        (world_of snapshot)
      ≡ (ok r, record (world_of snapshot) { calls = 12 }))
    × (r.success ≡ false)
    × (r.side_effects ≡ [])
    × (r.policy_decisions ≡ c ∷ [])
    × (decision_valid c ≡ true)
    × Rules strict "mail" c.action c.redactions
unfolding non_empty
invoke-barred_example =
    invoke-barred echo strict services mail letter context (world_of snapshot) refl refl refl refl
      (inr refl)

execute-waits_example :
    (r : NodeExecutionResult) × (i : InterruptRecord) × (x : PolicyDecisionRecord) × (Tool.execute
        services
        (some (policy_aware echo (some (static_engine strict services))))
        context
        (world_of snapshot)
      ≡ (ok r, record (world_of snapshot) { calls = 14 }))
    × (r.status ≡ NodeStatus.waiting)
    × (r.interrupts ≡ i ∷ [])
    × (r.policy_decisions ≡ x ∷ [])
    × IsRequest context x i
unfolding non_empty Tool.resolve_tool_ref fget
execute-waits_example =
    execute-waits echo strict services mail context (world_of snapshot) refl refl refl refl refl
      refl refl refl

-- The node with its tool, and no policy.
abbrev answered : Result NodeExecutionResult × World
answered = Tool.execute services (some echo) context (world_of snapshot)

abbrev result_or : Result NodeExecutionResult → NodeExecutionResult
result_or (ok r) = r
result_or _ = Tool.succeeds "mail" (told_or sent.0)

answers : answered ≡ (ok (result_or answered.0), answered.1)
unfolding Tool.execute Tool.resolve_tool_ref Tool.conclude Tool.first_approval fget non_empty
answers = refl

execute-Ending_example :
    (tool_ref : String) × (told : ToolInvocationResult) × (v : World) × (Tool.resolve_tool_ref
        context
      ≡ ok tool_ref)
    × (echo.invoke tool_ref letter context (world_of snapshot) ≡ (ok told, v))
    × Ending context told (result_or answered.0)
    × ((result_or answered.0).policy_decisions ≡ told.policy_decisions)
execute-Ending_example =
    execute-Ending services echo context (world_of snapshot) answered.1 (result_or answered.0)
      answers
