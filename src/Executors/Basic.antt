-- ===== src/Executors/Basic.antt =====
-- `BasicNodeExecutor` (src/core/executors/basic.py). The runtime always hands its services over.
pub mod Untouched
pub mod Answers
pub mod Gate
use package.text.Mathlib.Text.{starts_with}
use agent_roles.Common.{
  ℕ, String, Bool, true, false, not, ◌&&◌, ◌||◌, Option, none, some, List, [], ◌∷◌, Result, ok, err,
  value_error, type_error, ◌=ₛ◌, if◌then◌else◌, keep, is_some, any_of,
}
use agent_roles.Common.Dict.{values}
use agent_roles.Value.{Value, Fields, end, field, fget}
use agent_roles.State.Models.{
  NodeStatus, NodeType, InterruptType, InterruptStatus, InterruptRecord, ReducedSnapshot,
}
use agent_roles.State.Validation.{interrupt_valid}
use agent_roles.Workflow.Models.{ApprovalPolicy, ApproverType}
use agent_roles.Contracts.{Services}
use agent_roles.Executors.Requests.{checked_interrupt}
use agent_roles.Selector.Inputs.{latest_match, is_for_node, payload_or_empty}
use agent_roles.Runtime.Monad.{Action, ◌>>=◌, ◌>>◌, pure, lift}
use agent_roles.Runtime.Context.{ExecutionContext, NodeExecutionResult}
use agent_roles.Runtime.Store.{now, new_id, get_state}
use agent_roles.Executors.Conditions.{truthy}
use agent_roles.Executors.Flow.{result_of, succeeds, execute_noop, execute_condition, execute_merge}

-- `NodeExecutor`
pub record NodeExecutor : Type 0 where
  pub can_execute : NodeType → String → Bool
  pub execute : ExecutionContext → Action NodeExecutionResult

abbrev is_flow_node : NodeType → Bool
is_flow_node NodeType.noop = true
is_flow_node NodeType.condition = true
is_flow_node NodeType.merge = true
is_flow_node NodeType.human_gate = true
is_flow_node _ = false

-- `_is_builtin`
unfoldable pub is_builtin : NodeType → String → Bool
is_builtin t executor_ref = is_flow_node t || starts_with executor_ref "builtin."

abbrev pub raise : {A : Type 0} → Action A
raise w = (err value_error, w)

-- `_execute_merge`: only a node with a strategy reads the state.
unfoldable pub run_merge : (Value → String) → ExecutionContext → Action NodeExecutionResult
run_merge repr c = elim c.node_spec.merge_strategy [
  | none ↦ raise
  | some strategy ↦ get_state c.run_record.run_id >>= λ s. lift (execute_merge repr c strategy s)
]

abbrev pub is_open : InterruptStatus → Bool
is_open InterruptStatus.open_status = true
is_open _ = false

-- The interrupts of a node that have been answered.
abbrev pub is_answered : String → InterruptRecord → Bool
is_answered node_id i =
    is_for_node i.node_id node_id && (is_some i.resolution_payload && not (is_open i.status))

-- `_latest_resolved_interrupt_for_node`
unfoldable pub latest_resolved : String → ReducedSnapshot → Option InterruptRecord
latest_resolved node_id s = latest_match (keep (is_answered node_id) (values s.interrupts))

abbrev approver_text : ApproverType → String
approver_text ApproverType.human = "human"
approver_text ApproverType.service = "service"

-- `config.get("approval_message", ...)`: a falsy message is refused by the interrupt's check, and
-- the annotation asks for a text.
abbrev message_of : Option Value → Result String
message_of none = ok "human approval required"
message_of (some (Value.text s)) = ok s
message_of (some v) = err (if truthy v then type_error else value_error)

abbrev pub approved : InterruptRecord → NodeExecutionResult
approved i = succeeds (
    some (
      field "approved" (Value.bool true) (
        field "interrupt_id" (Value.text i.interrupt_id)
          (field "resolution" (Value.dict (payload_or_empty i.resolution_payload)) end))))

abbrev pub asks : InterruptRecord → NodeExecutionResult
asks i =
    result_of NodeStatus.waiting
      (some (
        field "approval_required" (Value.bool true)
          (field "interrupt_id" (Value.text i.interrupt_id) end)))
      (i ∷ [])

-- The interrupt that asks for an approval.
abbrev pub approval_request :
    ExecutionContext → ApprovalPolicy → String → String → ℕ → InterruptRecord
approval_request c policy message id created_at = record {
  interrupt_id = id;
  run_id = c.run_record.run_id;
  thread_id = c.thread_record.thread_id;
  node_id = some c.node_state.node_id;
  interrupt_type = InterruptType.approval_required;
  reason_code = policy.approval_reason_code;
  reason_message = message;
  payload = field "approver_type" (Value.text (approver_text policy.approver_type)) (
      field "node_id" (Value.text c.node_state.node_id)
        (field "executor_ref" (Value.text c.node_spec.executor_ref) end));
  status = InterruptStatus.open_status;
  created_at = created_at;
  resolved_at = none;
  resolution_payload = none;
  version = 0;
}

module _ (sv : Services) where
  unfoldable pub ask_approval : ExecutionContext → ApprovalPolicy → Action NodeExecutionResult
  ask_approval c policy = do
    id ← new_id sv "interrupt"
    message ← lift (message_of (fget c.node_spec.config "approval_message"))
    created_at ← now sv
    i ← lift (checked_interrupt (approval_request c policy message id created_at))
    pure (asks i)

  unfoldable pub answer_or_ask :
      ExecutionContext → ApprovalPolicy → Option InterruptRecord → Action NodeExecutionResult
  answer_or_ask c policy (some i) = pure (approved i)
  answer_or_ask c policy none = ask_approval c policy

  unfoldable pub gate : ExecutionContext → ApprovalPolicy → Bool → Action NodeExecutionResult
  gate c policy false = pure (succeeds (some (field "approved" (Value.bool true) end)))
  gate c policy true = get_state c.run_record.run_id >>= λ s.
      answer_or_ask c policy (latest_resolved c.node_state.node_id s)

  -- `_execute_human_gate`
  unfoldable pub execute_human_gate : ExecutionContext → Action NodeExecutionResult
  execute_human_gate c = elim c.node_spec.approval_policy [
    | none ↦ raise
    | some policy ↦ gate c policy policy.is_required
  ]

  module _ (repr : Value → String) where
    -- The built-in nodes, by type; `builtin.` does not make another type one of them.
    unfoldable pub execute_builtin : NodeType → ExecutionContext → Action NodeExecutionResult
    execute_builtin NodeType.noop c = lift (execute_noop c)
    execute_builtin NodeType.condition c = lift (execute_condition c)
    execute_builtin NodeType.merge c = run_merge repr c
    execute_builtin NodeType.human_gate c = execute_human_gate c
    execute_builtin _ c = raise

    -- The first delegate that can.
    unfoldable pub execute_delegate :
        List NodeExecutor → ExecutionContext → Action NodeExecutionResult
    execute_delegate [] c = raise
    execute_delegate (d ∷ ds) c =
        let rest = execute_delegate ds c in
        if d.can_execute c.node_spec.node_type c.node_spec.executor_ref then d.execute c else rest

    -- `execute`
    unfoldable pub execute : List NodeExecutor → ExecutionContext → Action NodeExecutionResult
    execute delegates c =
        if is_builtin c.node_spec.node_type c.node_spec.executor_ref
        then execute_builtin c.node_spec.node_type c
        else execute_delegate delegates c

    -- `can_execute`
    unfoldable pub can_execute : List NodeExecutor → NodeType → String → Bool
    can_execute delegates t executor_ref =
        is_builtin t executor_ref
        || any_of (λ (d : NodeExecutor). d.can_execute t executor_ref) delegates

    -- The executor as the runtime has it.
    abbrev pub basic_executor : List NodeExecutor → NodeExecutor
    basic_executor delegates = record {
      can_execute = can_execute delegates;
      execute = execute delegates;
    }
