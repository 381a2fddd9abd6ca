-- ===== src/Selector/Paths.antt =====
-- Values at dotted paths, and the views of records that paths walk (src/core/state/selectors.py). A
-- path never names a method: of a value that is no dict and no record it finds nothing.
use agent_roles.Common.{
  ℕ, String, Option, none, some, List, [], ◌∷◌, Result, ok, err, key_error, ◌>>=◌, ◌=ₛ◌,
  if◌then◌else◌, or_raise,
}
use agent_roles.Value.{pos, Value, Items, Fields, nil, cons, end, field, fget, fput, split_path}
use agent_roles.State.Models.{
  ThreadStatus, RunStatus, BudgetUsage, ThreadState, RunState, ArtifactRecord, PolicyAction,
}

-- One segment of a path.
unfoldable pub step_into : Value → String → Result Value
step_into (Value.dict d) part = or_raise (fget d part) key_error
step_into (Value.object d) part = or_raise (fget d part) key_error
step_into _ part = err key_error

unfoldable pub extract_parts : List String → Value → Result Value
extract_parts [] v = ok v
extract_parts (p ∷ ps) v = step_into v p >>= λ w. extract_parts ps w

-- `_extract_path`
unfoldable pub extract_path : Value → Option String → Result Value
extract_path v none = ok v
extract_path v (some path) = if path =ₛ "" then ok v else extract_parts (split_path path) v

-- `_deep_merge`
unfoldable pub deep_merge : Fields → Fields → Fields
deep_merge base end = base
deep_merge base (field k (Value.dict e) rest) =
    let merged : Value = elim (fget base k) [
      | some (Value.dict d) ↦ Value.dict (deep_merge d e)
      | _ ↦ Value.dict e
    ] in
    deep_merge (fput base k merged) rest
deep_merge base (field k v rest) = deep_merge (fput base k v) rest

abbrev pub optional_text : Option String → Value
optional_text none = Value.null
optional_text (some s) = Value.text s

-- `_artifact_payload`
unfoldable pub artifact_payload : ArtifactRecord → Value
artifact_payload a = elim a.payload_inline [
  | some d ↦ Value.dict d
  | none ↦ Value.dict (
      field "payload_ref" (optional_text a.payload_ref) (
        field "summary" (optional_text a.summary) (
          field "quality_status" (optional_text a.quality_status)
            (field "artifact_type" (Value.text a.artifact_type) end))))
]

abbrev pub thread_status_text : ThreadStatus → String
thread_status_text ThreadStatus.created = "created"
thread_status_text ThreadStatus.active = "active"
thread_status_text ThreadStatus.paused = "paused"
thread_status_text ThreadStatus.completed = "completed"
thread_status_text ThreadStatus.failed = "failed"
thread_status_text ThreadStatus.archived = "archived"

abbrev pub run_status_text : RunStatus → String
run_status_text RunStatus.queued = "queued"
run_status_text RunStatus.running = "running"
run_status_text RunStatus.waiting = "waiting"
run_status_text RunStatus.interrupted = "interrupted"
run_status_text RunStatus.completed = "completed"
run_status_text RunStatus.failed = "failed"
run_status_text RunStatus.cancelled = "cancelled"

abbrev pub action_text : PolicyAction → String
action_text PolicyAction.allow = "allow"
action_text PolicyAction.deny = "deny"
action_text PolicyAction.require_approval = "require_approval"
action_text PolicyAction.redact = "redact"
action_text PolicyAction.degrade = "degrade"
action_text PolicyAction.retry_later = "retry_later"

abbrev number : ℕ → Value
number n = Value.int (pos n)

abbrev pub texts : List String → Items
texts [] = nil
texts (s ∷ ss) = cons (Value.text s) (texts ss)

abbrev pub text_list : List String → Value
text_list ss = Value.arr (texts ss)

abbrev optional_number : Option ℕ → Value
optional_number none = Value.null
optional_number (some n) = number n

-- The attributes of a `ThreadState`.
unfoldable pub thread_state_value : ThreadState → Value
thread_state_value s = Value.object (
    field "thread_id" (Value.text s.thread_id) (
      field "goal" (Value.text s.goal) (
        field "global_context" (Value.dict s.global_context) (
          field "shared_memory_refs" (text_list s.shared_memory_refs) (
            field "artifact_ids" (text_list s.artifact_ids) (
              field "active_run_id" (optional_text s.active_run_id) (
                field "thread_status" (Value.text (thread_status_text s.thread_status)) (
                  field "extensions" (Value.dict s.extensions)
                    (field "version" (number s.version) end)))))))))

abbrev budget_value : BudgetUsage → Value
budget_value b = Value.object (
    field "model_tokens_used" (number b.model_tokens_used) (
      field "tool_calls_used" (number b.tool_calls_used) (
        field "external_writes_used" (number b.external_writes_used) (
          field "runtime_ms_used" (number b.runtime_ms_used) (
            field "estimated_cost_usd" (optional_number b.estimated_cost_usd)
              (field "metadata" (Value.dict b.metadata) end))))))

-- The attributes of a `RunState`.
unfoldable pub run_state_value : RunState → Value
run_state_value s = Value.object (
    field "run_id" (Value.text s.run_id) (
      field "thread_id" (Value.text s.thread_id) (
        field "workflow_id" (Value.text s.workflow_id) (
          field "workflow_version" (Value.text s.workflow_version) (
            field "status" (Value.text (run_status_text s.status)) (
              field "frontier" (text_list s.frontier) (
                field "completed_nodes" (text_list s.completed_nodes) (
                  field "failed_nodes" (text_list s.failed_nodes) (
                    field "waiting_nodes" (text_list s.waiting_nodes) (
                      field "blocked_nodes" (text_list s.blocked_nodes) (
                        field "active_nodes" (text_list s.active_nodes) (
                          field "pending_interrupt_ids" (text_list s.pending_interrupt_ids) (
                            field "pending_approval_ids" (text_list s.pending_approval_ids) (
                              field "budget_usage" (budget_value s.budget_usage) (
                                field "last_event_id" (optional_text s.last_event_id) (
                                  field "extensions" (Value.dict s.extensions)
                                    (field "version" (number s.version) end)))))))))))))))))
