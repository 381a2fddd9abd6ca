-- ===== src/Executors/Tool/Approval.antt =====
-- A tool node whose tool needs an approval (src/core/executors/tool_executor.py,
-- src/core/tools/policy.py, src/core/policies/static.py).
use agent_roles.Common.{
  ℕ, suc, String, ◌≡◌, inr, refl, ap, ◌∙◌, Bool, true, false, some, [], ◌∷◌, ok, arith, elem,
}
use agent_roles.State.Models.{NodeStatus, InterruptRecord, PolicyAction, PolicyDecisionRecord}
use agent_roles.State.Validation.{decision_valid, interrupt_valid, non_empty}
use agent_roles.Contracts.{Services}
use agent_roles.Runtime.Monad.{World, continue_with, ◌>>=◌}
use agent_roles.Runtime.Context.{ExecutionContext, NodeExecutionResult}
use agent_roles.Runtime.Store.{now, new_id}
use agent_roles.Tools.Models.{ToolDescriptor, ToolInvocationResult, ToolInvoker}
use agent_roles.Tools.Policy.{policy_aware}
use agent_roles.Tools.Static.{StaticPolicyEngine, static_engine}
use agent_roles.Tools.Static.Decisions.{invoke-barred}
use agent_roles.Executors.Requests.{checked_interrupt}
use agent_roles.Executors.Tool.{
  resolve_tool_ref, first_approval, waits, approval_request, approval_interrupt, conclude, execute,
}
use agent_roles.Executors.Tool.Outcomes.{IsRequest}

-- What an approved record of a decision gives its interrupt.
request_valid :
    (sv : Services) (c : ExecutionContext) (tool_ref : String) (d : PolicyDecisionRecord) (n t : ℕ)
    → decision_valid d ≡ true
    → non_empty c.run_record.run_id ≡ true
    → non_empty c.thread_record.thread_id ≡ true
    → interrupt_valid (approval_request c tool_ref d (sv.new_id "interrupt" n) t) ≡ true
unfolding decision_valid interrupt_valid non_empty
request_valid sv c tool_ref d n t v r h = ground (arith, sv.new_id_filled "interrupt" n)

module _ (sv : Services) (c : ExecutionContext) (tool_ref : String) where
  conclude-waits :
      (told : ToolInvocationResult) (d : PolicyDecisionRecord) (b : Bool) (w : World)
      → decision_valid d ≡ true
      → non_empty c.run_record.run_id ≡ true
      → non_empty c.thread_record.thread_id ≡ true
      → (i : InterruptRecord) × (conclude sv c tool_ref told (some d) b w
          ≡ (ok (waits tool_ref told i), record w { calls = suc (suc w.calls) }))
        × IsRequest c d i
  unfolding conclude approval_interrupt new_id now
  conclude-waits told d b w v r h =
      let valid = request_valid sv c tool_ref d w.calls (sv.now (suc w.calls)) v r h in
      (
        approval_request c tool_ref d (sv.new_id "interrupt" w.calls) (sv.now (suc w.calls)),
        rw (valid, checked_interrupt) refl,
        (refl, refl, refl, refl, valid),
      )

approval_first :
    (d : PolicyDecisionRecord)
    → d.action ≡ PolicyAction.require_approval
    → first_approval (d ∷ []) ≡ some d
unfolding first_approval
approval_first d e = ground arith

module _ (tools : ToolInvoker) (e : StaticPolicyEngine) (sv : Services) (d : ToolDescriptor)
    (c : ExecutionContext) (w : World) where
  -- A tool node whose tool is listed for approval, and not as denied, waits: its execution returns
  -- with one open request for the node that gives the policy's reason, the tool has not run, and
  -- only the clock and the identifiers have been asked. The tool has a descriptor, and none of the
  -- names that are recorded is empty.
  pub execute-waits :
      resolve_tool_ref c ≡ ok d.tool_ref
      → tools.get_descriptor d.tool_ref ≡ some d
      → non_empty d.tool_ref ≡ true
      → non_empty c.run_record.run_id ≡ true
      → non_empty c.thread_record.thread_id ≡ true
      → non_empty e.policy_name ≡ true
      → elem d.tool_ref e.deny_tool_refs ≡ false
      → elem d.tool_ref e.approval_tool_refs ≡ true
      → (r : NodeExecutionResult) × (i : InterruptRecord) × (x : PolicyDecisionRecord) × (execute sv
            (some (policy_aware tools (some (static_engine e sv))))
            c
            w
          ≡ (ok r, record w { calls = suc (suc (suc (suc w.calls))) }))
        × (r.status ≡ NodeStatus.waiting)
        × (r.interrupts ≡ i ∷ [])
        × (r.policy_decisions ≡ x ∷ [])
        × IsRequest c x i
  unfolding execute
  execute-waits resolves found filled run thread name undenied listed =
      let (x, told, called, stopped, effects, decided, valid, rules) =
        invoke-barred tools e sv d c.selected_input c w found filled run name (inr listed) in
      let asks : x.action ≡ PolicyAction.require_approval = rules.approval.1 (undenied, listed) in
      let first : first_approval told.policy_decisions ≡ some x =
        ap first_approval decided ∙ approval_first x asks in
      let (i, ends, request) =
        conclude-waits sv c d.tool_ref told x told.success (record w { calls = suc (suc w.calls) })
          valid run thread in
      (
        waits d.tool_ref told i,
        i,
        x,
        ap
              (λ y.
                continue_with (y, w)
                  (λ ref.
                    (policy_aware tools (some (static_engine e sv))).invoke ref c.selected_input c
                    >>= λ r. conclude sv c ref r (first_approval r.policy_decisions) r.success))
              resolves
            ∙ ap
                (λ y.
                  continue_with y
                    (λ r. conclude sv c d.tool_ref r (first_approval r.policy_decisions) r.success))
                called
            ∙ ap
                (λ o.
                  conclude sv c d.tool_ref told o told.success
                    (record w { calls = suc (suc w.calls) }))
                first
            ∙ ends,
        refl,
        refl,
        decided,
        request,
      )
