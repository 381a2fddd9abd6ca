-- ===== src/Executors/Tool/Outcomes.antt =====
-- What a tool node makes of its tool's result (src/core/executors/tool_executor.py).
use agent_roles.Common.{
  String, ◌≡◌, ◌≢◌, inl, inr, refl, sym, ap, ◌∙◌, Bool, true, false, not, Option, none, some, List,
  [], ◌∷◌, All, Occurs, ok, ok-injective, some-injective, arith, ◌=ₛ◌, Bool-cases, if◌then◌else◌,
}
use agent_roles.State.Models.{
  NodeStatus, InterruptStatus, InterruptRecord, PolicyAction, PolicyDecisionRecord,
}
use agent_roles.State.Validation.{interrupt_valid, non_empty}
use agent_roles.Contracts.{Services}
use agent_roles.Runtime.Monad.{World, lift}
use agent_roles.Runtime.Context.{ExecutionContext, NodeExecutionResult}
use agent_roles.Runtime.Nodes.{code_or}
use agent_roles.Runtime.Rest.{>>=-returned}
use agent_roles.Runtime.Store.{now, new_id}
use agent_roles.Tools.Models.{ToolInvocationResult, ToolInvoker}
use agent_roles.Executors.Requests.{valid_checked}
use agent_roles.Executors.Tool.{
  resolve_tool_ref, is_approval, first_approval, waits, succeeds, fails, approval_request,
  approval_interrupt, conclude, execute,
}

-- No decision asks for an approval.
abbrev pub NoApproval : List PolicyDecisionRecord → Type 0
NoApproval = All (λ (d : PolicyDecisionRecord). d.action ≢ PolicyAction.require_approval)

-- The open interrupt that passes a decision on.
abbrev pub IsRequest : ExecutionContext → PolicyDecisionRecord → InterruptRecord → Type 0
IsRequest c d i =
    (i.node_id ≡ some c.node_state.node_id)
    × (i.run_id ≡ c.run_record.run_id)
    × (i.status ≡ InterruptStatus.open_status)
    × (i.reason_code ≡ d.reason_code)
    × (interrupt_valid i ≡ true)

-- The three ways in which a tool node ends.
pub data Ending (c : ExecutionContext) (told : ToolInvocationResult) (r : NodeExecutionResult)
    : Type 0 where
  waiting :
      (d : PolicyDecisionRecord) (i : InterruptRecord)
      → Occurs d told.policy_decisions
      → d.action ≡ PolicyAction.require_approval
      → r.status ≡ NodeStatus.waiting
      → r.interrupts ≡ i ∷ []
      → IsRequest c d i
      → Ending c told r
  succeeded :
      NoApproval told.policy_decisions
      → told.success ≡ true
      → r.status ≡ NodeStatus.succeeded
      → r.side_effects ≡ told.side_effects
      → Ending c told r
  failed :
      (code : String)
      → NoApproval told.policy_decisions
      → told.success ≡ false
      → r.status ≡ NodeStatus.failed
      → r.error_code ≡ some code
      → non_empty code ≡ true
      → Ending c told r

approval_found :
    (ds : List PolicyDecisionRecord) (d : PolicyDecisionRecord)
    → first_approval ds ≡ some d
    → Occurs d ds × (d.action ≡ PolicyAction.require_approval)
unfolding first_approval
approval_found [] d h = absurd (ground arith)
approval_found (x ∷ xs) d h = elim (Bool-cases (is_approval x.action)) [
  | inl asks ↦
      let same : x ≡ d = some-injective (let k : some x ≡ some d = rw asks at h in k) in
      (inl same, ground arith)
  | inr other ↦
      let (there, asks) =
        approval_found xs d (let k : first_approval xs ≡ some d = rw other at h in k) in
      (inr there, asks)
]

no_approval : (ds : List PolicyDecisionRecord) → first_approval ds ≡ none → NoApproval ds
unfolding first_approval
no_approval [] h = tt
no_approval (x ∷ xs) h = (λ e. ground arith, no_approval xs (ground arith))

code_filled : (o : Option String) → non_empty (code_or o "TOOL_INVOCATION_FAILED") ≡ true
unfolding non_empty
code_filled none = refl
code_filled (some s) = by_test (s =ₛ "") refl
  where
    by_test :
        (b : Bool) → (s =ₛ "") ≡ b → non_empty (if b then "TOOL_INVOCATION_FAILED" else s) ≡ true
    by_test true e = refl
    by_test false e = ap not e

module _ (sv : Services) (c : ExecutionContext) (tool_ref : String) where
  approval_interrupt-IsRequest :
      (d : PolicyDecisionRecord) (w w' : World) (i : InterruptRecord)
      → approval_interrupt sv c tool_ref d w ≡ (ok i, w')
      → IsRequest c d i
  unfolding approval_interrupt
  approval_interrupt-IsRequest d w w' i h =
      let (id, v₁, e₁, h₁) = >>=-returned (new_id sv "interrupt") _ w h in
      let (t, v₂, e₂, h₂) = >>=-returned (now sv) _ v₁ h₁ in
      let (same, valid) = valid_checked (approval_request c tool_ref d id t) i (ap (λ x. x.0) h₂) in
      (
        ap (λ x. x.node_id) same,
        ap (λ x. x.run_id) same,
        ap (λ x. x.status) same,
        ap (λ x. x.reason_code) same,
        valid,
      )

  conclude-Ending :
      (told : ToolInvocationResult) (o : Option PolicyDecisionRecord) (b : Bool) (w w' : World)
      (r : NodeExecutionResult)
      → first_approval told.policy_decisions ≡ o
      → told.success ≡ b
      → conclude sv c tool_ref told o b w ≡ (ok r, w')
      → Ending c told r × (r.policy_decisions ≡ told.policy_decisions)
  unfolding conclude
  conclude-Ending told (some d) b w w' r e s h =
      let (i, v, asked, last) = >>=-returned (approval_interrupt sv c tool_ref d) _ w h in
      let same : r ≡ waits tool_ref told i = sym (ok-injective (ap (λ x. x.0) last)) in
      let (there, asks) = approval_found told.policy_decisions d e in
      (
        waiting d i there asks (ap (λ x. x.status) same) (ap (λ x. x.interrupts) same)
            (approval_interrupt-IsRequest d w v i asked),
        ap (λ x. x.policy_decisions) same,
      )
  conclude-Ending told none true w w' r e s h =
      let same : r ≡ succeeds tool_ref told = sym (ok-injective (ap (λ x. x.0) h)) in
      (
        succeeded (no_approval told.policy_decisions e) s (ap (λ x. x.status) same)
            (ap (λ x. x.side_effects) same),
        ap (λ x. x.policy_decisions) same,
      )
  conclude-Ending told none false w w' r e s h =
      let same : r ≡ fails tool_ref told = sym (ok-injective (ap (λ x. x.0) h)) in
      (
        failed (code_or told.error_code "TOOL_INVOCATION_FAILED")
            (no_approval told.policy_decisions e) s (ap (λ x. x.status) same)
            (ap (λ x. x.error_code) same) (code_filled told.error_code),
        ap (λ x. x.policy_decisions) same,
      )

module _ (sv : Services) (tools : ToolInvoker) (c : ExecutionContext) where
  -- A tool node that returns has called the tool that it names on the input of the node. It waits,
  -- with one open request that passes a decision on, exactly where some decision on the call asks
  -- for an approval; else it succeeds if the tool did, with the tool's side effects, and fails if
  -- not, with an error code that is not empty. The decisions are handed on in every case.
  pub execute-Ending :
      (w w' : World) (r : NodeExecutionResult)
      → execute sv (some tools) c w ≡ (ok r, w')
      → (tool_ref : String) × (told : ToolInvocationResult) × (v : World) × (resolve_tool_ref c
          ≡ ok tool_ref)
        × (tools.invoke tool_ref c.selected_input c w ≡ (ok told, v))
        × Ending c told r
        × (r.policy_decisions ≡ told.policy_decisions)
  unfolding execute
  execute-Ending w w' r h =
      let (tool_ref, u, e, h₁) = >>=-returned (lift (resolve_tool_ref c)) _ w h in
      let (told, v, called, h₂) = >>=-returned (tools.invoke tool_ref c.selected_input c) _ u h₁ in
      let (ending, decisions) =
        conclude-Ending sv c tool_ref told (first_approval told.policy_decisions) told.success v w'
          r refl refl h₂ in
      (
        tool_ref,
        told,
        v,
        ap (λ x. x.0) e,
        ap (tools.invoke tool_ref c.selected_input c) (ap (λ x. x.1) e) ∙ called,
        ending,
        decisions,
      )
