-- ===== src/Tools/Static/Decisions.antt =====
-- What the static policy decides, and that a denied tool never runs (src/core/policies/static.py).
use Prim.Native.String.{◌++◌ as join, count}
use text.Mathlib.TextLemmas.{length-append}
use agent_roles.Common.{
  suc, String, ◌≡◌, ◌↔◌, ◌&&◌, ◌⊎◌, inl, inr, refl, ap, ◌∙◌, Bool, true, false, Option, none, some,
  List, [], ◌∷◌, ok, arith, elem, Bool-cases, if◌then◌else◌, ◌=ₛ◌, is_unique, eq_iff,
}
use agent_roles.Common.Dict.{get}
use agent_roles.Value.{Fields}
use agent_roles.State.Models.{PolicyAction, PolicyDecisionRecord}
use agent_roles.State.Validation.{decision_valid, non_empty}
use agent_roles.Contracts.{Services}
use agent_roles.Runtime.Monad.{World}
use agent_roles.Runtime.Context.{ExecutionContext}
use agent_roles.Runtime.Store.{now, new_id}
use agent_roles.Tools.Models.{
  ToolDescriptor, ToolInvocationRequest, ToolInvocationResult, ToolInvoker,
}
use agent_roles.Tools.Policy.{stopped, stop_code, Verdict, verdict, invoke}
use agent_roles.Tools.Policy.Guarding.{request_of, governed_stop}
use agent_roles.Tools.Static.{
  StaticPolicyEngine, Ruling, redaction_or_none, tool_ruling, decision_of, decision,
  pre_tool_invoke, static_engine,
}

-- What the tool's reference alone decides: a denial first, then a demand for approval, then
-- redactions, which are the listed paths, and else it is allowed.
pub record Rules (e : StaticPolicyEngine) (tool_ref : String) (action : PolicyAction)
    (redactions : List String) : Type 0 where
  pub denied : (action ≡ PolicyAction.deny) ↔ (elem tool_ref e.deny_tool_refs ≡ true)
  pub approval :
      (action ≡ PolicyAction.require_approval)
      ↔ ((elem tool_ref e.deny_tool_refs ≡ false) × (elem tool_ref e.approval_tool_refs ≡ true))
  pub redacts :
      (paths : List String)
      → ((action ≡ PolicyAction.redact) × (redactions ≡ paths)) ↔ (
          (elem tool_ref e.deny_tool_refs ≡ false)
          × (elem tool_ref e.approval_tool_refs ≡ false)
          × (get e.redact_tool_refs tool_ref ≡ some paths))
  pub allows : (action ≡ PolicyAction.allow) ↔ (
      (elem tool_ref e.deny_tool_refs ≡ false)
      × (elem tool_ref e.approval_tool_refs ≡ false)
      × (get e.redact_tool_refs tool_ref ≡ none))

module _ (e : StaticPolicyEngine) (tool_ref : String) where
  ruling-Rules :
      Rules e tool_ref (tool_ruling e tool_ref).action (tool_ruling e tool_ref).redactions
  unfolding tool_ruling
  ruling-Rules = record {
    denied = (λ h. ground arith, λ h. ground arith);
    approval = (λ h. ground arith, λ h. ground arith);
    redacts = λ paths. (λ h. ground arith, λ h. ground arith);
    allows = (λ h. ground arith, λ h. ground arith);
  }

module _ (e : StaticPolicyEngine) (sv : Services) (d : ToolDescriptor)
    (request : ToolInvocationRequest) (context : ExecutionContext) where
  decided :
      (w v : World) (c : PolicyDecisionRecord)
      → pre_tool_invoke e sv d request context w ≡ (ok c, v)
      → (c.action ≡ (tool_ruling e d.tool_ref).action)
        × (c.redactions ≡ (tool_ruling e d.tool_ref).redactions)
        × (v.state_store ≡ w.state_store)
  unfolding pre_tool_invoke decision new_id now
  decided w v c h = ground arith

  -- The decision on a call of a tool, if one is made, follows the tool's reference: it is a denial
  -- exactly for the tools listed as denied; of the others, a demand for approval exactly for those
  -- listed for that; of the rest, a redaction exactly for those with paths listed, of these paths;
  -- and it allows the call exactly for the tools that none of these names.
  pub pre_tool_invoke-Rules :
      (w v : World) (c : PolicyDecisionRecord)
      → pre_tool_invoke e sv d request context w ≡ (ok c, v)
      → Rules e d.tool_ref c.action c.redactions
  pre_tool_invoke-Rules w v c h =
      let (a, r, _) = decided w v c h in rw (a, r) (ruling-Rules e d.tool_ref)

-- A ruling has a code and a message.
abbrev IsWorded : Ruling → Type 0
IsWorded r = (non_empty r.reason_code && non_empty r.reason_message) ≡ true

if-IsWorded : (b : Bool) (x y : Ruling) → IsWorded x → IsWorded y → IsWorded (if b then x else y)
if-IsWorded true x y h k = h
if-IsWorded false x y h k = k

-- A message that begins with some text is not empty.
begun_filled : (s : String) → non_empty (join "tool '" s) ≡ true
unfolding non_empty
begun_filled s = elim (Bool-cases (join "tool '" s =ₛ "")) [
  | inl empty ↦
      absurd
        (omega (arith, length-append "tool '" s, ap count ((eq_iff (join "tool '" s) "").0 empty)))
  | inr filled ↦ rw filled refl
]

last-IsWorded :
    (e : StaticPolicyEngine) (tool_ref : String) (o : Option (List String))
    → IsWorded (redaction_or_none e tool_ref o)
unfolding non_empty
last-IsWorded e tool_ref none = begun_filled (join tool_ref (join "'" " allowed"))
last-IsWorded e tool_ref (some paths) =
    begun_filled (join tool_ref (join "'" " input redacted by policy"))

tool_ruling-IsWorded :
    (e : StaticPolicyEngine) (tool_ref : String) → IsWorded (tool_ruling e tool_ref)
unfolding tool_ruling non_empty
tool_ruling-IsWorded e tool_ref =
    if-IsWorded (elem tool_ref e.deny_tool_refs) _ _
      (begun_filled (join tool_ref (join "'" " denied by policy")))
      (if-IsWorded (elem tool_ref e.approval_tool_refs) _ _
        (begun_filled (join tool_ref (join "'" " requires approval")))
        (last-IsWorded e tool_ref (get e.redact_tool_refs tool_ref)))

module _ (e : StaticPolicyEngine) (sv : Services) (d : ToolDescriptor)
    (request : ToolInvocationRequest) (context : ExecutionContext) where
  -- A denial or a demand for approval lists no redactions, so the decision is always recorded.
  ruled :
      (w : World)
      → non_empty context.run_record.run_id ≡ true
      → non_empty e.policy_name ≡ true
      → is_unique (tool_ruling e d.tool_ref).redactions ≡ true
      → (c : PolicyDecisionRecord) × (pre_tool_invoke e sv d request context w
          ≡ (ok c, record w { calls = suc (suc w.calls) }))
        × (decision_valid c ≡ true)
  unfolding pre_tool_invoke decision new_id now decision_valid non_empty
  ruled w a b u = (
    decision_of e context (tool_ruling e d.tool_ref) (sv.new_id "policy" w.calls)
        (sv.now (suc w.calls)),
    ground (arith, sv.new_id_filled "policy" w.calls, tool_ruling-IsWorded e d.tool_ref),
    ground (arith, sv.new_id_filled "policy" w.calls, tool_ruling-IsWorded e d.tool_ref),
  )

-- The tool is on the list of those that are denied, or that need approval.
abbrev pub IsBarred : StaticPolicyEngine → String → Type 0
IsBarred e tool_ref =
    (elem tool_ref e.deny_tool_refs ≡ true) ⊎ (elem tool_ref e.approval_tool_refs ≡ true)

barred_ruling :
    (e : StaticPolicyEngine) (tool_ref : String)
    → IsBarred e tool_ref
    → (verdict (tool_ruling e tool_ref).action (tool_ruling e tool_ref).redactions ≡ Verdict.stop)
      × (is_unique (tool_ruling e tool_ref).redactions ≡ true)
unfolding tool_ruling verdict
barred_ruling e tool_ref (inl denied) = ground arith
barred_ruling e tool_ref (inr approval) = ground arith

module _ (delegate : ToolInvoker) (e : StaticPolicyEngine) (sv : Services) (d : ToolDescriptor)
    (input : Fields) (context : ExecutionContext) (w : World) where
  -- A tool on the list of those that are denied, or that need approval, never runs: its call
  -- returns a failure with the decision and no side effects, and only the clock and the identifiers
  -- have been asked. The tool has a descriptor, and none of the names that a decision records is
  -- empty.
  pub invoke-barred :
      delegate.get_descriptor d.tool_ref ≡ some d
      → non_empty d.tool_ref ≡ true
      → non_empty context.run_record.run_id ≡ true
      → non_empty e.policy_name ≡ true
      → IsBarred e d.tool_ref
      → (c : PolicyDecisionRecord) × (r : ToolInvocationResult) × (invoke delegate
            (some (static_engine e sv))
            d.tool_ref
            input
            context
            w
          ≡ (ok r, record w { calls = suc (suc w.calls) }))
        × (r.success ≡ false)
        × (r.side_effects ≡ [])
        × (r.policy_decisions ≡ c ∷ [])
        × (decision_valid c ≡ true)
        × Rules e d.tool_ref c.action c.redactions
  unfolding invoke
  invoke-barred found filled run name barred =
      let asked = request_of d.tool_ref input context in
      let (stops, unique) = barred_ruling e d.tool_ref barred in
      let (c, judged, valid) = ruled e sv d asked context w run name unique in
      let (a, rs, _) = decided e sv d asked context w _ c judged in
      let stopping : verdict c.action c.redactions ≡ Verdict.stop =
        ap (λ x. verdict x c.redactions) a
        ∙ ap (verdict (tool_ruling e d.tool_ref).action) rs
        ∙ stops in
      (
        c,
        stopped d.tool_ref c (stop_code c.action),
        rw (found, invoke)
            (governed_stop delegate (static_engine e sv) d d.tool_ref input context w _ c filled
              judged stopping),
        refl,
        refl,
        refl,
        valid,
        pre_tool_invoke-Rules e sv d asked context w _ c judged,
      )
