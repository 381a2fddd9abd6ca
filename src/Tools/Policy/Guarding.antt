-- ===== src/Tools/Policy/Guarding.antt =====
-- What reaches a tool that a policy governs, and what its caller is told
-- (src/core/tools/policy.py).
use agent_roles.Common.{
  String, ◌≡◌, ◌≢◌, ◌⊎◌, inl, inr, refl, sym, ap, ◌∙◌, subst, true, false, none, some, List, [],
  ◌∷◌, Result, ok, err, ok-injective, value_error, arith, Bool-cases,
}
use agent_roles.Value.{Fields, end}
use agent_roles.State.Models.{PolicyAction, PolicyDecisionRecord}
use agent_roles.State.Validation.{non_empty}
use agent_roles.Runtime.Monad.{World, Action, continue_with, ◌>>=◌, pure}
use agent_roles.Runtime.Context.{ExecutionContext}
use agent_roles.Runtime.Rest.{>>=-returned}
use agent_roles.Tools.Models.{
  ToolDescriptor, ToolInvocationRequest, ToolInvocationResult, ToolInvoker, PolicyEngine,
}
use agent_roles.Tools.Policy.{
  redact_all, attach, noted_action, noted_redactions, stopped, stop_code, Verdict, verdict,
  checked_request, follow, act_on_decision, governed, invoke,
}
use agent_roles.Tools.Policy.Redaction.{Hides, redact_all-Hides}

-- A decision comes first among those of a result.
abbrev pub LeadsWith : PolicyDecisionRecord → List PolicyDecisionRecord → Type 0
LeadsWith c [] = ⊥
LeadsWith c (first ∷ _) = first ≡ c

-- The input that a tool may see.
abbrev pub MaySee : PolicyDecisionRecord → Fields → Fields → Type 0
MaySee c input seen =
    ((c.action ≡ PolicyAction.allow) × (seen ≡ input))
    ⊎ ((c.action ≡ PolicyAction.redact) × Hides c.redactions seen)

module _ (a : PolicyAction) (rs : List String) where
  passed : verdict a rs ≡ Verdict.pass → a ≡ PolicyAction.allow
  unfolding verdict
  passed h = ground arith

  was_redacted : verdict a rs ≡ Verdict.redacted → a ≡ PolicyAction.redact
  unfolding verdict
  was_redacted h = ground arith

  was_stopped : verdict a rs ≡ Verdict.stop → a ≢ PolicyAction.allow
  unfolding verdict
  was_stopped h e = ground arith

module _ (delegate : ToolInvoker) (tool_ref : String) (input : Fields) (context : ExecutionContext)
    (c : PolicyDecisionRecord) where
  -- From the world in which the decision was made to the result: either the tool ran, on what it
  -- may see, or nothing happened.
  abbrev pub IsGuarded : World → ToolInvocationResult → World → Type 0
  IsGuarded v r w' =
      LeadsWith c r.policy_decisions
      × (((seen : Fields) × (told : ToolInvocationResult) × MaySee c input seen
            × (delegate.invoke tool_ref seen context v ≡ (ok told, w'))
            × (r.success ≡ told.success)
            × (r.output ≡ told.output))
          ⊎ ((c.action ≢ PolicyAction.allow) × (r.success ≡ false) × (w' ≡ v)))

  ran :
      (seen noted : Fields) (v w' : World) (r : ToolInvocationResult)
      → MaySee c input seen
      → (delegate.invoke tool_ref seen context >>= λ told. pure (attach c noted told)) v
        ≡ (ok r, w')
      → IsGuarded v r w'
  ran seen noted v w' r may h =
      let (told, u, e, q) =
        >>=-returned (delegate.invoke tool_ref seen context) (λ told. pure (attach c noted told)) v
          h in
      (ground arith, inl (seen, told, may, ground arith, ground arith, ground arith))

  halted :
      (v w' : World) (r : ToolInvocationResult)
      → c.action ≢ PolicyAction.allow
      → pure (stopped tool_ref c (stop_code c.action)) v ≡ (ok r, w')
      → IsGuarded v r w'
  halted v w' r n h = (ground arith, inr (n, ground arith, ground arith))

  acted :
      (x : Verdict) (v w' : World) (r : ToolInvocationResult)
      → verdict c.action c.redactions ≡ x
      → follow delegate x tool_ref input context c v ≡ (ok r, w')
      → IsGuarded v r w'
  unfolding follow
  acted Verdict.pass v w' r e h =
      ran input (noted_action c) v w' r (inl (passed c.action c.redactions e, refl)) h
  acted Verdict.redacted v w' r e h =
      ran (redact_all c.redactions input) (noted_redactions c) v w' r
        (inr (was_redacted c.action c.redactions e, redact_all-Hides c.redactions input)) h
  acted Verdict.stop v w' r e h = halted v w' r (was_stopped c.action c.redactions e) h

-- The request that the engine judges.
abbrev pub request_of : String → Fields → ExecutionContext → ToolInvocationRequest
request_of tool_ref input context = record {
  tool_ref = tool_ref;
  tool_input = input;
  caller_node_id = some context.node_state.node_id;
  trace_context = context.trace_context;
  metadata = end;
}

checked_request_lem :
    (asked request : ToolInvocationRequest) (w u : World)
    → checked_request asked w ≡ (ok request, u)
    → (request ≡ asked) × (u ≡ w)
checked_request_lem asked request w u h = elim (Bool-cases (non_empty asked.tool_ref)) [
  | inl filled ↦
      let k : (ok asked, w) ≡ (ok request, u) = rw filled at h in
      (sym (ok-injective (ap (λ x. x.0) k)), sym (ap (λ x. x.1) k))
  | inr empty ↦
      let k : ◌≡◌ {A = Result ToolInvocationRequest × World} (err value_error, w) (ok request, u) =
        rw empty at h in
      absurd (ground arith)
]

module _ (delegate : ToolInvoker) (engine : PolicyEngine) (d : ToolDescriptor) where
  governed_lem :
      (tool_ref : String) (input : Fields) (context : ExecutionContext) (w w' : World)
      (r : ToolInvocationResult)
      → governed delegate engine d tool_ref input context w ≡ (ok r, w')
      → (c : PolicyDecisionRecord) × (v : World) × (engine.pre_tool_invoke d
            (request_of tool_ref input context)
            context
            w
          ≡ (ok c, v))
        × IsGuarded delegate tool_ref input context c v r w'
  unfolding governed
  governed_lem tool_ref input context w w' r h =
      let asked = request_of tool_ref input context in
      let (request, u, e, rest) = >>=-returned (checked_request asked) _ w h in
      let (same, still) = checked_request_lem asked request w u e in
      let (c, v, judged, q) =
        >>=-returned (engine.pre_tool_invoke d request context)
          (λ c. act_on_decision delegate tool_ref input context c) u rest in
      (
        c,
        v,
        ap (engine.pre_tool_invoke d asked context) (sym still)
            ∙ ap (λ x. engine.pre_tool_invoke d x context u) (sym same)
            ∙ judged,
        acted delegate tool_ref input context c (verdict c.action c.redactions) v w' r refl q,
      )

  -- A call that returns, of a tool with a descriptor and under an engine, was judged first. Its
  -- result leads with the decision. Either the decision allowed it and the tool ran on the input,
  -- or it asked for redactions and the tool ran on an input in which none of the redacted paths
  -- leads anywhere, or the tool did not run: then the result is a failure, and nothing has happened
  -- since the decision.
  pub invoke-IsGuarded :
      (tool_ref : String) (input : Fields) (context : ExecutionContext) (w w' : World)
      (r : ToolInvocationResult)
      → delegate.get_descriptor tool_ref ≡ some d
      → invoke delegate (some engine) tool_ref input context w ≡ (ok r, w')
      → (c : PolicyDecisionRecord) × (v : World) × (engine.pre_tool_invoke d
            (request_of tool_ref input context)
            context
            w
          ≡ (ok c, v))
        × IsGuarded delegate tool_ref input context c v r w'
  unfolding invoke
  invoke-IsGuarded tool_ref input context w w' r found h =
      governed_lem tool_ref input context w w' r (
        subst
          (λ o.
            (elim o as (λ _. Action ToolInvocationResult) [
              | none ↦ delegate.invoke tool_ref input context
              | some d' ↦ governed delegate engine d' tool_ref input context
            ])
              w
            ≡ (ok r, w'))
          found h)

  -- A decision that stops a call.
  pub governed_stop :
      (tool_ref : String) (input : Fields) (context : ExecutionContext) (w v : World)
      (c : PolicyDecisionRecord)
      → non_empty tool_ref ≡ true
      → engine.pre_tool_invoke d (request_of tool_ref input context) context w ≡ (ok c, v)
      → verdict c.action c.redactions ≡ Verdict.stop
      → governed delegate engine d tool_ref input context w
        ≡ (ok (stopped tool_ref c (stop_code c.action)), v)
  unfolding governed follow
  governed_stop tool_ref input context w v c filled judged stops = rw filled (
      ap (λ x. continue_with x (λ c. act_on_decision delegate tool_ref input context c)) judged
      ∙ ap (λ x. follow delegate x tool_ref input context c v) stops)
