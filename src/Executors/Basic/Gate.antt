-- ===== src/Executors/Basic/Gate.antt =====
-- What a human gate decides (src/core/executors/basic.py).
use agent_roles.Common.{
  ◌≡◌, ◌⊎◌, inl, inr, refl, sym, ap, ◌∙◌, subst, true, Option, none, some, [], ◌∷◌, Occurs, ok,
  ok-injective,
}
use agent_roles.Common.Dict.{values}
use agent_roles.Value.{Value, Fields, end, field, fget}
use agent_roles.State.Models.{
  NodeStatus, InterruptType, InterruptStatus, InterruptRecord, ReducedSnapshot,
}
use agent_roles.State.Validation.{interrupt_valid}
use agent_roles.Stores.State.{build_snapshot}
use agent_roles.Workflow.Models.{ApprovalPolicy}
use agent_roles.Contracts.{Services}
use agent_roles.Runtime.Monad.{World, Action, lift}
use agent_roles.Runtime.Context.{ExecutionContext, NodeExecutionResult}
use agent_roles.Runtime.Rest.{>>=-returned}
use agent_roles.Runtime.Store.{now, new_id, get_state}
use agent_roles.Executors.Requests.{checked_interrupt, valid_checked}
use agent_roles.Executors.Basic.{
  latest_resolved, approved, asks, approval_request, message_of, raise, ask_approval, answer_or_ask,
  gate, execute_human_gate,
}
use agent_roles.Executors.Basic.Answers.{Answers, IsAnswer, latest_resolved-IsAnswer, none_answered}

-- A request for approval of a node: open, and within the checks.
abbrev pub IsRequest : ExecutionContext → ApprovalPolicy → InterruptRecord → Type 0
IsRequest c policy i =
    (i.node_id ≡ some c.node_state.node_id)
    × (i.run_id ≡ c.run_record.run_id)
    × (i.interrupt_type ≡ InterruptType.approval_required)
    × (i.status ≡ InterruptStatus.open_status)
    × (i.reason_code ≡ policy.approval_reason_code)
    × (interrupt_valid i ≡ true)

-- A gate hands on an answer.
abbrev pub Approves : InterruptRecord → Fields → NodeExecutionResult → Type 0
Approves i payload r =
    (r.status ≡ NodeStatus.succeeded)
    × (r.interrupts ≡ [])
    × (r.output
        ≡ some (
            field "approved" (Value.bool true) (
              field "interrupt_id" (Value.text i.interrupt_id)
                (field "resolution" (Value.dict payload) end))))

-- A gate waits for the answer to an interrupt.
abbrev pub Waits : InterruptRecord → NodeExecutionResult → Type 0
Waits i r =
    (r.status ≡ NodeStatus.waiting)
    × (r.interrupts ≡ i ∷ [])
    × (r.output
        ≡ some (
            field "approval_required" (Value.bool true)
              (field "interrupt_id" (Value.text i.interrupt_id) end)))

-- The two ways in which a gate that requires an approval ends.
abbrev pub Gates :
    ExecutionContext → ApprovalPolicy → ReducedSnapshot → NodeExecutionResult → Type 0
Gates c policy s r =
    ((i : InterruptRecord) × (payload : Fields) × IsAnswer c.node_state.node_id s i payload
      × Approves i payload r)
    ⊎ (((j : InterruptRecord) (payload : Fields)
          → Occurs j (values s.interrupts)
          → ¬ (Answers c.node_state.node_id j payload))
        × (i : InterruptRecord) × IsRequest c policy i
        × Waits i r)

approved-Approves :
    (i : InterruptRecord) (payload : Fields) (r : NodeExecutionResult)
    → i.resolution_payload ≡ some payload
    → r ≡ approved i
    → Approves i payload r
approved-Approves i payload r p h = (
  ap (λ x. x.status) h,
  ap (λ x. x.interrupts) h,
  ap (λ x. x.output) h ∙ ap (λ o. (approved (record i { resolution_payload = o })).output) p,
)

asks-Waits : (i : InterruptRecord) (r : NodeExecutionResult) → r ≡ asks i → Waits i r
asks-Waits i r h = (ap (λ x. x.status) h, ap (λ x. x.interrupts) h, ap (λ x. x.output) h)

module _ (sv : Services) (c : ExecutionContext) (policy : ApprovalPolicy) where
  ask_approval-IsRequest :
      (w w' : World) (r : NodeExecutionResult)
      → ask_approval sv c policy w ≡ (ok r, w')
      → (i : InterruptRecord) × IsRequest c policy i × Waits i r
  unfolding ask_approval
  ask_approval-IsRequest w w' r h =
      let (id, v₁, e₁, h₁) = >>=-returned (new_id sv "interrupt") _ w h in
      let message = message_of (fget c.node_spec.config "approval_message") in
      let (m, v₂, e₂, h₂) = >>=-returned (lift message) _ v₁ h₁ in
      let (t, v₃, e₃, h₃) = >>=-returned (now sv) _ v₂ h₂ in
      let made = approval_request c policy m id t in
      let (i, v₄, e₄, h₄) = >>=-returned (lift (checked_interrupt made)) _ v₃ h₃ in
      let (same, valid) = valid_checked made i (ap (λ x. x.0) e₄) in
      (
        i,
        (
          ap (λ x. x.node_id) same,
          ap (λ x. x.run_id) same,
          ap (λ x. x.interrupt_type) same,
          ap (λ x. x.status) same,
          ap (λ x. x.reason_code) same,
          valid,
        ),
        asks-Waits i r (sym (ok-injective (ap (λ x. x.0) h₄))),
      )

  answer_or_ask-Gates :
      (s : ReducedSnapshot) (o : Option InterruptRecord) (w w' : World) (r : NodeExecutionResult)
      → latest_resolved c.node_state.node_id s ≡ o
      → answer_or_ask sv c policy o w ≡ (ok r, w')
      → Gates c policy s r
  unfolding answer_or_ask
  answer_or_ask-Gates s (some i) w w' r e h =
      let (payload, answer) = latest_resolved-IsAnswer c.node_state.node_id s i e in
      inl (
        i,
        payload,
        answer,
        approved-Approves i payload r answer.1.2 (sym (ok-injective (ap (λ x. x.0) h))),
      )
  answer_or_ask-Gates s none w w' r e h =
      let (i, requested, same) = ask_approval-IsRequest w w' r h in
      inr
        (λ j payload o b. none_answered c.node_state.node_id s j payload e o b, i, requested, same)

  gate-Gates :
      (s : ReducedSnapshot) (w w' : World) (r : NodeExecutionResult)
      → build_snapshot w.state_store c.run_record.run_id ≡ ok s
      → gate sv c policy true w ≡ (ok r, w')
      → Gates c policy s r
  unfolding gate get_state
  gate-Gates s w w' r b h =
      let answer = λ (x : ReducedSnapshot). latest_resolved c.node_state.node_id x in
      let (t, v, e, q) =
        >>=-returned (get_state c.run_record.run_id) (λ x. answer_or_ask sv c policy (answer x)) w
          h in
      subst (λ x. Gates c policy x r) (ok-injective (sym (ap (λ x. x.0) e) ∙ b))
        (answer_or_ask-Gates t (answer t) v w' r refl q)

  -- A gate that requires an approval, and returns, ends in one of two ways. Either an interrupt of
  -- its node that is not open has a payload, and the gate succeeds with the payload of the latest
  -- such interrupt and its id, and asks nothing; or there is no such interrupt, and the gate waits
  -- with one request, for approval and open, that names the node, the run and the reason of the
  -- policy.
  pub execute_human_gate-Gates :
      (s : ReducedSnapshot) (w w' : World) (r : NodeExecutionResult)
      → c.node_spec.approval_policy ≡ some policy
      → policy.is_required ≡ true
      → build_snapshot w.state_store c.run_record.run_id ≡ ok s
      → execute_human_gate sv c w ≡ (ok r, w')
      → Gates c policy s r
  unfolding execute_human_gate
  execute_human_gate-Gates s w w' r p q b h = gate-Gates s w w' r b (
      subst (λ x. gate sv c policy x w ≡ (ok r, w')) q
        (subst
          (λ o.
            (elim o as (λ _. Action NodeExecutionResult) [
              | none ↦ raise
              | some x ↦ gate sv c x x.is_required
            ])
              w
            ≡ (ok r, w'))
          p h))
