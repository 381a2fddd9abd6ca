-- ===== src/Executors/Basic/Untouched.antt =====
-- A built-in node writes nothing, and what a run is left as by a loop with the executors of this
-- folder (src/core/executors/basic.py, tool_executor.py, agent_executor.py).
use agent_roles.Common.{suc, String, refl, ◌∙◌, Bool, true, false, Option, none, some}
use agent_roles.Value.{Value, fget}
use agent_roles.State.Models.{NodeType, InterruptRecord}
use agent_roles.Workflow.Models.{ApprovalPolicy, MergeStrategySpec}
use agent_roles.Contracts.{Services}
use agent_roles.Runtime.Monad.{Action, ◌>>=◌, pure, lift}
use agent_roles.Runtime.Context.{ExecutionContext, NodeExecutionResult}
use agent_roles.Runtime.Store.{now, new_id, get_state}
use agent_roles.Runtime.Keys.{Untouched, Untouched-then}
use agent_roles.Executors.Flow.{execute_merge}
use agent_roles.Executors.Requests.{checked_interrupt}
use agent_roles.Executors.Basic.{
  raise, run_merge, latest_resolved, message_of, approval_request, asks, ask_approval,
  answer_or_ask, gate, execute_human_gate, execute_builtin,
}

-- What follows a step that writes nothing.
after_step :
    {A B : Type 0} (m : Action A) (k : A → Action B)
    → Untouched m
    → ((a : A) → Untouched (k a))
    → Untouched (m >>= k)
after_step m k u q w = Untouched-then (m w) k q ∙ u w

module _ (sv : Services) where
  -- The end of `ask_approval`, and what comes after the identifier.
  abbrev noting : ExecutionContext → ApprovalPolicy → String → String → Action NodeExecutionResult
  noting c policy id message = now sv >>= λ t.
      lift (checked_interrupt (approval_request c policy message id t)) >>= λ i. pure (asks i)

  abbrev asking : ExecutionContext → ApprovalPolicy → String → Action NodeExecutionResult
  asking c policy id =
      lift (message_of (fget c.node_spec.config "approval_message")) >>= noting c policy id

  noting-Untouched :
      (c : ExecutionContext) (policy : ApprovalPolicy) (id message : String)
      → Untouched (noting c policy id message)
  unfolding now
  noting-Untouched c policy id message w =
      Untouched-then
        (
          checked_interrupt (approval_request c policy message id (sv.now w.calls)),
          record w { calls = suc w.calls },
        )
        (λ i. pure (asks i)) (λ i v. refl)

  ask_approval-Untouched :
      (c : ExecutionContext) (policy : ApprovalPolicy) → Untouched (ask_approval sv c policy)
  unfolding ask_approval new_id
  ask_approval-Untouched c policy =
      after_step (new_id sv "interrupt") (asking c policy) (λ w. refl)
        (λ id.
          after_step (lift (message_of (fget c.node_spec.config "approval_message")))
            (noting c policy id) (λ w. refl) (noting-Untouched c policy id))

  gate-Untouched :
      (c : ExecutionContext) (policy : ApprovalPolicy) (b : Bool) → Untouched (gate sv c policy b)
  unfolding gate get_state answer_or_ask
  gate-Untouched c policy false = λ w. refl
  gate-Untouched c policy true =
      after_step (get_state c.run_record.run_id)
        (λ s. answer_or_ask sv c policy (latest_resolved c.node_state.node_id s)) (λ w. refl)
        (λ s. answered (latest_resolved c.node_state.node_id s))
    where
      answered : (o : Option InterruptRecord) → Untouched (answer_or_ask sv c policy o)
      answered none = ask_approval-Untouched c policy
      answered (some i) = λ w. refl

  module _ (repr : Value → String) where
    run_merge-Untouched : (c : ExecutionContext) → Untouched (run_merge repr c)
    unfolding run_merge get_state
    run_merge-Untouched c = merged c.node_spec.merge_strategy
      where
        merged :
            (o : Option MergeStrategySpec)
            → Untouched (elim o as (λ _. Action NodeExecutionResult) [
              | none ↦ raise
              | some strategy ↦
                  get_state c.run_record.run_id >>= λ s. lift (execute_merge repr c strategy s)
            ])
        merged none = λ w. refl
        merged (some strategy) =
            after_step (get_state c.run_record.run_id) (λ s. lift (execute_merge repr c strategy s))
              (λ w. refl) (λ s w. refl)

    human_gate-Untouched : (c : ExecutionContext) → Untouched (execute_human_gate sv c)
    unfolding execute_human_gate
    human_gate-Untouched c = gated c.node_spec.approval_policy
      where
        gated :
            (o : Option ApprovalPolicy)
            → Untouched (elim o as (λ _. Action NodeExecutionResult) [
              | none ↦ raise
              | some policy ↦ gate sv c policy policy.is_required
            ])
        gated none = λ w. refl
        gated (some policy) = gate-Untouched c policy policy.is_required

    -- A built-in node writes nothing into the store of states.
    pub execute_builtin-Untouched :
        (t : NodeType) (c : ExecutionContext) → Untouched (execute_builtin sv repr t c)
    unfolding execute_builtin
    execute_builtin-Untouched NodeType.noop c = λ w. refl
    execute_builtin-Untouched NodeType.condition c = λ w. refl
    execute_builtin-Untouched NodeType.merge c = run_merge-Untouched c
    execute_builtin-Untouched NodeType.human_gate c = human_gate-Untouched c
    execute_builtin-Untouched _ c = λ w. refl
