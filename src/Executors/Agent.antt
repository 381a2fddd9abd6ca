-- ===== src/Executors/Agent.antt =====
-- `DomainAgentExecutor` (src/core/executors/agent_executor.py). An implementation of an agent is a
-- protocol (src/core/agents/implementation.py), so a record of functions.
pub mod Selection
use package.text.Mathlib.Text.{starts_with}
use agent_roles.Common.{
  String, Bool, true, false, ◌&&◌, Option, none, some, List, [], ◌∷◌, Result, ok, err, value_error,
  ◌=ₛ◌, if◌then◌else◌, keep,
}
use agent_roles.Value.{Fields, end}
use agent_roles.State.Models.{NodeStatus, NodeType}
use agent_roles.State.Validation.{non_empty}
use agent_roles.Agents.Bindings.{ResolvedAgentBinding}
use agent_roles.Runtime.Monad.{Action, pure}
use agent_roles.Runtime.Context.{ExecutionContext, NodeExecutionResult}

pub record AgentImplementation : Type 0 where
  -- `getattr(implementation, "implementation_ref", None)`
  pub implementation_ref : Option String
  pub can_handle : ResolvedAgentBinding → Bool
  pub invoke : ExecutionContext → Action NodeExecutionResult

abbrev is_agent : NodeType → Bool
is_agent NodeType.agent = true
is_agent _ = false

-- `can_execute`
unfoldable pub can_execute : NodeType → String → Bool
can_execute t executor_ref = is_agent t && starts_with executor_ref "agent."

-- The implementation of a list of one.
unfoldable pub only : List AgentImplementation → Result AgentImplementation
only [] = err value_error
only (i ∷ []) = ok i
only (i ∷ (j ∷ is)) = err value_error

abbrev pub is_named : String → AgentImplementation → Bool
is_named ref i = elim i.implementation_ref [ none ↦ false | some r ↦ r =ₛ ref ]

abbrev pub filled : Option String → Option String
filled none = none
filled (some s) = if non_empty s then some s else none

-- `_select_implementation`
unfoldable pub select_implementation :
    List AgentImplementation → ResolvedAgentBinding → Result AgentImplementation
select_implementation is b = elim (filled b.implementation_ref) [
  | some ref ↦ only (keep (is_named ref) is)
  | none ↦ only (keep (λ (i : AgentImplementation). i.can_handle b) is)
]

-- The result for a node without a binding.
abbrev pub unbound : NodeExecutionResult
unbound = record {
  status = NodeStatus.failed;
  output = none;
  artifact_type = none;
  artifact = none;
  interrupts = [];
  error_code = some "MISSING_AGENT_BINDING";
  error_message = some "domain agent executor requires context.agent_binding";
  policy_decisions = [];
  side_effects = [];
  next_hints = end;
  metadata = end;
}

-- `implementation.invoke(context)`, once one is selected.
unfoldable pub invoke_selected :
    Result AgentImplementation → ExecutionContext → Action NodeExecutionResult
invoke_selected (ok i) c = i.invoke c
invoke_selected (err e) c = λ w. (err e, w)

-- `execute`
unfoldable pub execute : List AgentImplementation → ExecutionContext → Action NodeExecutionResult
execute is c = elim c.agent_binding [
  | none ↦ pure unbound
  | some b ↦ invoke_selected (select_implementation is b) c
]
