-- ===== src/Memory/Policy.antt =====
-- `PolicyAwareMemoryProvider` (src/core/memory/policy.py): each operation is put to the policy
-- engine as a side effect on the scope. What is retrieved is the provider's, and of any type.
pub mod Barring
use agent_roles.Common.{
  ℕ, String, Bool, true, false, ◌&&◌, ◌||◌, Option, none, some, List, [], ◌∷◌, Result, ok, err,
  value_error, Error, elem, is_empty, not, if◌then◌else◌, all_of,
}
use agent_roles.Value.{ℤ, Value, Fields, end, field, fget}
use agent_roles.State.Models.{PolicyAction, PolicyDecisionRecord, SideEffectKind, SideEffectRecord}
use agent_roles.State.Validation.{side_effect_valid, non_empty}
use agent_roles.Contracts.{Services}
use agent_roles.Runtime.Monad.{World, Action, continue_with, ◌>>=◌, pure, lift}
use agent_roles.Runtime.Context.{ExecutionContext}
use agent_roles.Runtime.Store.{now, new_id}
use agent_roles.Tools.Models.{PolicyEngine}
use agent_roles.Tools.Policy.{redact_all}
use agent_roles.Executors.Conditions.{truthy}
use agent_roles.Executors.Flow.{str_of}

-- The protocol `MemoryProvider`.
pub record MemoryProvider (R : Type 0) : Type 0 where
  pub retrieve : String → String → ℤ → Option ExecutionContext → Action (List R)
  pub write : Fields → Option ExecutionContext → Action String
  pub summarize : String → Option ExecutionContext → Action Fields

abbrev pub checked_effect : SideEffectRecord → Result SideEffectRecord
checked_effect s = if side_effect_valid s then ok s else err value_error

-- What an operation asks of the engine.
pub record Asked : Type 0 where
  pub operation : String
  pub scope : String
  pub kind : SideEffectKind
  pub args_summary : Fields
  pub is_write : Bool

abbrev pub effect_of : ExecutionContext → Asked → String → ℕ → SideEffectRecord
effect_of context a id created_at = record {
  side_effect_id = id;
  run_id = context.run_record.run_id;
  node_id = context.node_state.node_id;
  kind = a.kind;
  target_type = "memory";
  target_ref = a.scope;
  action = a.operation;
  args_summary = a.args_summary;
  is_idempotent = not a.is_write;
  succeeded = false;
  created_at = created_at;
  metadata = end;
}

-- `decision.action in {ALLOW, REDACT}`
abbrev pub is_passing : PolicyAction → Bool
is_passing PolicyAction.allow = true
is_passing PolicyAction.redact = true
is_passing _ = false

abbrev pub or_refuse : PolicyDecisionRecord → Action (Option PolicyDecisionRecord)
or_refuse c = if is_passing c.action then pure (some c) else λ w. (err Error.policy_error, w)

module _ (sv : Services) (engine : PolicyEngine) where
  unfoldable pub judge : ExecutionContext → Asked → Action (Option PolicyDecisionRecord)
  judge context a = do
    id ← new_id sv "side_effect"
    created_at ← now sv
    effect ← lift (checked_effect (effect_of context a id created_at))
    c ← engine.pre_side_effect context effect
    or_refuse c

-- `_precheck`: without a context or an engine, everything is allowed.
unfoldable pub precheck :
    Services
    → Option PolicyEngine
    → Option ExecutionContext
    → Asked
    → Action (Option PolicyDecisionRecord)
precheck sv (some engine) (some context) a = judge sv engine context a
precheck sv (some engine) none a = pure none
precheck sv none o a = pure none

-- `decision.redactions` where the action is to redact.
unfoldable pub redactions_of : Option PolicyDecisionRecord → List String
redactions_of none = []
redactions_of (some c) = elim c.action [ PolicyAction.redact ↦ c.redactions | _ ↦ [] ]

-- `_redact_query`
unfoldable pub redact_query : List String → String → String
redact_query paths query = if elem "query" paths || elem "*" paths then "" else query

abbrev pub item_or_empty : Option Value → Value
item_or_empty none = Value.null
item_or_empty (some v) = v

-- `str(memory_item.get("scope") or "")`
unfoldable pub scope_of : (Value → String) → Fields → String
scope_of repr item =
    let v = item_or_empty (fget item "scope") in if truthy v then str_of repr v else ""

abbrev pub asks_retrieve : String → String → ℤ → Asked
asks_retrieve query scope top_k = record {
  operation = "retrieve";
  scope = scope;
  kind = SideEffectKind.read_only;
  args_summary = field "query" (Value.text query) (field "top_k" (Value.int top_k) end);
  is_write = false;
}

abbrev pub asks_write : (Value → String) → Fields → Asked
asks_write repr item = record {
  operation = "write";
  scope = scope_of repr item;
  kind = SideEffectKind.local_write;
  args_summary = field "memory_item" (Value.dict item) end;
  is_write = true;
}

abbrev pub asks_summarize : String → Asked
asks_summarize scope = record {
  operation = "summarize";
  scope = scope;
  kind = SideEffectKind.read_only;
  args_summary = end;
  is_write = false;
}

module _ {R : Type 0} (delegate : MemoryProvider R) (repr : Value → String) (sv : Services)
    (engine : Option PolicyEngine) where
  unfoldable pub retrieve : String → String → ℤ → Option ExecutionContext → Action (List R)
  retrieve query scope top_k context =
      precheck sv engine context (asks_retrieve query scope top_k) >>= λ c.
      delegate.retrieve (redact_query (redactions_of c) query) scope top_k context

  unfoldable pub write : Fields → Option ExecutionContext → Action String
  write item context = precheck sv engine context (asks_write repr item) >>= λ c.
      delegate.write (redact_all (redactions_of c) item) context

  unfoldable pub summarize : String → Option ExecutionContext → Action Fields
  summarize scope context =
      precheck sv engine context (asks_summarize scope) >>= λ c. delegate.summarize scope context
