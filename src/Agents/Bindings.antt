-- ===== src/Agents/Bindings.antt =====
-- src/core/agents/bindings.py: a binding goes into a run's extensions as a dict and comes back. A
-- field that must be a text, and holds something else, raises here; the code prints it.
pub mod Extension
use agent_roles.Common.{
  String, ◌≡◌, refl, Bool, true, ◌&&◌, Option, none, some, List, [], ◌∷◌, Result, ok, err,
  key_error, value_error, type_error, ◌>>=◌, if◌then◌else◌, or_raise, is_unique,
}
use agent_roles.Common.Dict.{Dict}
use agent_roles.Value.{Value, Items, Fields, nil, cons, end, field, fget}
use agent_roles.State.Validation.{non_empty}

pub record ResolvedAgentBinding : Type 0 where
  pub node_id : String
  pub agent_ref : String
  pub resolved_agent_id : String
  pub resolved_version : String
  pub executor_ref : String
  pub implementation_ref : Option String
  pub tool_refs : List String
  pub memory_scopes : List String
  pub policy_profiles : List String
  pub capabilities : List String
  pub metadata : Fields

pub record ResolvedWorkflowBindings : Type 0 where
  pub workflow_id : String
  pub workflow_version : String
  pub agent_bindings_by_node : Dict ResolvedAgentBinding
  pub metadata : Fields

-- `ResolvedAgentBinding.__post_init__`
unfoldable pub binding_valid : ResolvedAgentBinding → Bool
binding_valid b =
    (non_empty b.node_id
      && (non_empty b.agent_ref
          && (non_empty b.resolved_agent_id
              && (non_empty b.resolved_version && non_empty b.executor_ref))))
    && (is_unique b.tool_refs
        && (is_unique b.memory_scopes && (is_unique b.policy_profiles && is_unique b.capabilities)))

abbrev text_or_null : Option String → Value
text_or_null none = Value.null
text_or_null (some s) = Value.text s

abbrev pub texts : List String → Items
texts [] = nil
texts (s ∷ ss) = cons (Value.text s) (texts ss)

-- `ResolvedAgentBinding.to_map`
unfoldable pub to_map : ResolvedAgentBinding → Fields
to_map b = field "node_id" (Value.text b.node_id) (
    field "agent_ref" (Value.text b.agent_ref) (
      field "resolved_agent_id" (Value.text b.resolved_agent_id) (
        field "resolved_version" (Value.text b.resolved_version) (
          field "executor_ref" (Value.text b.executor_ref) (
            field "implementation_ref" (text_or_null b.implementation_ref) (
              field "tool_refs" (Value.arr (texts b.tool_refs)) (
                field "memory_scopes" (Value.arr (texts b.memory_scopes)) (
                  field "policy_profiles" (Value.arr (texts b.policy_profiles)) (
                    field "capabilities" (Value.arr (texts b.capabilities))
                      (field "metadata" (Value.dict b.metadata) end))))))))))

abbrev as_text : Value → Result String
as_text (Value.text s) = ok s
as_text _ = err type_error

abbrev as_optional_text : Value → Result (Option String)
as_optional_text Value.null = ok none
as_optional_text (Value.text s) = ok (some s)
as_optional_text _ = err type_error

as_texts : Items → Result (List String)
as_texts nil = ok []
as_texts (cons v vs) = do s ← as_text v; ss ← as_texts vs; ok (s ∷ ss)

abbrev as_list : Value → Result (List String)
as_list (Value.arr vs) = as_texts vs
as_list _ = err type_error

abbrev pub as_map : Value → Result Fields
as_map (Value.dict d) = ok d
as_map _ = err type_error

-- `payload.get(key, default)`
abbrev pub value_or : Option Value → Value → Value
value_or none d = d
value_or (some v) d = v

abbrev pub required_text : Fields → String → Result String
required_text d k = or_raise (fget d k) key_error >>= as_text

abbrev listed_texts : Fields → String → Result (List String)
listed_texts d k = as_list (value_or (fget d k) (Value.arr nil))

unfoldable pub checked_binding : ResolvedAgentBinding → Result ResolvedAgentBinding
checked_binding b = if binding_valid b then ok b else err value_error

-- `ResolvedAgentBinding.from_map`
unfoldable pub from_map : Fields → Result ResolvedAgentBinding
unfolding as_texts
from_map d = do
  node_id ← required_text d "node_id"
  agent_ref ← required_text d "agent_ref"
  agent_id ← required_text d "resolved_agent_id"
  version ← required_text d "resolved_version"
  executor_ref ← required_text d "executor_ref"
  implementation_ref ← as_optional_text (value_or (fget d "implementation_ref") Value.null)
  tool_refs ← listed_texts d "tool_refs"
  memory_scopes ← listed_texts d "memory_scopes"
  policy_profiles ← listed_texts d "policy_profiles"
  capabilities ← listed_texts d "capabilities"
  metadata ← as_map (value_or (fget d "metadata") (Value.dict end))
  checked_binding (record {
    node_id = node_id;
    agent_ref = agent_ref;
    resolved_agent_id = agent_id;
    resolved_version = version;
    executor_ref = executor_ref;
    implementation_ref = implementation_ref;
    tool_refs = tool_refs;
    memory_scopes = memory_scopes;
    policy_profiles = policy_profiles;
    capabilities = capabilities;
    metadata = metadata;
  })

-- The check of `ResolvedWorkflowBindings.__post_init__`.
unfoldable pub checked_bindings : ResolvedWorkflowBindings → Result ResolvedWorkflowBindings
checked_bindings b =
    if non_empty b.workflow_id && non_empty b.workflow_version then ok b else err value_error

unfoldable pub bindings_map : Dict ResolvedAgentBinding → Fields
bindings_map [] = end
bindings_map ((id, b) ∷ bs) = field id (Value.dict (to_map b)) (bindings_map bs)

-- `ResolvedWorkflowBindings.to_extension_map`
unfoldable pub to_extension_map : ResolvedWorkflowBindings → Fields
to_extension_map b = field "workflow_id" (Value.text b.workflow_id) (
    field "workflow_version" (Value.text b.workflow_version) (
      field "agent_bindings_by_node" (Value.dict (bindings_map b.agent_bindings_by_node))
        (field "metadata" (Value.dict b.metadata) end)))

as_texts-texts : (ss : List String) → as_texts (texts ss) ≡ ok ss
unfolding as_texts
as_texts-texts [] = refl
as_texts-texts (s ∷ ss) = rw (as_texts-texts ss)

as_optional-text_or_null : (o : Option String) → as_optional_text (text_or_null o) ≡ ok o
as_optional-text_or_null none = refl
as_optional-text_or_null (some s) = refl

-- A binding that passes its checks is read back from its dict as it was.
pub from_map-to_map :
    (b : ResolvedAgentBinding) → binding_valid b ≡ true → from_map (to_map b) ≡ ok b
unfolding from_map to_map fget checked_binding
from_map-to_map b v = rw (
  as_texts-texts b.tool_refs,
  as_texts-texts b.memory_scopes,
  as_texts-texts b.policy_profiles,
  as_texts-texts b.capabilities,
  as_optional-text_or_null b.implementation_ref,
  v,
)
