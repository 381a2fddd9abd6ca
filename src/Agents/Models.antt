-- ===== src/Agents/Models.antt =====
-- The descriptors of agents (src/core/agents/models.py).
use agent_roles.Common.{
  String, Bool, ◌&&◌, Option, none, some, List, [], ◌∷◌, Result, ok, value_error, ◌>>◌, require,
  is_unique, ◌==◌, if◌then◌else◌, all_of, ◌≡◌, refl,
}
use Prim.Native.Char.{Char, code}
use agent_roles.Value.{Fields}
use agent_roles.State.Validation.{non_empty}

pub data AgentStatus : Type 0 where
  active deprecated disabled : AgentStatus

pub record AgentDescriptor : Type 0 where
  pub agent_id : String
  pub name : String
  pub agent_version : String
  pub role : String
  pub description : String
  pub executor_ref : String
  pub status : AgentStatus
  pub domain : Option String
  pub implementation_ref : Option String
  pub tags : List String
  pub tool_refs : List String
  pub memory_scopes : List String
  pub policy_profiles : List String
  pub capabilities : List String
  pub input_contract : Fields
  pub output_contract : Fields
  pub metadata : Fields

-- `AgentDescriptor.__post_init__`
unfoldable pub agent_descriptor_valid : AgentDescriptor → Bool
agent_descriptor_valid d =
    all_of non_empty (
      d.agent_id
      ∷ (d.name ∷ (d.agent_version ∷ (d.role ∷ (d.description ∷ (d.executor_ref ∷ []))))))
    && all_of is_unique
        (d.tags ∷ (d.tool_refs ∷ (d.memory_scopes ∷ (d.policy_profiles ∷ (d.capabilities ∷ [])))))

pub record AgentQuery : Type 0 where
  pub domain : Option String
  pub role : Option String
  pub tags : List String
  pub capabilities : List String
  pub tool_ref : Option String
  pub memory_scope : Option String
  pub status : Option AgentStatus

-- `agent_ref.split(":", 1)`: what is before the first colon, and what is after it if there is one.
abbrev onto_first : Char → String × Option String → String × Option String
onto_first c (a, b) = (String.◌∷◌ c a, b)

unfoldable pub split_colon : String → String × Option String
split_colon String.[] = (String.[], none)
split_colon (String.◌∷◌ c s) =
    let rest = split_colon s in if code c == 58 then (String.[], some s) else onto_first c rest

abbrev checked_parts : String × Option String → Result (String × Option String)
checked_parts (agent_ref, none) = ok (agent_ref, none)
checked_parts (agent_id, some version) = do
  require (non_empty agent_id) value_error
  require (non_empty version) value_error
  ok (agent_id, some version)

-- `split_agent_ref`
unfoldable pub split_agent_ref : String → Result (String × Option String)
split_agent_ref agent_ref = do
  require (non_empty agent_ref) value_error
  checked_parts (split_colon agent_ref)

split_agent_ref_two : split_agent_ref "writer:1.2" ≡ ok ("writer", some "1.2")
unfolding split_agent_ref split_colon non_empty
split_agent_ref_two = refl
