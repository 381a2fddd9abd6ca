-- ===== src/Llm/Registry.antt =====
-- `InMemoryLLMProviderRegistry` (src/core/llm/registry.py).
pub mod Soundness
pub mod Defaults
use agent_roles.Common.{
  String, Bool, true, Option, none, some, List, [], ◌∷◌, Result, ok, err, value_error, ◌>>=◌, ◌>>◌,
  raise_if, require, keep, ◌=ₛ◌, if◌then◌else◌, text_lt,
}
use agent_roles.Common.Dict.{Dict, get, put, values, contains}
use agent_roles.Llm.Models.{LlmProviderConfig, LlmModelProfile}

pub record ProviderRegistry : Type 0 where
  pub providers : Dict LlmProviderConfig
  pub profiles : Dict LlmModelProfile

-- `register_provider`
unfoldable pub register_provider : LlmProviderConfig → ProviderRegistry → Result ProviderRegistry
register_provider c r = do
  raise_if (contains r.providers c.provider_ref) value_error
  ok (record r { providers = put r.providers c.provider_ref c })

-- `register_profile`
unfoldable pub register_profile : LlmModelProfile → ProviderRegistry → Result ProviderRegistry
register_profile p r = do
  raise_if (contains r.profiles p.profile_ref) value_error
  require (contains r.providers p.provider_ref) value_error
  ok (record r { profiles = put r.profiles p.profile_ref p })

abbrev pub of_provider : Option String → LlmModelProfile → Bool
of_provider none p = true
of_provider (some ref) p = p.provider_ref =ₛ ref

abbrev pub lower : LlmModelProfile → Option LlmModelProfile → Option LlmModelProfile
lower p none = some p
lower p (some q) = if text_lt q.profile_ref p.profile_ref then some q else some p

-- The first of the profiles by `profile_ref`, of equal ones the earliest, as after sorting.
unfoldable pub first_profile : List LlmModelProfile → Option LlmModelProfile
first_profile [] = none
first_profile (p ∷ ps) = lower p (first_profile ps)

abbrev pub or_first : Option LlmModelProfile → List LlmModelProfile → Option LlmModelProfile
or_first (some p) ps = some p
or_first none ps = first_profile ps

-- `get_default_profile`
unfoldable pub get_default_profile : Option String → ProviderRegistry → Option LlmModelProfile
get_default_profile provider_ref r =
    let candidates = keep (of_provider provider_ref) (values r.profiles) in
    or_first (first_profile (keep (λ (p : LlmModelProfile). p.is_default) candidates)) candidates
