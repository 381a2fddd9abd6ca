-- ===== src/Llm/Invoker.antt =====
-- `RoutingLLMInvoker` (src/core/llm/invoker.py), over the registry of src/core/llm/registry.py.
pub mod Routing
use agent_roles.Common.{
  ℕ, String, Bool, true, false, Option, none, some, List, [], ◌∷◌, Result, ok, err, value_error,
  ◌>>=◌, ◌>>◌, or_raise, ◌=ₛ◌, if◌then◌else◌,
}
use agent_roles.Common.Dict.{get}
use agent_roles.Llm.Models.{
  LlmProviderKind, LlmProviderConfig, LlmModelProfile, LlmRequest, LlmResult,
}
use agent_roles.Llm.Registry.{ProviderRegistry, get_default_profile}

-- The protocol `LLMAdapter`; what a provider answers is not known.
pub record LlmAdapter : Type 0 where
  pub can_handle : LlmProviderKind → Bool
  pub invoke : LlmRequest → LlmProviderConfig → Option LlmModelProfile → Result LlmResult

-- `if ref:`
abbrev pub named : Option String → Option String
named none = none
named (some s) = if s =ₛ "" then none else some s

abbrev pub or_else : {A : Type 0} → Option A → Option A → Option A
or_else none b = b
or_else (some a) b = some a

abbrev pub provider_of : Option LlmModelProfile → Option String
provider_of none = none
provider_of (some p) = some p.provider_ref

-- The model that a request names, or its profile, or its provider.
abbrev pub model_or : Option String → LlmProviderConfig → Option LlmModelProfile → String
model_or (some m) c p = m
model_or none c none = c.default_model
model_or none c (some p) = p.model_name

abbrev pub number_or : Option ℕ → (LlmModelProfile → Option ℕ) → Option LlmModelProfile → Option ℕ
number_or (some n) f p = some n
number_or none f none = none
number_or none f (some p) = f p

-- `_materialize_request`
unfoldable pub materialize_request :
    LlmRequest → LlmProviderConfig → Option LlmModelProfile → LlmRequest
materialize_request request c p = record request {
  provider_ref = some c.provider_ref;
  model_name = some (model_or request.model_name c p);
  temperature = number_or request.temperature (λ q. q.temperature) p;
  max_output_tokens = number_or request.max_output_tokens (λ q. q.max_output_tokens) p;
  top_p = number_or request.top_p (λ q. q.top_p) p;
}

-- `_select_adapter`
unfoldable pub select_adapter : LlmProviderKind → List LlmAdapter → Result LlmAdapter
select_adapter kind [] = err value_error
select_adapter kind (a ∷ adapters) =
    let rest = select_adapter kind adapters in if a.can_handle kind then ok a else rest

module _ (r : ProviderRegistry) (default_profile_ref : Option String) where
  -- A profile that a request, or the invoker, names must be registered.
  abbrev pub named_profile : String → Result (Option LlmModelProfile)
  named_profile ref = or_raise (get r.profiles ref) value_error >>= λ p. ok (some p)

  -- The default profile of the request's provider, or the default of all.
  abbrev pub default_profile : Option String → Option LlmModelProfile
  default_profile none = get_default_profile none r
  default_profile (some ref) =
      or_else (get_default_profile (some ref) r) (get_default_profile none r)

  abbrev pub profile_by :
      Option String → Option String → Option String → Result (Option LlmModelProfile)
  profile_by (some ref) default_ref provider_ref = named_profile ref
  profile_by none (some ref) provider_ref = named_profile ref
  profile_by none none provider_ref = ok (default_profile provider_ref)

  -- The profile of a request: its own, or else the invoker's, or else a default.
  unfoldable pub resolve_profile : LlmRequest → Result (Option LlmModelProfile)
  resolve_profile request =
      profile_by (named request.profile_ref) (named default_profile_ref) request.provider_ref

  abbrev pub resolve_provider : LlmRequest → Option LlmModelProfile → Result LlmProviderConfig
  resolve_provider request p = do
    ref ← or_raise (or_else (named request.provider_ref) (provider_of p)) value_error
    or_raise (get r.providers ref) value_error

  -- `_resolve_provider_and_profile`
  unfoldable pub resolve_provider_and_profile :
      LlmRequest → Result (LlmProviderConfig × Option LlmModelProfile)
  resolve_provider_and_profile request = do
    p ← resolve_profile request
    c ← resolve_provider request p
    ok (c, p)

  -- `invoke`
  unfoldable pub invoke : List LlmAdapter → LlmRequest → Result LlmResult
  invoke adapters request = do
    resolved ← resolve_provider_and_profile request
    adapter ← select_adapter resolved.0.provider_kind adapters
    adapter.invoke (materialize_request request resolved.0 resolved.1) resolved.0 resolved.1
