-- ===== src/Tests/Llm.antt =====
-- A registry with one provider of language models and one profile.
use agent_roles.Common.{◌≡◌, refl, true, false, none, some, [], ◌∷◌, ok}
use agent_roles.Common.Dict.{get, put}
use agent_roles.Value.{end}
use agent_roles.Llm.Models.{
  LlmProviderKind, LlmProviderConfig, LlmModelProfile, LlmMessageRole, LlmResponseFormatKind,
  LlmRequest,
}
use agent_roles.Llm.Registry.{ProviderRegistry, register_provider, register_profile}
use agent_roles.Llm.Registry.Soundness.{
  IsSound, register_provider-IsSound, register_profile-IsSound,
}
use agent_roles.Llm.Invoker.{named, resolve_provider_and_profile}
use agent_roles.Llm.Invoker.Routing.{Routes, resolve_provider_and_profile-Routes}

abbrev provider : LlmProviderConfig
provider = record {
  provider_ref = "deepseek";
  provider_kind = LlmProviderKind.deepseek;
  display_name = "DeepSeek";
  base_url = "https://example.org";
  api_key_env = "KEY";
  default_model = "chat";
  default_timeout_ms = 30000;
  default_headers = end;
  organization = none;
  project = none;
  metadata = end;
}

abbrev profile : LlmModelProfile
profile = record {
  profile_ref = "fast";
  provider_ref = "deepseek";
  model_name = "chat";
  temperature = some 200000;
  max_output_tokens = none;
  top_p = none;
  supports_tools = false;
  supports_json_mode = true;
  supports_system_prompt = true;
  is_default = true;
  metadata = end;
}

abbrev unregistered : ProviderRegistry
unregistered = record { providers = []; profiles = [] }

abbrev with_provider : ProviderRegistry
with_provider = record { providers = ("deepseek", provider) ∷ []; profiles = [] }

abbrev with_profile : ProviderRegistry
with_profile = record with_provider { profiles = ("fast", profile) ∷ [] }

provider_registered : register_provider provider unregistered ≡ ok with_provider
unfolding register_provider get put
provider_registered = refl

profile_registered : register_profile profile with_provider ≡ ok with_profile
unfolding register_profile get put
profile_registered = refl

provider_sound : IsSound with_provider
provider_sound =
    register_provider-IsSound provider unregistered with_provider
      (record { filed_providers = tt; filed_profiles = tt; served = tt }) provider_registered

register_profile-IsSound_example : IsSound with_profile
register_profile-IsSound_example =
    register_profile-IsSound profile with_provider with_profile provider_sound profile_registered

abbrev request : LlmRequest
request = record {
  request_id = "1";
  messages =
      record { role = LlmMessageRole.user; content = "hello"; name = none; metadata = end } ∷ [];
  provider_ref = none;
  profile_ref = some "fast";
  model_name = none;
  system_prompt = none;
  response_format = LlmResponseFormatKind.text;
  temperature = none;
  max_output_tokens = none;
  top_p = none;
  tools = [];
  tool_choice = none;
  metadata = end;
}

resolve_provider_and_profile-Routes_example :
    Routes with_profile register_profile-IsSound_example
      (named (some "fast"))
      none
      none
      none
      (resolve_provider_and_profile with_profile none request)
resolve_provider_and_profile-Routes_example =
    resolve_provider_and_profile-Routes with_profile register_profile-IsSound_example none request
