-- ===== src/Llm/Models.antt =====
-- The records of src/core/llm/models.py. A temperature and a top_p are numbers of millionths.
use agent_roles.Common.{
  ℕ, String, Bool, true, ◌&&◌, not, Option, none, some, List, [], ◌∷◌, map, is_unique, is_empty,
  all_of, ltb, leb,
}
use agent_roles.Value.{Fields}
use agent_roles.State.Validation.{non_empty}

pub data LlmProviderKind : Type 0 where
  openai deepseek custom : LlmProviderKind

pub data LlmMessageRole : Type 0 where
  system user assistant tool developer : LlmMessageRole

pub data LlmResponseFormatKind : Type 0 where
  text json_object : LlmResponseFormatKind

pub record LlmProviderConfig : Type 0 where
  pub provider_ref : String
  pub provider_kind : LlmProviderKind
  pub display_name : String
  pub base_url : String
  pub api_key_env : String
  pub default_model : String
  pub default_timeout_ms : ℕ
  pub default_headers : Fields
  pub organization : Option String
  pub project : Option String
  pub metadata : Fields

-- `LLMProviderConfig.__post_init__`
unfoldable pub provider_valid : LlmProviderConfig → Bool
provider_valid c =
    all_of non_empty
      (c.provider_ref ∷ (c.display_name ∷ (c.base_url ∷ (c.api_key_env ∷ (c.default_model ∷ [])))))
    && ltb 0 c.default_timeout_ms

pub record LlmModelProfile : Type 0 where
  pub profile_ref : String
  pub provider_ref : String
  pub model_name : String
  pub temperature : Option ℕ
  pub max_output_tokens : Option ℕ
  pub top_p : Option ℕ
  pub supports_tools : Bool
  pub supports_json_mode : Bool
  pub supports_system_prompt : Bool
  pub is_default : Bool
  pub metadata : Fields

abbrev not_zero : Option ℕ → Bool
not_zero none = true
not_zero (some n) = ltb 0 n

-- `0 <= top_p <= 1`
abbrev at_most_one : Option ℕ → Bool
at_most_one none = true
at_most_one (some n) = leb n 1000000

-- `LLMModelProfile.__post_init__`
unfoldable pub profile_valid : LlmModelProfile → Bool
profile_valid p =
    all_of non_empty (p.profile_ref ∷ (p.provider_ref ∷ (p.model_name ∷ [])))
    && (not_zero p.max_output_tokens && at_most_one p.top_p)

pub record LlmMessage : Type 0 where
  pub role : LlmMessageRole
  pub content : String
  pub name : Option String
  pub metadata : Fields

pub record LlmToolSpec : Type 0 where
  pub name : String
  pub description : String
  pub input_schema : Fields
  pub metadata : Fields

pub record LlmRequest : Type 0 where
  pub request_id : String
  pub messages : List LlmMessage
  pub provider_ref : Option String
  pub profile_ref : Option String
  pub model_name : Option String
  pub system_prompt : Option String
  pub response_format : LlmResponseFormatKind
  pub temperature : Option ℕ
  pub max_output_tokens : Option ℕ
  pub top_p : Option ℕ
  pub tools : List LlmToolSpec
  pub tool_choice : Option String
  pub metadata : Fields

-- `LLMRequest.__post_init__`
unfoldable pub request_valid : LlmRequest → Bool
request_valid r =
    non_empty r.request_id
    && (not (is_empty r.messages)
        && (is_unique (map (λ (t : LlmToolSpec). t.name) r.tools)
            && (not_zero r.max_output_tokens && at_most_one r.top_p)))

pub record LlmUsage : Type 0 where
  pub input_tokens : Option ℕ
  pub output_tokens : Option ℕ
  pub total_tokens : Option ℕ
  pub latency_ms : Option ℕ

pub record LlmToolCall : Type 0 where
  pub tool_name : String
  pub arguments : Fields
  pub call_id : Option String
  pub metadata : Fields

pub record LlmResult : Type 0 where
  pub success : Bool
  pub provider_ref : String
  pub model_name : String
  pub output_text : Option String
  pub output_json : Option Fields
  pub tool_calls : List LlmToolCall
  pub finish_reason : Option String
  pub usage : LlmUsage
  pub raw_response_ref : Option String
  pub error_code : Option String
  pub error_message : Option String
  pub metadata : Fields
