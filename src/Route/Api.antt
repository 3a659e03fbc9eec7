-- ===== src/Route/Api.antt =====
-- codebase/llmhub/app/routes/chat_completion/route.py, `api_chat_completion`: the checks on a
-- request, in order, and the two ways to answer it.
pub mod Admission
use rtxag.Prelude.{
  ℕ, String, Bool, true, false, not, ◌&&◌, ◌||◌, Option, none, some, List, [], ◌∷◌, Dict, concat,
  is_empty, if◌then◌else◌,
}
use rtxag.Error.{ErrorCode, Result, ok, err, ◌>>=◌, ◌>>◌, raise_http_error, traverse}
use rtxag.Json.{Fields}
use rtxag.Message.{Message, ChatCompletion}
use rtxag.Request.{has_multimodal_user_message}
use rtxag.Schema.{ModelSchema, ModelInfo, bad_request, validate_model_info}
use rtxag.Properties.{ModelType, Coercion, same_type, type_value}
use rtxag.Config.{Configuration, validate_chat_completion_model}
use rtxag.Credentials.{Values}
use rtxag.Credentials.Validate.{Sources, validate_credentials}
use rtxag.Route.{Models, Call, chat_completion, chat_completion_stream}
use rtxag.Route.Generator.{Printer, generator}

-- `ChatCompletionFallback`
pub record Fallback : Type 0 where
  pub model_schema_id : String
  pub provider_model_id : Option String

-- `ChatCompletionRequest`, after its own validators.
pub record ChatRequest : Type 0 where
  pub model_schema_id : String
  pub provider_model_id : Option String
  pub messages : List Message
  pub stream : Bool
  pub credentials : Option (Dict String)
  pub encrypted_credentials : Option (Dict String)
  pub properties : Option Fields
  pub configs : Configuration
  pub fallbacks : Option (List Fallback)
  pub function_call : Option String
  pub functions : Option (List Fields)

pub data Reply : Type 0 where
  streaming : List String → Reply
  response : ChatCompletion → Reply

abbrev listed {ℓ} : {A : Type ℓ} → Option (List A) → List A
listed none = []
listed (some xs) = xs

-- The models that a request names: the primary one first.
abbrev pub candidates : ChatRequest → List Fallback
candidates r =
    record { model_schema_id = r.model_schema_id; provider_model_id = r.provider_model_id }
    ∷ listed r.fallbacks

module _ (c : Coercion) (get_model_schema : String → Option ModelSchema) where
  unfoldable pub model_infos : ChatRequest → Result (List ModelInfo)
  unfolding validate_model_info
  model_infos r =
      traverse
        (λ f.
          validate_model_info c get_model_schema f.model_schema_id f.provider_model_id r.properties
            (some ModelType.chat_completion))
        (candidates r)

unfoldable pub check_chat_type : ModelType → Result (Unit {0})
check_chat_type t =
    if not (same_type t ModelType.chat_completion) && not (same_type t ModelType.wildcard)
    then bad_request (concat ("Model type should be chat_completion, but got " ∷ type_value t ∷ []))
    else ok tt

-- The loop over the models; each round changes the configuration of the request, which is one
-- object for all models.
unfoldable pub check_models :
    Bool → Bool → Bool → List ModelInfo → Configuration → Result Configuration
unfolding validate_chat_completion_model check_chat_type
check_models stream functions vision [] configs = ok configs
check_models stream functions vision (info ∷ infos) configs = do
  configs' ← validate_chat_completion_model info.model_schema stream functions vision configs false
  check_chat_type info.model_type
  check_models stream functions vision infos configs'

abbrev respond : Result (Option ChatCompletion) → Result Reply
respond (err e) = err e
respond (ok none) = raise_http_error ErrorCode.unknown_error "unknown error"
respond (ok (some r)) = ok (response r)

abbrev with_credentials : (Values → Result Reply) → Option (Result Values) → Option (Result Reply)
with_credentials next none = none
with_credentials next (some r) = some (r >>= next)

module _ (c : Coercion) (get_model_schema : String → Option ModelSchema) (sources : Sources)
    (models : Models) (printer : Printer) where
  abbrev pub call_of : ChatRequest → Values → Configuration → Call
  call_of r credentials configs = record {
    messages = r.messages;
    credentials = credentials;
    configs = configs;
    function_call = r.function_call;
    functions = r.functions;
  }

  unfoldable pub infer : ChatRequest → List ModelInfo → Values → Configuration → Result Reply
  unfolding chat_completion chat_completion_stream generator
  infer r infos credentials configs =
      let call = call_of r credentials configs in
      if r.stream
      then ok (streaming (generator printer (chat_completion_stream models call infos)))
      else respond (chat_completion models call infos)

  abbrev pub checked : ChatRequest → List ModelInfo → Result Configuration
  checked r infos =
      check_models r.stream (not (is_empty (listed r.functions)))
        (has_multimodal_user_message r.messages) infos r.configs

  abbrev with_models : ChatRequest → Result (List ModelInfo) → Option (Result Reply)
  with_models r (err e) = some (err e)
  with_models r (ok infos) =
      with_credentials (λ values. checked r infos >>= infer r infos values)
        (validate_credentials sources r.credentials r.encrypted_credentials infos)

  -- `api_chat_completion`; none where the search for sets of credentials does not end.
  unfoldable pub api_chat_completion : ChatRequest → Option (Result Reply)
  unfolding model_infos check_models infer validate_credentials
  api_chat_completion r = with_models r (model_infos c get_model_schema r)
