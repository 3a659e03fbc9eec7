-- ===== src/Verify.antt =====
-- codebase/llmhub/app/routes/verify/route.py: the credentials of a model are verified by a small
-- request to it, and returned encrypted. The models are those of the other routes.
pub mod Outcome
mod Tests
use rtxag.Prelude.{
  ℕ, String, Bool, true, false, not, ◌&&◌, ◌||◌, Option, none, some, List, [], ◌∷◌, ◌++◌, append,
  concat, nonempty, eqb, ◌==◌, if◌then◌else◌,
}
use rtxag.Error.{
  ErrorCode, TkHttpException, Exception, http, raised, Kind, Run, Result, ok, err, ◌>>=◌, ◌>>◌,
  raise_http_error,
}
use rtxag.Json.{Json, Fields, Items, str, obj, arr, int, field, end, cons, nil}
use rtxag.Json.Int.{pos}
use rtxag.Message.{
  Message, user_message, text, content, Content, has_calls, FunctionCall, ChatCompletion,
}
use rtxag.Schema.{ModelSchema, ModelInfo, bad_request}
use rtxag.Properties.{
  ModelType, Properties, chat, embedding, ChatProperties, EmbeddingProperties, same_type,
  type_value,
}
use rtxag.Config.{Configuration, validate_chat_completion_model}
use rtxag.Credentials.{Values, CipherSuite, encrypt}
use rtxag.Route.{Models, Call, Event, chunk, completion, chat_completion, chat_completion_stream}
use rtxag.Embedding.{Embedder, Output, embed_text, embedding_of}

-- setattr(config, "max_tokens", 10)
unfoldable pub set_max_tokens : Configuration → Configuration
set_max_tokens [] = ("max_tokens", some (int (pos 10))) ∷ []
set_max_tokens ((k, v) ∷ rest) =
    let later = set_max_tokens rest in
    if k == "max_tokens" then (k, some (int (pos 10))) ∷ rest else (k, v) ∷ later

-- delattr(config, "max_tokens")
unfoldable pub del_max_tokens : Configuration → Configuration
del_max_tokens [] = []
del_max_tokens ((k, v) ∷ rest) =
    let later = del_max_tokens rest in if k == "max_tokens" then later else (k, v) ∷ later

abbrev number_list : String → Json
number_list description = obj (
    field "type" (str "array") (
      field "items" (obj (field "type" (str "number") end))
        (field "description" (str description) end)))

-- The function "make_scatter_plot".
abbrev scatter_plot : Fields
scatter_plot = field "name" (str "make_scatter_plot") (
    field "description" (str "Generate a scatter plot from the given data") (
      field "parameters"
        (obj (
          field "type" (str "object") (
            field "properties"
              (obj (
                field "x_values" (number_list "The x-axis values for the data points")
                  (field "y_values" (number_list "The y-axis values for the data points") end)))
              (field "required" (arr (cons (str "x_values") (cons (str "y_values") nil))) end))))
        end))

abbrev has_some {ℓ} : {A : Type ℓ} → Option A → Bool
has_some none = false
has_some (some a) = true

abbrev calls_of : Message → Bool
calls_of (Message.assistant_message c calls) = has_calls calls
calls_of _ = false

-- `response.message.content is not None`, and with function calls too.
abbrev pub has_text_answer : ChatCompletion → Bool
has_text_answer r = has_some (content r.message)

abbrev pub has_any_answer : ChatCompletion → Bool
has_any_answer r = has_some (content r.message) || calls_of r.message

abbrev no_answer {ℓ} : {A : Type ℓ} → Result A
no_answer =
    raise_http_error ErrorCode.credentials_validation_error
      "The model did not return a valid response to pass the verification."

unfoldable pub check_answer : (ChatCompletion → Bool) → Option ChatCompletion → Result (Unit {0})
check_answer good none =
    err (raised Kind.attribute_error "'NoneType' object has no attribute 'message'")
check_answer good (some r) = if good r then ok tt else no_answer

-- `valid_response_received`
unfoldable pub any_answer : (ChatCompletion → Bool) → List Event → Bool
any_answer good [] = false
any_answer good (chunk c ∷ es) = any_answer good es
any_answer good (completion r ∷ es) = good r || any_answer good es

abbrev after_run : (ChatCompletion → Bool) → List Event → Option Exception → Result (Unit {0})
after_run good events (some e) = err e
after_run good events none = if any_answer good events then ok tt else no_answer

unfoldable pub check_run : (ChatCompletion → Bool) → Run Event → Result (Unit {0})
unfolding any_answer
check_run good run = after_run good run.yielded run.ended

abbrev chat_of : Option Properties → Result ChatProperties
chat_of (some (chat p)) = ok p
chat_of (some (embedding p)) = err (raised Kind.attribute_error "streaming")
chat_of none = err (raised Kind.attribute_error "streaming")

abbrev says : String → List Message
says s = user_message (some (text s)) ∷ []

abbrev prefixed : String → String
prefixed message = concat (
    "Model credentials validation failed."
    ∷ (if nonempty message then append " " message else message)
    ∷ [])

-- The handlers: an invalid URL and a failed connection are logged, and the function goes on.
unfoldable pub handle : Result (Unit {0}) → Result (Unit {0})
handle (ok u) = ok u
handle (err (http e)) = err (http (record e { message = prefixed e.message }))
handle (err (raised Kind.invalid_url s)) = ok tt
handle (err (raised Kind.connection_error s)) = ok tt
handle (err (raised _ s)) = raise_http_error ErrorCode.credentials_validation_error (
    concat (
      "Model credentials validation has failed. Please check whether your credentials are correct and if you have enough quota with the provider. More details: "
      ∷ s ∷ []))

-- The models of the three APIs, the length of a vector, and the cipher with its drawn vectors.
pub record Services : Type 1 where
  pub models : Models
  pub embedder : Embedder
  pub vector_length : embedder.Vector → ℕ
  pub rerank : ModelInfo → Values → Result (Unit {0})
  pub suite : CipherSuite
  pub ivs : ℕ → suite.Bytes

module _ (svc : Services) where
  abbrev call_with : String → Values → Configuration → Option (List Fields) → Call
  call_with s credentials configs functions = record {
    messages = says s;
    credentials = credentials;
    configs = configs;
    function_call = none;
    functions = functions;
  }

  -- One request, streamed or not, whose answer must be good.
  unfoldable pub probe_with : ModelInfo → Bool → (ChatCompletion → Bool) → Call → Result (Unit {0})
  unfolding check_answer check_run chat_completion chat_completion_stream
  probe_with info streaming good call =
      if streaming
      then check_run good (chat_completion_stream svc.models call (info ∷ []))
      else chat_completion svc.models call (info ∷ []) >>= check_answer good

  abbrev custom : ModelInfo → Bool
  custom info =
      same_type info.model_schema.type ModelType.wildcard
      || info.model_schema.provider_id == "custom_host"

  unfoldable pub probe_chat : ModelInfo → Values → Configuration → Result (Unit {0})
  unfolding probe_with set_max_tokens del_max_tokens validate_chat_completion_model
  probe_chat info credentials configs = do
    p ← chat_of info.properties
    configs' ←
        validate_chat_completion_model info.model_schema p.streaming p.function_call p.vision
          configs true
    if custom info && p.function_call
        then probe_with info p.streaming has_any_answer (
            call_with "Make a scatter plot with x_values 1, 2 and y_values 3, 4" credentials
              (del_max_tokens configs') (some (scatter_plot ∷ [])))
        else probe_with info (custom info && p.streaming) has_text_answer
            (call_with "Only say your name" credentials (set_max_tokens configs') none)

  abbrev first_output : List (Output svc.embedder.Vector) → Result (Output svc.embedder.Vector)
  first_output [] = err (raised Kind.index_error "list index out of range")
  first_output (o ∷ os) = ok o

  unfoldable pub probe_embedding : ModelInfo → Result (Unit {0})
  unfolding embed_text
  probe_embedding info = do
    p ← embedding_of svc.embedder info.properties
    outputs ←
        embed_text svc.embedder info.model_schema.provider_id info.provider_model_id
          p.max_batch_size ("Hello" ∷ [])
    o ← first_output outputs
    if eqb (svc.vector_length o.vector) p.embedding_size
        then ok tt
        else raise_http_error ErrorCode.credentials_validation_error (
            concat (
              "The actual embedding size "
              ∷ svc.embedder.show (svc.vector_length o.vector)
              ∷ " is not "
              ∷ svc.embedder.show p.embedding_size
              ∷ []))

  -- The body of the try.
  unfoldable pub probe : ModelType → ModelInfo → Values → Configuration → Result (Unit {0})
  unfolding probe_chat probe_embedding
  probe ModelType.chat_completion info credentials configs = probe_chat info credentials configs
  probe ModelType.text_embedding info credentials configs = probe_embedding info
  probe ModelType.rerank info credentials configs = svc.rerank info credentials
  probe ModelType.wildcard info credentials configs = bad_request "model_type wildcard is not valid"

  -- `api_verify_credentials`, once the model and the credentials are loaded: the encrypted values.
  unfoldable pub verify : ModelInfo → Values → Configuration → Result Values
  unfolding probe handle encrypt
  verify info credentials configs = handle (probe info.model_type info credentials configs) >>= λ _.
      ok (encrypt svc.suite svc.ivs credentials)
