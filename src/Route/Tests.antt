-- ===== src/Route/Tests.antt =====
-- The route with two models, one of which fails, and the theorems about it there.
use rtxag.Prelude.{
  String, ◌≡◌, refl, inr, Bool, true, false, Option, none, some, [], ◌∷◌, ◌++◌, map, get, put, ◌==◌,
  if◌then◌else◌,
}
use rtxag.Prelude.Text.{has_char, has_text, drop_prefix}
use rtxag.Error.{Exception, raised, Kind, Run, Result, ok, err, traverse}
use rtxag.Json.{Json, str, lookup}
use rtxag.Message.{
  text, user_message, assistant_message, ChatCompletion, ChatCompletionChunk, FinishReason,
}
use rtxag.Schema.{ModelSchema, ModelInfo}
use rtxag.Properties.{ModelType, Coercion, chat_properties}
use rtxag.Credentials.{CipherSuite}
use rtxag.Credentials.Validate.{Sources}
use rtxag.Stream.{Codec, bytes, stream}
use rtxag.Route.{Models, Call, Event, mark, chat_completion, chat_completion_stream}
use rtxag.Route.Fallback.{AllFail, chat_completion-first_success}
use rtxag.Route.Partial.{transcript, sent_by, chat_completion_stream-partial}
use rtxag.Route.Generator.{Printer, generator, error_fields}
use rtxag.Route.Generator.Readback.{error_values, stream-generator}
use rtxag.Route.Api.{ChatRequest, Reply, api_chat_completion}
use rtxag.Route.Api.Admission.{Admitted, api_chat_completion-Admitted}

abbrev schema_of : String → ModelSchema
schema_of provider = record {
  model_schema_id = provider;
  name = "m";
  description = "";
  deprecated = false;
  provider_id = provider;
  provider_model_id = none;
  type = ModelType.chat_completion;
  properties = none;
  config_schemas = [];
}

abbrev info_of : String → ModelInfo
info_of provider = record {
  model_schema = schema_of provider;
  provider_model_id = "m";
  properties = none;
  model_type = ModelType.chat_completion;
}

abbrev answer : ChatCompletion
answer = record {
  finish_reason = FinishReason.stop;
  message = assistant_message (some (text "hi")) none;
  created_timestamp = 0;
  usage = record { input_tokens = 1; output_tokens = 1 };
  fallback_index = none;
}

abbrev piece : ChatCompletionChunk
piece = record { index = 0; delta = "h"; created_timestamp = 0 }

abbrev down : Exception
down = raised Kind.connection_error "down"

abbrev reply_of : Bool → Result ChatCompletion
reply_of true = err down
reply_of false = ok answer

abbrev stream_of : Bool → Run Event
stream_of true = record { yielded = Event.chunk piece ∷ []; ended = some down }
stream_of false = record {
  yielded = Event.chunk piece ∷ Event.completion answer ∷ [];
  ended = none;
}

-- A model is a flag that says whether the service is down.
abbrev found_of : String → Result (Option Bool)
found_of provider =
    if provider == "broken"
    then err (raised Kind.other_error "No module named 'providers.broken'")
    else ok (some (provider == "down"))

abbrev two_models : Models
two_models = record {
  Model = Bool;
  get_model = found_of;
  complete = λ call n m id. reply_of m;
  stream = λ call n m id. stream_of m;
}

abbrev hello : Call
hello = record {
  messages = user_message (some (text "hello")) ∷ [];
  credentials = [];
  configs = [];
  function_call = none;
  functions = none;
}

abbrev one_down : AllFail two_models hello 0 (info_of "down" ∷ [])
one_down = (inr (true, down, refl, refl), tt)

chat_completion-first_success_example :
    chat_completion two_models hello (info_of "down" ∷ info_of "up" ∷ [])
    ≡ ok (some (mark 1 answer))
chat_completion-first_success_example =
    chat_completion-first_success two_models hello (info_of "down" ∷ []) (info_of "up") [] false
      answer one_down refl refl

chat_completion_stream-partial_example :
    chat_completion_stream two_models hello (info_of "down" ∷ info_of "up" ∷ []) ≡ record {
      yielded =
          transcript two_models hello 0 ((info_of "down", true) ∷ [])
          ++ sent_by two_models hello 1 (info_of "up", false);
      ended = none;
    }
chat_completion_stream-partial_example =
    chat_completion_stream-partial two_models hello ((info_of "down", true) ∷ [])
      (info_of "up", false) [] ((refl, (down, refl), tt)) refl refl

abbrev texts : Codec
texts = record {
  Bytes = String;
  utf8 = λ s. ok s;
  loads = λ s. some (if s == " e" then Json.obj (error_fields down) else str s);
}

abbrev short : Printer
short = record { model_dump_json = λ e. "x"; dumps = λ fs. "e" }

stream-generator_example :
    stream texts (
      map
        (λ s. bytes s)
        (generator short (record { yielded = Event.chunk piece ∷ []; ended = some down })))
    ≡ record { yielded = str " x" ∷ error_values (some down); ended = none }
unfolding has_char has_text drop_prefix
stream-generator_example =
    stream-generator texts short (λ s. s) (λ e. str " x") (Event.chunk piece ∷ []) (some down)
      (λ s. refl) (((refl, refl), refl), tt) ((refl, refl), refl)

abbrev no_cipher : CipherSuite
no_cipher = record {
  Bytes = String;
  cbc_encrypt = λ iv s. s;
  cbc_decrypt = λ iv s. ok s;
  b64encode = λ s. s;
  b64decode = λ s. ok s;
}

abbrev service : Sources
service = record {
  suite = no_cipher;
  str = λ n. "1";
  get_provider = λ id. some (record { allowed = "KEY" ∷ []; required = "KEY" ∷ [] });
  env = record { environ = []; defaults = [] };
  fuel = 2;
  draws = λ n. 0;
}

abbrev untyped : Coercion
untyped = record { as_int = λ v. none; as_bool = λ v. none }

abbrev request : ChatRequest
request = record {
  model_schema_id = "up";
  provider_model_id = some "m";
  messages = user_message (some (text "hello")) ∷ [];
  stream = false;
  credentials = some (("KEY", "k") ∷ []);
  encrypted_credentials = none;
  properties = none;
  configs = [];
  fallbacks = none;
  function_call = none;
  functions = none;
}

request_answered :
    api_chat_completion untyped (λ id. some (schema_of id)) service two_models short request
    ≡ some (ok (Reply.response answer))
unfolding api_chat_completion get put lookup traverse chat_properties
request_answered = refl

api_chat_completion-Admitted_example :
    Admitted untyped
      (λ id. some (schema_of id))
      service
      two_models
      short
      request
      (Reply.response answer)
api_chat_completion-Admitted_example =
    api_chat_completion-Admitted untyped (λ id. some (schema_of id)) service two_models short
      request (Reply.response answer) request_answered
