-- ===== src/OpenAi/Tests.antt =====
-- Two function calls in a stream, and an error, with the theorems there.
use rtxag.Prelude.{
  ℕ, zero, suc, false, String, get, ◌≡◌, refl, true, ◌++◌, map, Option, none, some, List, [], ◌∷◌,
}
use rtxag.Prelude.Text.{has_text, drop_prefix}
use rtxag.Error.{ok}
use rtxag.Json.{
  Json, Items, Fields, null, bool, int, str, arr, obj, nil, cons, field, end, lookup, assign,
}
use rtxag.Json.Int.{pos}
use rtxag.Error.{Run, raised, Kind, err}
use rtxag.Route.{Models, Call, Event, chat_completion_stream}
use rtxag.Schema.{ModelInfo}
use rtxag.Properties.{ModelType}
use rtxag.Model.{stream_completion, complete_from}
use rtxag.FunctionCall.Building.{Services}
use rtxag.OpenAi.{openai, compatible}
use rtxag.OpenAi.Errors.{generator-stream_error}
use rtxag.Route.Generator.{Printer, generator}
use rtxag.Message.{
  Message, system_message, user_message, assistant_message, function_message, text, parts,
  text_part, image_url,
}
use rtxag.FunctionCall.Dump.{Function}
use rtxag.Payload.{Prompt, HttpRequest, build_messages, tools, dump_parts, add_configs}
use rtxag.OpenAi.Prepare.{openai_vendor, build_message, prepare_request, build_payload, dump_calls}
use rtxag.OpenAi.Entries.{Carries, prepare_request-Carries}
use rtxag.OpenAi.Reading.{read_messages, read_messages-build_messages}
use rtxag.OpenAi.Agreement.{
  stream_completion-complete_from, text_event, last_event, after, ending, pieces_of, text_answer,
}
use rtxag.OpenAi.Calls.{stream_completion_calls, event_of, calls_answer}
use rtxag.OpenAi.Assembly.{SentCall, all_chunks}

abbrev two_calls : List SentCall
two_calls =
    record { name = "f"; start = ""; pieces = "{\"a\"" ∷ ": 1}" ∷ [] }
    ∷ record { name = "g"; start = "{}"; pieces = [] }
    ∷ []

abbrev services : Services
services = record { loads = λ s. none; now = 0; random_id = λ n. "x"; response_tokens = λ m. 1 }

abbrev printer : Printer
printer = record { model_dump_json = λ e. "event"; dumps = λ fs. "error" }

abbrev overloaded : Fields
overloaded = field "error" (obj (field "message" (str "overloaded") end)) end

-- The first model is down, and OpenAI breaks off behind a piece.
abbrev stream_of : ℕ → Run Event
stream_of zero = record { yielded = []; ended = some (raised Kind.other_error "down") }
stream_of (suc i) =
    stream_completion services (openai services) 1 200 ""
      (record { yielded = map text_event ("Hel" ∷ []) ++ obj overloaded ∷ []; ended = none })

abbrev models : Models
models = record {
  Model = String;
  get_model = λ id. ok (some id);
  complete = λ call i m id. err (raised Kind.other_error "down");
  stream = λ call i m id. stream_of i;
}

abbrev asked : Call
asked = record {
  messages = user_message (some (text "Hello")) ∷ [];
  credentials = [];
  configs = [];
  function_call = none;
  functions = none;
}

abbrev info : String → ModelInfo
info id = record {
  model_schema = record {
    model_schema_id = id;
    name = id;
    description = "";
    deprecated = false;
    provider_id = id;
    provider_model_id = some "m";
    type = ModelType.chat_completion;
    properties = none;
    config_schemas = [];
  };
  provider_model_id = "m";
  properties = none;
  model_type = ModelType.chat_completion;
}

generator-stream_error_example :
    generator printer (chat_completion_stream models asked (info "p" ∷ info "openai" ∷ []))
    ≡ "data: event\n\n" ∷ "data: error\n\n" ∷ "data: [DONE]\n\n" ∷ []
unfolding lookup
generator-stream_error_example =
    generator-stream_error services 1 models asked printer ((info "p", "p") ∷ [])
      (info "openai", "openai") ("Hel" ∷ []) overloaded [] none ""
      ("message", str "overloaded", end, refl) (refl, (raised Kind.other_error "down", refl), tt)
      refl refl

-- A conversation with a call and its answer, asked with one tool and two settings.
abbrev conversation : List Message
conversation =
    system_message (some (text "Be brief."))
    ∷ user_message (some (parts (text_part "What is this?" ∷ image_url "http://a/b.png" ∷ [])))
    ∷ assistant_message none (some (record { id = "P3lf1"; name = "look"; arguments = end } ∷ []))
    ∷ function_message (some (text "a cat")) "P3lf1"
    ∷ []

abbrev look : Function
look = record {
  name = "look";
  description = "look at it";
  parameters = record { properties = []; kind = "object"; required = [] };
}

abbrev prompt : Prompt
prompt = record {
  stream = true;
  provider_model_id = "gpt-4-vision";
  messages = conversation;
  credentials = ("OPENAI_API_KEY", some "key") ∷ [];
  configs = ("temperature", some (int (pos 1))) ∷ ("max_tokens", none) ∷ [];
  function_call = some "look";
  functions = some (look ∷ []);
}

abbrev dumps : Fields → String
dumps d = "{}"

abbrev text_message : String → String → Json
text_message name said = obj (field "role" (str name) (field "content" (str said) end))

abbrev built : Items
built = cons (text_message "system" "Be brief.") (
    cons
      (obj (
        field "role" (str "user") (
          field "content"
            (arr (
              cons (obj (field "type" (str "text") (field "text" (str "What is this?") end))) (
                cons
                  (obj (
                    field "type" (str "image_url")
                      (field "image_url" (obj (field "url" (str "http://a/b.png") end)) end)))
                  nil)))
            end)))
      (cons
        (obj (
          field "role" (str "assistant") (
            field "tool_calls"
              (arr (
                cons
                  (obj (
                    field "id" (str "P3lf1") (
                      field "type" (str "function") (
                        field "function"
                          (obj (field "name" (str "look") (field "arguments" (str "{}") end)))
                          end))))
                  nil))
              (field "content" null end))))
        (cons
          (obj (
            field "role" (str "tool")
              (field "content" (str "a cat") (field "tool_call_id" (str "P3lf1") end))))
          nil)))

abbrev sent : HttpRequest
sent = record {
  api_url = "https://api.openai.com/v1/chat/completions";
  headers =
      field "Authorization" (str "Bearer key") (field "Content-Type" (str "application/json") end);
  payload = field "messages" (arr built) (
      field "model" (str "gpt-4-vision") (
        field "stream" (bool true) (
          field "temperature" (int (pos 1)) (
            field "max_tokens" (int (pos 4096)) (
              field "tool_choice" (obj (field "name" (str "look") end))
                (field "tools" (arr (tools (look ∷ []))) end))))));
}

prepare_request-Carries_example :
    (openai_vendor.api_url prompt.credentials ≡ ok sent.api_url)
    × (sent.headers ≡ openai_vendor.build_header prompt.credentials)
    × ((ms : Items) × (build_messages (build_message dumps) prompt.messages ≡ ok ms)
        × Carries true prompt ms sent.payload)
unfolding prepare_request build_payload build_messages build_message dump_parts dump_calls
    add_configs lookup assign has_text drop_prefix get
prepare_request-Carries_example =
    prepare_request-Carries dumps openai_vendor prompt sent (refl, (refl, tt)) refl

abbrev loads : String → Option Json
loads s = some (obj end)

read_messages-build_messages_example : read_messages loads built ≡ some conversation
unfolding build_messages build_message dump_parts dump_calls
read_messages-build_messages_example =
    read_messages-build_messages dumps loads conversation built
      ((refl, tt), ((refl, tt), ((refl, (refl, tt)), ((refl, tt), tt)))) refl

stream_completion-complete_from_example :
    stream_completion services (compatible services (some "filtered")) 1 200 "" (record {
      yielded = map text_event ("Hel" ∷ "" ∷ "lo" ∷ []) ++ last_event "stop" ∷ [];
      ended = none;
    })
    ≡ after (pieces_of 0 0 ("Hel" ∷ "" ∷ "lo" ∷ [])) (
        ending (
          complete_from services
            (compatible services (some "filtered"))
            1
            200
            ""
            (ok (text_answer "Hello" "stop"))))
stream_completion-complete_from_example =
    stream_completion-complete_from services (some "filtered") 1 ("Hel" ∷ "" ∷ "lo" ∷ []) "stop" ""

stream_completion_calls_example :
    stream_completion services (compatible services none) 1 200 "" (record {
      yielded = map event_of (all_chunks 0 two_calls) ++ last_event "tool_calls" ∷ [];
      ended = none;
    })
    ≡ ending
        (complete_from services (compatible services none) 1 200 "" (ok (calls_answer two_calls)))
stream_completion_calls_example = stream_completion_calls services none 1 two_calls ""
