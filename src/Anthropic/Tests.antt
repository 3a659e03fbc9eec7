-- ===== src/Anthropic/Tests.antt =====
-- Requests to Anthropic and a streamed answer, with the theorems there.
use rtxag.Prelude.{String, false, ◌≡◌, refl, none, some, List, [], ◌∷◌, ◌++◌, map, get}
use rtxag.Prelude.Text.{drop_prefix}
use rtxag.Error.{ok}
use rtxag.Json.{Json, Items, bool, int, str, arr, obj, nil, cons, field, end, assign}
use rtxag.Json.Int.{pos}
use rtxag.Message.{
  Part, text_part, image_url, text, system_message, user_message, assistant_message,
  function_message,
}
use rtxag.FunctionCall.Building.{Services}
use rtxag.Model.{stream_completion, complete_from}
use rtxag.Payload.{Prompt, HttpRequest, build_messages}
use rtxag.Addresses.{is_valid_data_uri, base64_body, check_valid_list_content}
use rtxag.OpenAi.Agreement.{after, ending}
use rtxag.Anthropic.{anthropic}
use rtxag.Anthropic.Prepare.{
  prepare_request, build_payload, build_message, build_header, add_settings, build_blocks,
  extract_system_message,
}
use rtxag.Anthropic.Entries.{prepare_request-Says, Carries}
use rtxag.Anthropic.Images.{build_blocks-SayAll, SayAll}
use rtxag.Anthropic.Agreement.{
  stream_completion-text_response, text_delta, stop_delta, deltas_of, text_response,
}

abbrev picture : List Part
picture = text_part "What is this?" ∷ image_url "data:image/png;base64,iVBORw==" ∷ []

build_blocks-SayAll_example : (vs : Items) × (build_blocks picture ≡ ok vs) × SayAll picture vs
unfolding check_valid_list_content is_valid_data_uri drop_prefix base64_body
build_blocks-SayAll_example = build_blocks-SayAll picture refl

abbrev services : Services
services = record { loads = λ s. none; now = 0; random_id = λ n. "x"; response_tokens = λ m. 1 }

stream_completion-text_response_example :
    stream_completion services (anthropic services) 1 200 "" (record {
      yielded = map text_delta ("Hel" ∷ "lo" ∷ []) ++ stop_delta "end_turn" ∷ [];
      ended = none;
    })
    ≡ after (deltas_of 0 0 ("Hel" ∷ "lo" ∷ [])) (
        ending (
          complete_from services
            (anthropic services)
            1
            200
            ""
            (ok (text_response "Hello" "end_turn"))))
stream_completion-text_response_example =
    stream_completion-text_response services 1 ("Hel" ∷ "lo" ∷ []) "end_turn" ""

abbrev prompt : Prompt
prompt = record {
  stream = false;
  provider_model_id = "claude";
  messages =
      system_message (some (text "Be brief."))
      ∷ user_message (some (text "Look."))
      ∷ assistant_message none (some (record { id = "P3lf1"; name = "look"; arguments = end } ∷ []))
      ∷ function_message (some (text "a cat")) "P3lf1"
      ∷ [];
  credentials = ("ANTHROPIC_API_KEY", some "key") ∷ [];
  configs = ("top_k", some (int (pos 3))) ∷ ("stop", some (str "END")) ∷ [];
  function_call = none;
  functions = none;
}

abbrev block_message : String → Json → Json
block_message name block =
    obj (field "role" (str name) (field "content" (arr (cons block nil)) end))

abbrev built : Items
built =
    cons (block_message "user" (obj (field "type" (str "text") (field "text" (str "Look.") end)))) (
      cons
        (block_message "assistant" (
          obj (
            field "id" (str "P3lf1") (
              field "type" (str "tool_use")
                (field "name" (str "look") (field "input" (obj end) end))))))
        (cons
          (block_message "user" (
            obj (
              field "type" (str "tool_result")
                (field "tool_use_id" (str "P3lf1") (field "content" (str "a cat") end)))))
          nil))

abbrev to_str : Json → String
to_str v = ""

abbrev repr : List Part → String
repr ps = "[]"

abbrev sent : HttpRequest
sent = record {
  api_url = "https://api.anthropic.com/v1/messages";
  headers = field "x-api-key" (str " key") (
      field "Content-Type" (str "application/json") (
        field "anthropic-version" (str " 2023-06-01")
          (field "anthropic-beta" (str "tools-2024-04-04") end)));
  payload = field "messages" (arr built) (
      field "model" (str "claude") (
        field "max_tokens" (int (pos 4096)) (
          field "stream" (bool false) (
            field "system" (str "Be brief.") (
              field "top_k" (int (pos 3))
                (field "stop_sequences" (arr (cons (str "END") nil)) end))))));
}

prepare_request-Says_example :
    (false ≡ false)
    × (sent.api_url ≡ "https://api.anthropic.com/v1/messages")
    × (sent.headers ≡ build_header prompt.credentials)
    × ((ms : Items) × (build_messages
            (build_message to_str repr)
            (extract_system_message prompt.messages).1
          ≡ ok ms)
        × Carries to_str (some (text "Be brief.")) prompt ms sent.payload)
unfolding prepare_request build_payload build_messages build_message add_settings assign get
prepare_request-Says_example = prepare_request-Says to_str repr prompt sent (refl, (refl, tt)) refl
