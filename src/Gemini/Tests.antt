-- ===== src/Gemini/Tests.antt =====
-- Requests and answers of Gemini, with the theorems there.
use rtxag.Prelude.{String, ◌≡◌, refl, false, none, some, List, [], ◌∷◌, ◌++◌, map}
use rtxag.Error.{Exception, ok, err}
use rtxag.Json.{Json}
use rtxag.Message.{system_message, user_message, text, parts, Part, text_part, image_url}
use rtxag.FunctionCall.Building.{Services}
use rtxag.Model.{stream_completion, complete_from}
use rtxag.Payload.{Prompt}
use rtxag.Request.{letters}
use rtxag.OpenAi.Agreement.{after, ending, pieces_of}
use rtxag.Gemini.{gemini}
use rtxag.Gemini.Prepare.{merge_system, build_payload, choose_version}
use rtxag.Gemini.Agreement.{stream_completion-gemini, text_event, last_event, text_response}
use rtxag.Gemini.Errors.{build_payload-letters}

abbrev services : Services
services = record { loads = λ s. none; now = 0; random_id = λ n. "x"; response_tokens = λ m. 1 }

abbrev dumps : Json → String
dumps v = "{}"

newest_beta : choose_version none false "gemini-1.5-pro-latest" ≡ "v1beta"
newest_beta = refl

given_version : choose_version (some "v1beta") false "gemini-pro" ≡ "v1beta"
given_version = refl

stream_completion-gemini_example :
    stream_completion services (gemini services dumps) 1 200 "" (record {
      yielded = map text_event ("Hel" ∷ "lo" ∷ []) ++ last_event "STOP" ∷ [];
      ended = none;
    })
    ≡ after (pieces_of 0 0 ("Hel" ∷ "lo" ∷ [])) (
        ending (
          complete_from services
            (gemini services dumps)
            1
            200
            ""
            (ok (text_response "Hello" "STOP"))))
stream_completion-gemini_example =
    stream_completion-gemini services dumps 1 ("Hel" ∷ "lo" ∷ []) "STOP" ""

abbrev picture : List Part
picture = text_part "What is this?" ∷ image_url "data:image/png;base64,iVBORw==" ∷ []

abbrev prompt : Prompt
prompt = record {
  stream = false;
  provider_model_id = "gemini-pro-vision";
  messages = system_message (some (text "Be brief.")) ∷ user_message (some (parts picture)) ∷ [];
  credentials = [];
  configs = [];
  function_call = none;
  functions = none;
}

build_payload-letters_example :
    (merge_system prompt.messages
      ≡ ok (user_message (some (parts (picture ++ letters "Be brief."))) ∷ []))
    × ((e : Exception) × (build_payload prompt ≡ err e))
build_payload-letters_example = build_payload-letters prompt "B" "e brief." picture [] refl
