-- ===== src/CustomHost/Tests.antt =====
-- A host of the black list, and a streamed text with an event too many.
use rtxag.Prelude.{String, ◌≡◌, refl, false, none, some, List, [], ◌∷◌, ◌++◌, All}
use rtxag.Error.{Kind, raised, ok_injective}
use rtxag.Json.{Json, Fields, arr, obj, nil, field, end, lookup}
use rtxag.FunctionCall.Building.{Services}
use rtxag.Message.{user_message, text}
use rtxag.Payload.{Prompt}
use rtxag.OpenAi.Agreement.{text_event, last_event}
use rtxag.CustomHost.{started, stream_from}
use rtxag.Model.{ChatModel}
use rtxag.Json.Access.{get_key, first}
use rtxag.OpenAi.{
  compatible, first_choice, stream_check_error, stream_extract_chunk, stream_handle_function_calls,
  stream_extract_finish_reason,
}
use rtxag.CustomHost.LastEvent.{NoReason, HasCalls, stream_from-NoReason}

abbrev services : Services
services = record { loads = λ s. none; now = 0; random_id = λ n. "x"; response_tokens = λ m. 1 }

abbrev dumps : Fields → String
dumps d = "{}"

abbrev prompt : Prompt
prompt = record {
  stream = false;
  provider_model_id = "openai-tool-calls";
  messages = user_message (some (text "Hello")) ∷ [];
  credentials = ("CUSTOM_HOST_ENDPOINT_URL", some "http://10.0.0.1/v1") ∷ [];
  configs = [];
  function_call = none;
  functions = none;
}

abbrev black_list : List String
black_list = "localhost" ∷ "10.0." ∷ []

abbrev host : ChatModel
host = compatible services none

-- An event that reports the use of tokens, with no choice in it.
abbrev usage_event : Json
usage_event = obj (field "choices" (arr nil) (field "usage" (obj end) end))

abbrev answered : List Json
answered = text_event "Hel" ∷ text_event "lo" ∷ last_event "stop" ∷ []

usage_event-NoReason : NoReason host usage_event
unfolding get_key lookup first_choice stream_extract_finish_reason
usage_event-NoReason data_ r q k =
    let e : none ≡ data_ = ok_injective none data_ q in cc (rw (← e) at k)

stream_from-NoReason_example :
    All HasCalls (stream_from services host 1 started (answered ++ usage_event ∷ []) none).yielded
stream_from-NoReason_example =
    stream_from-NoReason services host 1 started answered usage_event none usage_event-NoReason

-- The whole text is sent, and then an exception.
usage_event_fails :
    (stream_from services host 1 started (answered ++ usage_event ∷ []) none).ended
    ≡ some (raised Kind.attribute_error "'NoneType' object has no attribute 'get'")
unfolding stream_from lookup get_key first first_choice stream_check_error stream_extract_chunk
    stream_handle_function_calls stream_extract_finish_reason
usage_event_fails = refl
