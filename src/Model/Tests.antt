-- ===== src/Model/Tests.antt =====
-- A provider whose events are texts, and the theorems on completions there.
use rtxag.Prelude.{ℕ, suc, String, ◌≡◌, refl, Option, none, some, [], ◌∷◌}
use rtxag.Error.{ok, Run}
use rtxag.Json.{Json, str}
use rtxag.Message.{text, assistant_message, FinishReason, ChatCompletion, ChatCompletionChunk}
use rtxag.Route.{chunk, completion}
use rtxag.Model.{ChatModel, complete_from, stream_completion, completed}
use rtxag.FunctionCall.Building.{Services}
use rtxag.Model.Response.{Answers, complete_from-Answers}
use rtxag.Model.Streaming.{Ends, stream_completion-Ends}

abbrev text_of : Json → Option String
text_of (str s) = some s
text_of _ = none

abbrev chunk_of : ℕ → Json → ℕ × Option ChatCompletionChunk
chunk_of i (str s) = (suc i, some (record { index = i; delta = s; created_timestamp = 0 }))
chunk_of i _ = (i, none)

abbrev plain : ChatModel
plain = record {
  extract_core_data = λ v. ok (some v);
  extract_text_content = λ v. ok (text_of v);
  extract_function_calls = λ v. ok none;
  extract_finish_reason = λ v. ok FinishReason.stop;
  stream_check_error = λ v. ok tt;
  stream_extract_chunk_data = λ v. ok (some v);
  stream_extract_chunk = λ i v t. ok (chunk_of i v);
  stream_handle_function_calls = λ v c. ok (none, c);
  stream_extract_finish_reason = λ v. ok (some FinishReason.stop);
}

abbrev services : Services
services = record { loads = λ s. none; now = 0; random_id = λ n. "x"; response_tokens = λ m. 1 }

abbrev answer : ChatCompletion
answer = completed services FinishReason.stop (assistant_message (some (text "hello")) none) 2

answered : complete_from services plain 2 200 "" (ok (str "hello")) ≡ ok answer
unfolding complete_from
answered = refl

complete_from-Answers_example :
    (◌≡◌ {A = ℕ} 200 200)
    × ((result : Json) × (core : Json) × (content : Option String) × (ok (str "hello") ≡ ok result)
        × (ok (some result) ≡ ok (some core))
        × (ok (text_of core) ≡ ok content)
        × Answers content answer)
complete_from-Answers_example =
    complete_from-Answers services plain 2 200 "" (ok (str "hello")) answer answered

abbrev hello_events : Run Json
hello_events = record { yielded = str "hel" ∷ str "lo" ∷ []; ended = none }

streamed : stream_completion services plain 2 200 "" hello_events ≡ record {
  yielded =
      chunk (record { index = 0; delta = "hel"; created_timestamp = 0 })
      ∷ chunk (record { index = 1; delta = "lo"; created_timestamp = 0 })
      ∷ completion answer
      ∷ [];
  ended = none;
}
unfolding stream_completion
streamed = refl

stream_completion-Ends_example : Ends "" (stream_completion services plain 2 200 "" hello_events)
stream_completion-Ends_example = stream_completion-Ends services plain 2 200 "" hello_events
