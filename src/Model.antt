-- ===== src/Model.antt =====
-- codebase/llmhub/app/models/chat_completion/model.py: what a provider answers becomes a completion,
-- in one piece or from a stream of chunks. The abstract methods of a provider are the interface
-- `ChatModel`; clock, random ids, JSON parser and token counter are `Services`.
pub mod Response
pub mod Streaming
mod Tests
use rtxag.Prelude.{
  ℕ, zero, suc, String, Bool, true, false, not, Option, none, some, List, [], ◌∷◌, nonempty, append,
  concat, is_empty, eqb, leb, if◌then◌else◌,
}
use rtxag.Error.{
  ErrorCode, Exception, raised, Kind, Run, Result, ok, err, ◌>>=◌, ◌>>◌, http_error,
  raise_http_error, raise_provider_api_error,
}
use rtxag.Json.{Json, Fields, str, obj, field, end}
use rtxag.Json.Int.{ℤ, negsuc}
use rtxag.Message.{
  Message, assistant_message, text, FunctionCall, FinishReason, ChatCompletion, ChatCompletionChunk,
}
use rtxag.FunctionCall.Building.{CallsContent, no_calls, Services, build_calls}
use rtxag.Route.{Event, chunk, completion}

-- The abstract methods. A handler of function calls may change the content that it is given: it
-- returns what it returns, and the content as it leaves it.
pub record ChatModel : Type 0 where
  pub extract_core_data : Json → Result (Option Json)
  pub extract_text_content : Json → Result (Option String)
  pub extract_function_calls : Json → Result (Option (List FunctionCall))
  pub extract_finish_reason : Json → Result FinishReason
  pub stream_check_error : Json → Result (Unit {0})
  pub stream_extract_chunk_data : Json → Result (Option Json)
  pub stream_extract_chunk : ℕ → Json → String → Result (ℕ × Option ChatCompletionChunk)
  pub stream_handle_function_calls :
      Json → CallsContent → Result (Option CallsContent × CallsContent)
  pub stream_extract_finish_reason : Json → Result (Option FinishReason)

-- The variables of the streaming loop.
pub record Progress : Type 0 where
  pub next_index : ℕ
  pub text_content : String
  pub reason : FinishReason
  pub calls_content : CallsContent
  pub empty_stream : Bool

abbrev pub started : Progress
started = record {
  next_index = 0;
  text_content = "";
  reason = FinishReason.unknown;
  calls_content = no_calls;
  empty_stream = true;
}

module _ (svc : Services) where
  abbrev pub completed : FinishReason → Message → ℕ → ChatCompletion
  completed reason message input_tokens = record {
    finish_reason = reason;
    message = message;
    created_timestamp = svc.now;
    usage = record { input_tokens = input_tokens; output_tokens = svc.response_tokens message };
    fallback_index = none;
  }

  abbrev text_response : FinishReason → Option String → ℕ → Result ChatCompletion
  text_response reason none input_tokens = raise_provider_api_error "The model response is empty."
  text_response reason (some s) input_tokens =
      if nonempty s
      then ok (completed reason (assistant_message (some (text s)) none) input_tokens)
      else raise_provider_api_error "The model response is empty."

  abbrev pub calls_response : List FunctionCall → ℕ → Result ChatCompletion
  calls_response calls input_tokens =
      ok (completed FinishReason.function_calls (assistant_message none (some calls)) input_tokens)

  abbrev from_content :
      FinishReason → Option String → Option CallsContent → ℕ → Result ChatCompletion
  from_content reason content none input_tokens = text_response reason content input_tokens
  from_content reason content (some c) input_tokens =
      let built = build_calls svc c 0 c.names >>= λ calls. calls_response calls input_tokens in
      if is_empty c.names then text_response reason content input_tokens else built

  -- `prepare_response`
  unfoldable pub prepare_response :
      FinishReason
      → Option String
      → Option CallsContent
      → Option (List FunctionCall)
      → ℕ
      → Result ChatCompletion
  unfolding build_calls
  prepare_response reason content calls_content none input_tokens =
      from_content reason content calls_content input_tokens
  prepare_response reason content calls_content (some []) input_tokens =
      from_content reason content calls_content input_tokens
  prepare_response reason content calls_content (some (c ∷ cs)) input_tokens =
      calls_response (c ∷ cs) input_tokens

  -- `handle_response`, by the status and the body as a text.
  unfoldable pub handle_response : ℕ → String → Result (Unit {0})
  handle_response status body =
      if leb 500 status
      then raise_http_error ErrorCode.provider_error "Provider's service is unavailable"
      else if eqb status 200
      then ok tt
      else raise_provider_api_error body

  abbrev core_or_raise : String → Option Json → Result Json
  core_or_raise body none =
      raise_provider_api_error
        (concat ("The model did not return a valid response. data: " ∷ body ∷ []))
  core_or_raise body (some core) = ok core

  -- `chat_completion`, from the provider's response on: its status, its text, and its JSON.
  unfoldable pub complete_from : ChatModel → ℕ → ℕ → String → Result Json → Result ChatCompletion
  unfolding prepare_response handle_response
  complete_from m input_tokens status body json = do
    handle_response status body
    result ← json
    core' ← m.extract_core_data result
    core ← core_or_raise body core'
    content ← m.extract_text_content core
    calls ← m.extract_function_calls core
    reason ← m.extract_finish_reason core
    prepare_response reason content none calls input_tokens

  abbrev pub unless_raised {ℓ} : {A : Type ℓ} → Result A → (A → Run Event) → Run Event
  unless_raised (err e) next = record { yielded = []; ended = some e }
  unless_raised (ok a) next = next a

  abbrev pub yielding : Option ChatCompletionChunk → Run Event → Run Event
  yielding none run = run
  yielding (some c) run = record { yielded = chunk c ∷ run.yielded; ended = run.ended }

  abbrev pub delta_of : Option ChatCompletionChunk → String
  delta_of none = ""
  delta_of (some c) = c.delta

  abbrev pub returned_or : Option CallsContent × CallsContent → CallsContent
  returned_or (none, c) = c
  returned_or (some c, _) = c

  abbrev or_before : Option FinishReason → FinishReason → FinishReason
  or_before none r = r
  or_before (some r) _ = r

  abbrev with_data : Option Json → (Unit {0} → Run Event) → (Json → Run Event) → Run Event
  with_data none skipped next = skipped tt
  with_data (some c) skipped next = next c

  -- What follows the loop.
  unfoldable pub finish : ℕ → Progress → Run Event
  unfolding prepare_response
  finish input_tokens p =
      if p.empty_stream
      then record {
        yielded = [];
        ended = some (
            http_error ErrorCode.provider_error
              "Error on calling provider model API: The model stream response is empty.");
      }
      else unless_raised
          (prepare_response p.reason (some p.text_content) (some p.calls_content) none input_tokens)
          (λ r. record { yielded = completion r ∷ []; ended = none })

  -- The loop over the events of the stream, and the exception that ended the stream, if one did.
  unfoldable pub stream_from : ChatModel → ℕ → Progress → List Json → Option Exception → Run Event
  unfolding finish
  stream_from m input_tokens p [] none = finish input_tokens p
  stream_from m input_tokens p [] (some e) = record { yielded = []; ended = some e }
  stream_from m input_tokens p (d ∷ ds) last = unless_raised (m.stream_check_error d) (λ _.
      unless_raised (m.stream_extract_chunk_data d) (λ data_.
        with_data data_ (λ _. stream_from m input_tokens p ds last)
          (λ c. unless_raised (m.stream_extract_chunk p.next_index c p.text_content) (λ (i, o).
            yielding o (
              unless_raised (m.stream_handle_function_calls c p.calls_content) (λ calls.
                unless_raised (m.stream_extract_finish_reason c) (λ r.
                  stream_from m input_tokens
                    (record {
                      next_index = i;
                      text_content = append p.text_content (delta_of o);
                      reason = or_before r p.reason;
                      calls_content = returned_or calls;
                      empty_stream = false;
                    })
                    ds last)))))))

  -- `chat_completion_stream`, from the provider's response on.
  unfoldable pub stream_completion : ChatModel → ℕ → ℕ → String → Run Json → Run Event
  unfolding stream_from handle_response
  stream_completion m input_tokens status body events =
      unless_raised (handle_response status body)
        (λ _. stream_from m input_tokens started events.yielded events.ended)
