-- ===== src/CustomHost.antt =====
-- codebase/llmhub/providers/custom_host: chat completions at an address of the user's own, in one of
-- two formats of function calls, with a streaming loop of its own. The post over HTTP is a parameter.
pub mod Formats
pub mod BlackList
pub mod LastEvent
mod Tests
use rtxag.Prelude.{
  ℕ, suc, String, Bool, true, false, Option, none, some, List, [], ◌∷◌, append, concat, ◌==◌,
  if◌then◌else◌,
}
use rtxag.Prelude.Text.{has_text}
use rtxag.Error.{
  ErrorCode, Exception, Kind, raised, Run, Result, ok, err, ◌>>=◌, ◌>>◌, raise_http_error,
}
use rtxag.Json.{Json, Fields, null}
use rtxag.Json.Access.{type_error}
use rtxag.Message.{FinishReason, ChatCompletion, is_assistant_function_calls_message}
use rtxag.Route.{Event, completion}
use rtxag.Payload.{Prompt, credential}
use rtxag.FunctionCall.Building.{CallsContent, Services, no_calls}
use rtxag.Model.{
  ChatModel, prepare_response, handle_response, unless_raised, yielding, delta_of, returned_or,
}
use rtxag.CustomHost.Formats.{Instance, HostRequest, tool_calls_instance, function_call_instance}

-- The loop over `CONFIG.PROVIDER_URL_BLACK_LIST`.
unfoldable pub check_black_list : List String → Option String → Result (Unit {0})
unfolding has_text
check_black_list [] api_url = ok tt
check_black_list (url ∷ urls) none = type_error "argument of type 'NoneType' is not iterable"
check_black_list (url ∷ urls) (some api_url) =
    let rest = check_black_list urls (some api_url) in
    if has_text url api_url
    then raise_http_error ErrorCode.request_validation_error (append "Invalid provider url: " url)
    else rest

-- `None` is what the methods of an instance are then called with.
abbrev pub or_none : Option Json → Json
or_none none = null
or_none (some v) = v

-- The variables of the streaming loop; `finish_reason` is that of the last event, or `None`.
pub record Progress : Type 0 where
  pub next_index : ℕ
  pub text_content : String
  pub reason : Option FinishReason
  pub calls_content : CallsContent

abbrev pub started : Progress
started = record {
  next_index = 0;
  text_content = "";
  reason = some FinishReason.unknown;
  calls_content = no_calls;
}

-- A completion with a text needs a finish reason; of pydantic's message the field is kept.
abbrev pub without_reason : ChatCompletion → Result ChatCompletion
without_reason c =
    if is_assistant_function_calls_message c.message
    then ok c
    else err (raised Kind.validation_error "finish_reason")

module _ (svc : Services) where
  -- `prepare_response` with a finish reason that may be `None`.
  unfoldable pub end_response : ℕ → Progress → Option FinishReason → Result ChatCompletion
  unfolding prepare_response
  end_response input_tokens p none =
      prepare_response svc FinishReason.unknown (some p.text_content) (some p.calls_content) none
        input_tokens
      >>= without_reason
  end_response input_tokens p (some r) =
      prepare_response svc r (some p.text_content) (some p.calls_content) none input_tokens

  abbrev pub finish : ℕ → Progress → Run Event
  finish input_tokens p =
      unless_raised svc (end_response input_tokens p p.reason)
        (λ c. record { yielded = completion c ∷ []; ended = none })

  -- The streaming loop.
  unfoldable pub stream_from : ChatModel → ℕ → Progress → List Json → Option Exception → Run Event
  unfolding end_response
  stream_from m input_tokens p [] none = finish input_tokens p
  stream_from m input_tokens p [] (some e) = record { yielded = []; ended = some e }
  stream_from m input_tokens p (d ∷ ds) last = unless_raised svc (m.stream_check_error d) (λ _.
      unless_raised svc (m.stream_extract_chunk_data d) (λ data_.
        unless_raised svc (m.stream_extract_chunk p.next_index (or_none data_) p.text_content)
          (λ (i, o). yielding svc o (
            unless_raised svc (m.stream_handle_function_calls (or_none data_) p.calls_content)
              (λ calls. unless_raised svc (m.stream_extract_finish_reason (or_none data_)) (λ r.
                stream_from m input_tokens
                  (record {
                    next_index = i;
                    text_content = append p.text_content (delta_of svc o);
                    reason = r;
                    calls_content = returned_or svc calls;
                  })
                  ds last))))))

module _ (svc : Services) (dumps : Fields → String) where
  -- The instance that the model id names.
  unfoldable pub choose_instance : String → Result Instance
  choose_instance provider_model_id =
      if provider_model_id == "openai-function-call"
      then ok (function_call_instance svc dumps)
      else if provider_model_id == "openai-tool-calls"
      then ok (tool_calls_instance svc dumps)
      else raise_http_error ErrorCode.request_validation_error (
          concat (
            "Provider model id only supports 'openai-function-call' and 'openai-tool-calls', but got "
            ∷ provider_model_id ∷ []))

  -- `chat_completion`: the answer of the host is its status, its text, and its JSON.
  unfoldable pub chat_completion :
      List String
      → (HostRequest → Result (ℕ × String × Result Json))
      → ℕ
      → Prompt
      → Result ChatCompletion
  unfolding choose_instance check_black_list prepare_response handle_response
  chat_completion black_list post input_tokens p = do
    instance' ← choose_instance p.provider_model_id
    let model = instance'.model
    request ← instance'.prepare_request (record p { stream = false })
    check_black_list black_list request.api_url
    (status, body, json) ← post request
    handle_response svc status body
    result ← json
    core ← model.extract_core_data result
    content ← model.extract_text_content (or_none core)
    calls ← model.extract_function_calls (or_none core)
    reason ← model.extract_finish_reason (or_none core)
    prepare_response svc reason content none calls input_tokens

  abbrev pub streamed : Instance → ℕ → ℕ × String × Run Json → Run Event
  streamed instance' input_tokens (status, body, events) =
      unless_raised svc (handle_response svc status body)
        (λ _. stream_from svc instance'.model input_tokens started events.yielded events.ended)

  -- `chat_completion_stream`
  unfoldable pub chat_completion_stream :
      (HostRequest → Result (ℕ × String × Run Json)) → ℕ → Prompt → Run Event
  unfolding choose_instance stream_from handle_response
  chat_completion_stream post input_tokens p =
      unless_raised svc (choose_instance p.provider_model_id) (λ instance'.
        unless_raised svc (instance'.prepare_request (record p { stream = true }))
          (λ request. unless_raised svc (post request) (streamed instance' input_tokens)))
