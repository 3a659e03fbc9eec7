-- ===== src/Cohere.antt =====
-- codebase/llmhub/providers/cohere/chat_completion.py: the last message is sent apart from the others,
-- and responses are flat.
pub mod Splitting
use rtxag.Prelude.{
  ℕ, suc, String, true, false, ◌||◌, Option, none, some, List, [], ◌∷◌, append, ◌==◌, if◌then◌else◌,
}
use rtxag.Error.{ErrorCode, Kind, raised, Result, ok, err, ◌>>=◌, raise_http_error}
use rtxag.Json.{Json, Items, Fields, null, bool, str, arr, obj, field, end, truthy, assign}
use rtxag.Json.Access.{type_error, get_key, item}
use rtxag.Message.{
  Message, Part, text, parts, text_part, image_url, letter, FinishReason, member_or_unknown,
  ChatCompletionChunk, system_message, user_message, assistant_message, function_message,
}
use rtxag.Config.{Configuration}
use rtxag.FunctionCall.Building.{CallsContent, Services}
use rtxag.Model.{ChatModel}
use rtxag.Payload.{Prompt, HttpRequest, Adapter, plain_content, build_messages}
use rtxag.OpenAi.{delta_text, reason_given, stream_check_error}
use rtxag.OpenAi.Prepare.{bearer_header}
use rtxag.Variants.{read_reason, extract_reason, stream_reason}

-- `cohere_finish_reason_map`, and the names of the members for what is not in it
abbrev pub cohere_reason : String → FinishReason
cohere_reason s =
    if s == "COMPLETE"
    then FinishReason.stop
    else if s == "MAX_TOKENS" || s == "ERROR_LIMIT"
    then FinishReason.length
    else if s == "ERROR_TOXIC" || s == "ERROR"
    then FinishReason.error
    else if s == "USER_CANCEL"
    then FinishReason.unknown
    else member_or_unknown s

abbrev pub said : String → Json → Json
said role message = obj (field "role" (str role) (field "message" message end))

-- The texts of a list content; a letter has no `type`.
unfoldable pub text_of_parts : String → List Part → Result String
text_of_parts s [] = ok s
text_of_parts s (text_part t ∷ ps) = text_of_parts (append s t) ps
text_of_parts s (image_url u ∷ ps) = text_of_parts s ps
text_of_parts s (letter c ∷ ps) =
    err (raised Kind.attribute_error "'str' object has no attribute 'type'")

-- `_build_cohere_message`: what falls through gives `None`.
unfoldable pub build_cohere_message : Message → Result Json
unfolding text_of_parts
build_cohere_message (system_message c) = plain_content c >>= λ v. ok (said "system" v)
build_cohere_message (user_message none) = ok null
build_cohere_message (user_message (some (text s))) = ok (said "user" (str s))
build_cohere_message (user_message (some (parts ps))) =
    text_of_parts "" ps >>= λ s. ok (said "user" (str s))
build_cohere_message (assistant_message c none) = plain_content c >>= λ v. ok (said "assistant" v)
build_cohere_message _ = ok null

-- `messages[:-1]` and `messages[-1]`
abbrev pub with_last : Message → List Message → List Message × Message
with_last m [] = ([], m)
with_last m (n ∷ ns) = let (before, last) = with_last n ns in (m ∷ before, last)

abbrev built : List Message × Message → Result (Json × Items)
built (before, last) = do
  chat_history ← build_messages build_cohere_message before
  latest_message ← build_cohere_message last
  message ← item "message" latest_message
  ok (message, chat_history)

-- `_split_messages`
unfoldable pub split_messages : List Message → Result (Json × Items)
unfolding build_messages build_cohere_message item
split_messages [] = raise_http_error ErrorCode.request_validation_error "No messages provided"
split_messages (m ∷ ms) = built (with_last m ms)

abbrev cohere_key : String → String
cohere_key key = if key == "top_p" then "p" else if key == "top_k" then "k" else key

-- The loop over `configs.model_dump()`
unfoldable pub add_cohere_configs : Configuration → Fields → Fields
unfolding assign
add_cohere_configs [] payload = payload
add_cohere_configs ((key, none) ∷ cs) payload = add_cohere_configs cs payload
add_cohere_configs ((key, some value) ∷ cs) payload =
    add_cohere_configs cs (assign (cohere_key key) value payload)

-- `_build_cohere_chat_completion_payload`
unfoldable pub build_cohere_payload : Prompt → Result Fields
unfolding split_messages add_cohere_configs
build_cohere_payload p = do
  (message, chat_history) ← split_messages p.messages
  ok (
      add_cohere_configs p.configs (
        field "chat_history" (arr chat_history) (
          field "model" (str p.provider_model_id)
            (field "stream" (bool p.stream) (field "message" message end)))))

abbrev unless_null : Json → Option Json
unless_null null = none
unless_null d = some d

abbrev text_or_none : Option Json → Result (Option String)
text_or_none none = ok none
text_or_none (some null) = ok none
text_or_none (some (str s)) = ok (some s)
text_or_none (some _) = err (raised Kind.validation_error "content")

abbrev chunk_of : ℕ → ℕ → Option Json → Result (ℕ × Option ChatCompletionChunk)
chunk_of now i none = ok (i, none)
chunk_of now i (some v) =
    if truthy v
    then (delta_text v >>= λ s.
        ok (suc i, some (record { index = i; delta = s; created_timestamp = now })))
    else ok (i, none)

-- `CohereChatCompletionModel`
abbrev pub cohere : Services → Adapter
cohere svc = record {
  prepare_request = λ p. build_cohere_payload p >>= λ payload. ok (record {
    api_url = "https://api.cohere.ai/v1/chat";
    headers = bearer_header "COHERE_API_KEY" p.credentials;
    payload = payload;
  });
  model = record {
    extract_core_data = λ d. ok (unless_null d);
    extract_text_content = λ d. get_key "text" d >>= text_or_none;
    extract_function_calls = λ d. ok none;
    extract_finish_reason = extract_reason (λ s. ok (cohere_reason s));
    stream_check_error = stream_check_error;
    stream_extract_chunk_data = λ d. ok (unless_null d);
    stream_extract_chunk = λ i data_ content. get_key "text" data_ >>= chunk_of svc.now i;
    stream_handle_function_calls = λ data_ c. ok (none, c);
    stream_extract_finish_reason = stream_reason (λ s. ok (cohere_reason s));
  };
}
