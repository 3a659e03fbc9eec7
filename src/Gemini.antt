-- ===== src/Gemini.antt =====
-- codebase/llmhub/providers/google_gemini/chat_completion.py: the methods by which Gemini's responses
-- and streams are read. The arguments of a function call are a dictionary; for anything else a
-- TypeError comes here.
pub mod Prepare
pub mod Agreement
pub mod Errors
mod Tests
use rtxag.Prelude.{
  ℕ, zero, suc, String, true, false, Option, none, some, List, [], ◌∷◌, ◌++◌, ◌==◌, ◌||◌,
  if◌then◌else◌,
}
use rtxag.Error.{Kind, raised, Result, ok, err, ◌>>=◌, raise_provider_api_error}
use rtxag.Json.{Json, Fields, null, str, arr, obj, nil, cons, end, truthy}
use rtxag.Json.Int.{ℤ, pos, negsuc}
use rtxag.Json.Access.{type_error, get_key, item, first}
use rtxag.Message.{FinishReason, member_or_unknown, FunctionCall, ChatCompletionChunk}
use rtxag.Model.{ChatModel}
use rtxag.FunctionCall.Building.{CallsContent, Services}
use rtxag.OpenAi.{text_of, delta_text, or_empty, reason_given, stream_check_error}
use rtxag.Anthropic.{build_from_dict}

-- `google_gemini_finish_reason_map`, and the names of the members for what is not in it
abbrev pub reason_of : String → FinishReason
reason_of s =
    if s == "STOP"
    then FinishReason.stop
    else if s == "MAX_TOKENS"
    then FinishReason.length
    else if s == "RECITATION"
    then FinishReason.recitation
    else if s == "SAFETY"
    then FinishReason.error
    else if s == "FINISH_REASON_UNSPECIFIED" || s == "OTHER"
    then FinishReason.unknown
    else member_or_unknown s

abbrev pub finish_reason_of : Json → Result FinishReason
finish_reason_of (str s) = ok (reason_of s)
finish_reason_of (arr vs) = type_error "unhashable type: 'list'"
finish_reason_of (obj fs) = type_error "unhashable type: 'dict'"
finish_reason_of _ = ok FinishReason.unknown

abbrev unless_null : Option Json → Option Json
unless_null none = none
unless_null (some null) = none
unless_null (some v) = some v

-- `d.get("candidates")`, where `None` is as good as absent.
abbrev candidates : Json → Result (Option Json)
candidates d = get_key "candidates" d >>= λ v. ok (unless_null v)

abbrev core_of : (Json → String) → Json → Option Json → Result (Option Json)
core_of dumps d none = raise_provider_api_error (dumps d)
core_of dumps d (some v) = first v >>= λ c. ok (some c)

-- `extract_core_data`
unfoldable pub extract_core_data : (Json → String) → Json → Result (Option Json)
unfolding get_key first
extract_core_data dumps d = do v ← candidates d; core_of dumps d v

abbrev first_if_some : Option Json → Result (Option Json)
first_if_some none = ok none
first_if_some (some v) = first v >>= λ c. ok (some c)

-- `stream_extract_chunk_data`
unfoldable pub stream_extract_chunk_data : Json → Result (Option Json)
unfolding get_key first
stream_extract_chunk_data d = do v ← candidates d; first_if_some v

abbrev or_one_part : Option Json → Json
or_one_part none = arr (cons (obj end) nil)
or_one_part (some v) = v

-- `data.get("content", {}).get("parts", [{}])[0]`
unfoldable pub first_part : Json → Result Json
unfolding get_key first
first_part d = do
  content ← get_key "content" d
  parts ← get_key "parts" (or_empty content)
  first (or_one_part parts)

-- A text, or what is no text and counts as false.
abbrev text_or_none : Option Json → Result (Option String)
text_or_none none = ok none
text_or_none (some (str s)) = ok (some s)
text_or_none (some v) = if truthy v then err (raised Kind.validation_error "content") else ok none

-- `extract_text_content`
unfoldable pub extract_text_content : Json → Result (Option String)
unfolding get_key first_part
extract_text_content d =
    if truthy d then (first_part d >>= get_key "text" >>= text_or_none) else ok none

-- `extract_finish_reason`
unfoldable pub extract_finish_reason : Json → Result FinishReason
unfolding get_key
extract_finish_reason d = get_key "finishReason" d >>= λ r. finish_reason_of (reason_given r)

abbrev chunk_of : ℕ → ℕ → Option Json → Result (ℕ × Option ChatCompletionChunk)
chunk_of now i none = ok (i, none)
chunk_of now i (some v) =
    if truthy v
    then (delta_text v >>= λ s.
        ok (suc i, some (record { index = i; delta = s; created_timestamp = now })))
    else ok (i, none)

-- `stream_extract_chunk`, at a time.
unfoldable pub stream_extract_chunk : ℕ → ℕ → Json → Result (ℕ × Option ChatCompletionChunk)
unfolding get_key first_part
stream_extract_chunk now i data_ = first_part data_ >>= get_key "text" >>= chunk_of now i

abbrev reason_if_any : Option Json → Result (Option FinishReason)
reason_if_any none = ok none
reason_if_any (some v) = if truthy v then (finish_reason_of v >>= λ r. ok (some r)) else ok none

-- `stream_extract_finish_reason`
unfoldable pub stream_extract_finish_reason : Json → Result (Option FinishReason)
unfolding get_key
stream_extract_finish_reason data_ = get_key "finishReason" data_ >>= reason_if_any

abbrev dict_of : Json → Result Fields
dict_of (obj fs) = ok fs
dict_of _ = type_error "args"

-- A function call in an event: the first one is kept, and to a later one `+=` of dictionaries is
-- applied.
unfoldable pub add_function_call : CallsContent → Json → Result CallsContent
unfolding item
add_function_call c call = elim c.index [
  | negsuc n ↦ (do
    args ← item "args" call >>= dict_of
    name ← item "name" call >>= text_of
    ok (record c {
      index = pos 0;
      arguments_dicts = c.arguments_dicts ++ args ∷ [];
      names = c.names ++ name ∷ [];
    }))
  | pos ℕ.zero ↦
      (item "args" call >>= λ args.
      type_error "unsupported operand type(s) for +=: 'dict' and 'dict'")
  | pos (ℕ.suc n) ↦ ok c
]

abbrev if_call : CallsContent → Option Json → Result (Option CallsContent × CallsContent)
if_call c none = ok (none, c)
if_call c (some call) =
    if truthy call then (add_function_call c call >>= λ d. ok (some d, d)) else ok (none, c)

-- `stream_handle_function_calls`
unfoldable pub stream_handle_function_calls :
    Json → CallsContent → Result (Option CallsContent × CallsContent)
unfolding get_key first_part add_function_call
stream_handle_function_calls data_ c = first_part data_ >>= get_key "functionCall" >>= if_call c

module _ (svc : Services) (dumps : Json → String) where
  abbrev call_if_any : Option Json → Result (Option (List FunctionCall))
  call_if_any none = ok none
  call_if_any (some call) =
      if truthy call
      then (do
        name ← item "name" call >>= text_of
        args ← item "args" call
        f ← build_from_dict svc 0 name args
        ok (some (f ∷ [])))
      else ok none

  abbrev of_parts : Option Json → Result (Option (List FunctionCall))
  of_parts none = ok none
  of_parts (some v) =
      if truthy v then (first v >>= get_key "functionCall" >>= call_if_any) else ok none

  -- `extract_function_calls`
  unfoldable pub extract_function_calls : Json → Result (Option (List FunctionCall))
  unfolding get_key first item build_from_dict
  extract_function_calls d = do
    content ← get_key "content" d
    parts ← get_key "parts" (or_empty content)
    of_parts parts

  -- `GoogleGeminiChatCompletionModel`
  abbrev pub gemini : ChatModel
  gemini = record {
    extract_core_data = extract_core_data dumps;
    extract_text_content = extract_text_content;
    extract_function_calls = extract_function_calls;
    extract_finish_reason = extract_finish_reason;
    stream_check_error = stream_check_error;
    stream_extract_chunk_data = stream_extract_chunk_data;
    stream_extract_chunk = λ i data_ text. stream_extract_chunk svc.now i data_;
    stream_handle_function_calls = stream_handle_function_calls;
    stream_extract_finish_reason = stream_extract_finish_reason;
  }
