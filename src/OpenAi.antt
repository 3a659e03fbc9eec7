-- ===== src/OpenAi.antt =====
-- codebase/llmhub/providers/openai/chat_completion.py: the methods by which OpenAI's responses and
-- streams are read, an instance of the interface of chat models. An index of a tool call is an
-- integer and names and arguments are texts; for anything else the TypeError comes here.
pub mod Assembly
pub mod Errors
pub mod Prepare
pub mod Entries
pub mod Reading
pub mod Agreement
pub mod Calls
mod Tests
use rtxag.Prelude.{
  ℕ, zero, suc, ◌+◌, ◌-◌, String, Bool, true, false, not, ◌&&◌, ◌||◌, Option, none, some, List, [],
  ◌∷◌, ◌++◌, append, concat, nonempty, length, ltb, eqb, ◌==◌, if◌then◌else◌,
}
use rtxag.Error.{Exception, Kind, raised, Result, ok, err, ◌>>=◌, ◌>>◌, raise_provider_api_error}
use rtxag.Json.{
  Json, Items, Fields, null, bool, int, float, str, arr, obj, nil, cons, end, lookup, truthy,
  truthy?,
}
use rtxag.Json.Int.{ℤ, pos, negsuc, leb_ℤ}
use rtxag.Json.Access.{type_error, get_key, item, first}
use rtxag.Message.{FinishReason, member_or_unknown, FunctionCall, ChatCompletionChunk}
use rtxag.Model.{ChatModel}
use rtxag.FunctionCall.Building.{CallsContent, Services, build_function_call}

abbrev pub text_of : Json → Result String
text_of (str s) = ok s
text_of (obj fs) = type_error "can only concatenate str (not \"dict\") to str"
text_of _ = type_error "can only concatenate str to str"

abbrev first_if_any : Option Json → Result (Option Json)
first_if_any none = ok none
first_if_any (some v) = if truthy v then (first v >>= λ c. ok (some c)) else ok none

-- `extract_core_data` and `stream_extract_chunk_data`
unfoldable pub first_choice : Json → Result (Option Json)
unfolding get_key first
first_choice d = do choices ← get_key "choices" d; first_if_any choices

abbrev raise_error : Option Json → Result (Unit {0})
raise_error none = ok tt
raise_error (some v) = if truthy v then (text_of v >>= λ s. raise_provider_api_error s) else ok tt

-- `stream_check_error`
unfoldable pub stream_check_error : Json → Result (Unit {0})
unfolding get_key
stream_check_error d = do e ← get_key "error" d; raise_error e

-- `delta = chunk_data.get("delta", {})`
abbrev pub or_empty : Option Json → Json
or_empty none = obj end
or_empty (some v) = v

-- The field `delta` is declared `str`.
abbrev pub delta_text : Json → Result String
delta_text (str s) = ok s
delta_text _ = err (raised Kind.validation_error "delta: Input should be a valid string")

abbrev chunk_of : ℕ → ℕ → Option Json → Result (ℕ × Option ChatCompletionChunk)
chunk_of now i none = ok (i, none)
chunk_of now i (some v) =
    if truthy v
    then (delta_text v >>= λ s.
        ok (suc i, some (record { index = i; delta = s; created_timestamp = now })))
    else ok (i, none)

-- `stream_extract_chunk`, at a time.
unfoldable pub stream_extract_chunk : ℕ → ℕ → Json → Result (ℕ × Option ChatCompletionChunk)
unfolding get_key
stream_extract_chunk now i data_ =
    if truthy data_
    then (do
      delta ← get_key "delta" data_
      content ← get_key "content" (or_empty delta)
      chunk_of now i content)
    else ok (i, none)

-- `ChatCompletionFinishReason.__members__.get(reason, unknown)`
abbrev reason_of : String → FinishReason
reason_of s = if s == "tool_calls" then FinishReason.function_calls else member_or_unknown s

-- What is said where the content filter was triggered; for some providers that is no error.
abbrev pub text_reason : Option String → String → Result (Option FinishReason)
text_reason none s = ok (some (reason_of s))
text_reason (some said) s =
    if s == "content_filter" then raise_provider_api_error said else ok (some (reason_of s))

abbrev pub finish_reason_of : Option String → Json → Result (Option FinishReason)
finish_reason_of filtered (str s) = text_reason filtered s
finish_reason_of filtered (arr vs) = type_error "unhashable type: 'list'"
finish_reason_of filtered (obj fs) = type_error "unhashable type: 'dict'"
finish_reason_of filtered _ = ok (some FinishReason.unknown)

abbrev reason_if_any : Option String → Option Json → Result (Option FinishReason)
reason_if_any filtered none = ok none
reason_if_any filtered (some v) = if truthy v then finish_reason_of filtered v else ok none

-- `stream_extract_finish_reason`
unfoldable pub stream_extract_finish_reason : Option String → Json → Result (Option FinishReason)
unfolding get_key
stream_extract_finish_reason filtered data_ =
    get_key "finish_reason" data_ >>= reason_if_any filtered

-- xs[n] += s
unfoldable pub add_at : ℕ → String → List String → Result (List String)
add_at n s [] = err (raised Kind.index_error "list index out of range")
add_at zero s (x ∷ xs) = ok (append x s ∷ xs)
add_at (suc n) s (x ∷ xs) = do rest ← add_at n s xs; ok (x ∷ rest)

-- The same with an index that counts from the end where it is negative.
unfoldable pub add_at_index : ℤ → String → List String → Result (List String)
unfolding add_at
add_at_index (pos n) s xs = add_at n s xs
add_at_index (negsuc n) s xs =
    if ltb n (length xs)
    then add_at (length xs - suc n) s xs
    else err (raised Kind.index_error "list index out of range")

abbrev pub as_index : Json → Result ℤ
as_index (int n) = ok n
as_index _ = type_error "'>' not supported between these instances"

-- `function["arguments"] or ""`
abbrev text_or_empty : Json → Result String
text_or_empty v = if truthy v then text_of v else ok ""

-- A piece of the call that is being read.
abbrev pub append_piece : CallsContent → Json → Result CallsContent
append_piece c function = do
  a ← item "arguments" function
  s ← text_of a
  strs ← add_at_index c.index s c.arguments_strs
  ok (record c { arguments_strs = strs })

-- The first piece of another call.
abbrev pub another_call : CallsContent → ℤ → Json → Result CallsContent
another_call c i function = do
  a ← item "arguments" function
  s ← text_or_empty a
  n ← item "name" function
  name ← text_of n
  ok (record c {
    index = i;
    arguments_strs = c.arguments_strs ++ s ∷ [];
    names = c.names ++ name ∷ [];
  })

-- A tool call with an index, against the index of the call that is being read.
unfoldable pub add_tool_call : CallsContent → ℤ → Json → Result CallsContent
unfolding item add_at_index
add_tool_call c i function =
    if leb_ℤ i c.index
    then (if leb_ℤ c.index i then append_piece c function else ok c)
    else another_call c i function

-- Calls of a delta: the first of them is read.
unfoldable pub read_tool_calls : CallsContent → Json → Result CallsContent
unfolding add_tool_call first item
read_tool_calls c calls = do
  call ← first calls
  index ← item "index" call
  i ← as_index index
  function ← item "function" call
  add_tool_call c i function

abbrev if_calls : CallsContent → Option Json → Result (Option CallsContent × CallsContent)
if_calls c none = ok (none, c)
if_calls c (some calls) =
    if truthy calls then (read_tool_calls c calls >>= λ d. ok (some d, d)) else ok (none, c)

-- `stream_handle_function_calls`
unfoldable pub stream_handle_function_calls :
    Json → CallsContent → Result (Option CallsContent × CallsContent)
unfolding get_key read_tool_calls
stream_handle_function_calls data_ c = do
  d ← get_key "delta" data_
  if truthy (or_empty d) then (get_key "tool_calls" (or_empty d) >>= if_calls c) else ok (none, c)

abbrev pub text_if_any : Option Json → Result (Option String)
text_if_any none = ok none
text_if_any (some v) = if truthy v then (text_of v >>= λ s. ok (some s)) else ok none

abbrev pub message_of : Json → Result (Option Json)
message_of d = if truthy d then get_key "message" d else ok none

abbrev content_if_any : Option Json → Result (Option String)
content_if_any none = ok none
content_if_any (some m) = if truthy m then (get_key "content" m >>= text_if_any) else ok none

-- `extract_text_content`
unfoldable pub extract_text_content : Json → Result (Option String)
unfolding get_key
extract_text_content d = message_of d >>= content_if_any

abbrev pub optional_text : Json → Result (Option String)
optional_text null = ok none
optional_text (str s) = ok (some s)
optional_text _ = type_error "the JSON object must be str, bytes or bytearray"

abbrev pub reason_given : Option Json → Json
reason_given none = str "unknown"
reason_given (some v) = v

abbrev or_unknown : Option FinishReason → FinishReason
or_unknown none = FinishReason.unknown
or_unknown (some r) = r

-- `extract_finish_reason`
unfoldable pub extract_finish_reason : Option String → Json → Result FinishReason
unfolding get_key
extract_finish_reason filtered d = do
  r ← get_key "finish_reason" d
  o ← finish_reason_of filtered (reason_given r)
  ok (or_unknown o)

-- message_data.get(key)
abbrev pub of_message : String → Option Json → Result (Option Json)
of_message key none = err (raised Kind.attribute_error "'NoneType' object has no attribute 'get'")
of_message key (some m) = get_key key m

module _ (svc : Services) where
  -- The loop over the calls of a message, with the number of the next random id.
  unfoldable pub build_tool_calls : ℕ → Items → Result (List FunctionCall)
  unfolding item build_function_call
  build_tool_calls n nil = ok []
  build_tool_calls n (cons call calls) = do
    function ← item "function" call
    name ← item "name" function >>= text_of
    arguments ← item "arguments" function >>= optional_text
    f ← build_function_call svc n name arguments none
    rest ← build_tool_calls (suc n) calls
    ok (f ∷ rest)

  abbrev calls_of : Json → Result (Option (List FunctionCall))
  calls_of (arr vs) = build_tool_calls 0 vs >>= λ fs. ok (some fs)
  calls_of _ = type_error "string indices must be integers"

  abbrev calls_if_any : Option Json → Result (Option (List FunctionCall))
  calls_if_any none = ok none
  calls_if_any (some v) = if truthy v then calls_of v else ok none

  -- `extract_function_calls`
  unfoldable pub extract_function_calls : Json → Result (Option (List FunctionCall))
  unfolding get_key build_tool_calls
  extract_function_calls d = do
    m ← message_of d
    calls ← of_message "tool_calls" m
    calls_if_any calls

  -- The methods, for OpenAI and for the providers with the same responses.
  abbrev pub compatible : Option String → ChatModel
  compatible filtered = record {
    extract_core_data = first_choice;
    extract_text_content = extract_text_content;
    extract_function_calls = extract_function_calls;
    extract_finish_reason = extract_finish_reason filtered;
    stream_check_error = stream_check_error;
    stream_extract_chunk_data = first_choice;
    stream_extract_chunk = λ i data_ text. stream_extract_chunk svc.now i data_;
    stream_handle_function_calls = stream_handle_function_calls;
    stream_extract_finish_reason = stream_extract_finish_reason filtered;
  }

  -- `OpenaiChatCompletionModel`
  abbrev pub openai : ChatModel
  openai = compatible (some "Openai content filter triggered, content was omitted")
