-- ===== src/Anthropic.antt =====
-- codebase/llmhub/providers/anthropic/chat_completion.py: the methods by which Claude's responses
-- and streams are read.
pub mod Prepare
pub mod Images
pub mod Agreement
pub mod Settings
pub mod Entries
mod Tests
use rtxag.Prelude.{
  ℕ, suc, String, Bool, true, false, Option, none, some, List, [], ◌∷◌, append, ◌==◌, ◌||◌,
  if◌then◌else◌,
}
use rtxag.Error.{Result, ok, err, ◌>>=◌}
use rtxag.Json.{
  Json, Items, Fields, null, bool, int, float, str, arr, obj, nil, cons, truthy, truthy?,
}
use rtxag.Json.Access.{type_error, get_key, item, first}
use rtxag.Message.{FinishReason, member_or_unknown, FunctionCall, ChatCompletionChunk}
use rtxag.Model.{ChatModel}
use rtxag.FunctionCall.Building.{CallsContent, Services, invalid_arguments, validate_arguments}
use rtxag.OpenAi.{text_of, text_if_any, delta_text, or_empty, reason_given, stream_check_error}

-- `extract_core_data`
unfoldable pub extract_core_data : Json → Result (Option Json)
unfolding get_key
extract_core_data d = do
  content ← get_key "content" d
  ok (if truthy? content then some d else none)

abbrev first_text : Option Json → Result (Option String)
first_text none = ok none
first_text (some v) =
    if truthy v then (first v >>= λ b. get_key "text" b >>= text_if_any) else ok none

-- `extract_text_content`: the text of the first block.
unfoldable pub extract_text_content : Json → Result (Option String)
unfolding get_key first
extract_text_content d = do content ← get_key "content" d; first_text content

abbrev is_text : String → Option Json → Bool
is_text s (some (str t)) = t == s
is_text s _ = false

-- The names that the adapter translates.
abbrev pub reason_of : String → FinishReason
reason_of s =
    if s == "tool_use"
    then FinishReason.function_calls
    else if s == "max_tokens"
    then FinishReason.length
    else if s == "end_turn" || s == "stop_sequence"
    then FinishReason.stop
    else member_or_unknown s

abbrev pub finish_reason_of : Json → Result FinishReason
finish_reason_of (str s) = ok (reason_of s)
finish_reason_of (arr vs) = type_error "unhashable type: 'list'"
finish_reason_of (obj fs) = type_error "unhashable type: 'dict'"
finish_reason_of _ = ok FinishReason.unknown

-- `extract_finish_reason`
unfoldable pub extract_finish_reason : Json → Result FinishReason
unfolding get_key
extract_finish_reason d = get_key "stop_reason" d >>= λ r. finish_reason_of (reason_given r)

abbrev data_if_delta : Json → Option Json → Option Json
data_if_delta d none = none
data_if_delta d (some null) = none
data_if_delta d (some _) = some d

-- `stream_extract_chunk_data`
unfoldable pub stream_extract_chunk_data : Json → Result (Option Json)
unfolding get_key
stream_extract_chunk_data d = do delta ← get_key "delta" d; ok (data_if_delta d delta)

abbrev chunk_of_type : ℕ → ℕ → Json → Option Json → Result (ℕ × Option ChatCompletionChunk)
chunk_of_type now i delta t =
    if is_text "text_delta" t
    then (item "text" delta >>= delta_text >>= λ s.
        ok (suc i, some (record { index = i; delta = s; created_timestamp = now })))
    else ok (i, none)

abbrev chunk_of_delta : ℕ → ℕ → Option Json → Result (ℕ × Option ChatCompletionChunk)
chunk_of_delta now i none = ok (i, none)
chunk_of_delta now i (some delta) =
    if truthy delta
    then (get_key "type" delta >>= λ t. chunk_of_type now i delta t)
    else ok (i, none)

-- `stream_extract_chunk`, at a time.
unfoldable pub stream_extract_chunk : ℕ → ℕ → Json → Result (ℕ × Option ChatCompletionChunk)
unfolding get_key item
stream_extract_chunk now i data_ =
    if truthy data_ then (get_key "delta" data_ >>= chunk_of_delta now i) else ok (i, none)

abbrev or_null : Option Json → Json
or_null none = null
or_null (some v) = v

abbrev reason_of_delta : Option Json → Result (Option FinishReason)
reason_of_delta none = ok none
reason_of_delta (some delta) =
    if truthy delta
    then (get_key "stop_reason" delta >>= λ r. finish_reason_of (or_null r) >>= λ f. ok (some f))
    else ok none

-- `stream_extract_finish_reason`
unfoldable pub stream_extract_finish_reason : Json → Result (Option FinishReason)
unfolding get_key
stream_extract_finish_reason data_ = do delta ← get_key "delta" data_; reason_of_delta delta

module _ (svc : Services) where
  -- `build_function_call` with the arguments as a dictionary.
  unfoldable pub build_from_dict : ℕ → String → Json → Result FunctionCall
  build_from_dict n name input =
      if truthy input
      then (do
        fields ← validate_arguments svc input
        ok (record { id = append "P3lf" (svc.random_id n); name = name; arguments = fields }))
      else invalid_arguments

  -- The loop over the blocks of a message, with the number of the next random id.
  unfoldable pub build_tool_uses : ℕ → Items → Result (List FunctionCall)
  unfolding get_key item build_from_dict
  build_tool_uses n nil = ok []
  build_tool_uses n (cons block blocks) = do
    t ← get_key "type" block
    let same = build_tool_uses n blocks
    let next = build_tool_uses (suc n) blocks
    if is_text "tool_use" t
        then (do
          name ← item "name" block >>= text_of
          input ← item "input" block
          f ← build_from_dict n name input
          rest ← next
          ok (f ∷ rest))
        else same

  abbrev if_nonempty : List FunctionCall → Option (List FunctionCall)
  if_nonempty [] = none
  if_nonempty (f ∷ fs) = some (f ∷ fs)

  abbrev of_blocks : Json → Result (Option (List FunctionCall))
  of_blocks (arr blocks) = build_tool_uses 0 blocks >>= λ fs. ok (if_nonempty fs)
  of_blocks _ = ok none

  -- `extract_function_calls`
  unfoldable pub extract_function_calls : Json → Result (Option (List FunctionCall))
  unfolding item build_tool_uses
  extract_function_calls d = if truthy d then (item "content" d >>= of_blocks) else ok none

  -- `AnthropicChatCompletionModel`; its `stream_handle_function_calls` does nothing.
  abbrev pub anthropic : ChatModel
  anthropic = record {
    extract_core_data = extract_core_data;
    extract_text_content = extract_text_content;
    extract_function_calls = extract_function_calls;
    extract_finish_reason = extract_finish_reason;
    stream_check_error = stream_check_error;
    stream_extract_chunk_data = stream_extract_chunk_data;
    stream_extract_chunk = λ i data_ text. stream_extract_chunk svc.now i data_;
    stream_handle_function_calls = λ data_ c. ok (none, c);
    stream_extract_finish_reason = stream_extract_finish_reason;
  }
