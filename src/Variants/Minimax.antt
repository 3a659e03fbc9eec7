-- ===== src/Variants/Minimax.antt =====
-- codebase/llmhub/providers/minimax/chat_completion.py. `str` of a dictionary is a parameter.
use rtxag.Prelude.{
  String, Bool, true, false, ◌||◌, Option, none, some, List, [], ◌∷◌, ◌==◌, if◌then◌else◌,
}
use rtxag.Error.{Result, ok, ◌>>=◌}
use rtxag.Json.{
  Json, Items, Fields, null, bool, int, str, arr, obj, nil, cons, field, end, truthy, assign,
}
use rtxag.Json.Int.{pos}
use rtxag.Json.Access.{get_key, item, first}
use rtxag.Message.{Message, FinishReason}
use rtxag.FunctionCall.Dump.{Function, dump_parameters}
use rtxag.FunctionCall.Building.{CallsContent, Services}
use rtxag.Payload.{Prompt, Adapter, build_messages, add_configs}
use rtxag.OpenAi.{compatible, or_empty, add_tool_call, stream_extract_finish_reason}
use rtxag.OpenAi.Prepare.{build_message}
use rtxag.Variants.{request_to}

abbrev set_choice : String → Fields → Fields
set_choice s payload =
    if s == "none" || s == "auto" then assign "tool_choice" (str s) payload else payload

abbrev choose_none_or_auto : Option String → Fields → Fields
choose_none_or_auto none payload = payload
choose_none_or_auto (some s) payload = set_choice s payload

-- `{"messages": ..., "model": ..., "stream": ..., "max_tokens": 4096}`
abbrev limited_payload : Items → Prompt → Fields
limited_payload ms p = field "messages" (arr ms) (
    field "model" (str p.provider_model_id)
      (field "stream" (bool p.stream) (field "max_tokens" (int (pos 4096)) end)))

abbrev delta_given : Option Json → Bool
delta_given none = false
delta_given (some null) = false
delta_given (some v) = true

abbrev with_delta : Json → Option Json → Option Json
with_delta choice delta = if delta_given delta then some choice else none

abbrev choice_of : Option Json → Result (Option Json)
choice_of none = ok none
choice_of (some v) =
    if truthy v
    then (first v >>= λ choice. get_key "delta" choice >>= λ delta. ok (with_delta choice delta))
    else ok none

-- `stream_extract_chunk_data`: nothing where the choice has no delta.
unfoldable pub minimax_chunk_data : Json → Result (Option Json)
unfolding get_key first
minimax_chunk_data d = get_key "choices" d >>= choice_of

abbrev read_first_call : CallsContent → Json → Result CallsContent
read_first_call c calls = do
  call ← first calls
  function ← item "function" call
  add_tool_call c (pos 0) function

abbrev if_calls : CallsContent → Option Json → Result (Option CallsContent × CallsContent)
if_calls c none = ok (none, c)
if_calls c (some calls) =
    if truthy calls then (read_first_call c calls >>= λ d. ok (some d, d)) else ok (none, c)

abbrev delta_calls : Json → Result (Option Json)
delta_calls delta = if truthy delta then get_key "tool_calls" delta else ok none

-- `stream_handle_function_calls`: every call has the index 0.
unfoldable pub minimax_handle_calls :
    Json → CallsContent → Result (Option CallsContent × CallsContent)
unfolding get_key first item add_tool_call
minimax_handle_calls data_ c =
    if truthy data_
    then (get_key "delta" data_ >>= λ d. delta_calls (or_empty d) >>= if_calls c)
    else ok (none, c)

-- `stream_extract_finish_reason`, for data that may be empty
unfoldable pub minimax_stream_reason : Option String → Json → Result (Option FinishReason)
unfolding stream_extract_finish_reason
minimax_stream_reason filtered data_ =
    if truthy data_ then stream_extract_finish_reason filtered data_ else ok none

module _ (svc : Services) (dumps : Fields → String) (shown : Json → String) where
  -- `_model_dump_str`
  abbrev model_dump_str : Function → Json
  model_dump_str f = obj (
      field "name" (str f.name) (
        field "description" (str f.description)
          (field "parameters" (str (shown (dump_parameters f.parameters))) end)))

  abbrev minimax_tools : List Function → Items
  minimax_tools [] = nil
  minimax_tools (f ∷ fs) =
      cons (obj (field "type" (str "function") (field "function" (model_dump_str f) end)))
        (minimax_tools fs)

  abbrev add_minimax_tools : Option (List Function) → Fields → Fields
  add_minimax_tools none payload = payload
  add_minimax_tools (some []) payload = payload
  add_minimax_tools (some (f ∷ fs)) payload = assign "tools" (arr (minimax_tools (f ∷ fs))) payload

  -- `_build_minimax_message`
  abbrev pub build_minimax_message : Message → Result Json
  build_minimax_message = build_message dumps

  -- `_build_minimax_chat_completion_payload`
  unfoldable pub build_minimax_payload : Prompt → Result Fields
  unfolding build_messages build_message add_configs assign
  build_minimax_payload p = do
    ms ← build_messages build_minimax_message p.messages
    ok (
        add_minimax_tools p.functions
          (choose_none_or_auto p.function_call (add_configs p.configs (limited_payload ms p))))

  abbrev minimax_filter : Option String
  minimax_filter = some "Minimax content filter triggered, content was omitted"

  -- `MinimaxChatCompletionModel`
  abbrev pub minimax : Adapter
  minimax = record {
    prepare_request = λ p.
        request_to "https://api.minimax.chat/v1/text/chatcompletion_v2" "MINIMAX_API_KEY" p
          (build_minimax_payload p);
    model = record (compatible svc minimax_filter) {
      stream_extract_chunk_data = minimax_chunk_data;
      stream_extract_finish_reason = minimax_stream_reason minimax_filter;
      stream_handle_function_calls = minimax_handle_calls;
    };
  }
