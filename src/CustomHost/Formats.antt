-- ===== src/CustomHost/Formats.antt =====
-- codebase/llmhub/providers/custom_host/chat_completion_tool_calls.py, and
-- chat_completion_function_call.py and utils.py beside it: the two formats of function calls that a
-- host of the user's own may have. The first is OpenAI's. Names and arguments are texts; for anything
-- else the TypeError comes where they are read.
use rtxag.Prelude.{
  zero, suc, String, Option, none, some, List, [], ◌∷◌, ◌++◌, nonempty, ◌==◌, if◌then◌else◌,
}
use rtxag.Error.{Result, ok, ◌>>=◌}
use rtxag.Json.{Json, Items, Fields, null, bool, str, arr, obj, field, end, truthy, assign}
use rtxag.Json.Int.{pos, negsuc}
use rtxag.Json.Access.{type_error, get_key, item}
use rtxag.Message.{FinishReason, member_or_unknown, FunctionCall}
use rtxag.Credentials.{Values}
use rtxag.FunctionCall.Building.{CallsContent, Services, build_function_call}
use rtxag.Model.{ChatModel}
use rtxag.Payload.{
  add_functions, Prompt, credential, build_messages, add_configs, add_tool_choice, add_tools,
}
use rtxag.OpenAi.Prepare.{build_message, bearer_header}
use rtxag.OpenAi.{
  compatible, text_of, optional_text, message_of, of_message, reason_given, add_at_index,
}

-- A request to the host, whose address is a credential.
pub record HostRequest : Type 0 where
  pub api_url : Option String
  pub headers : Fields
  pub payload : Fields

pub record Instance : Type 0 where
  pub prepare_request : Prompt → Result HostRequest
  pub model : ChatModel

-- `build_custom_host_header`
abbrev pub build_custom_host_header : Values → Fields
build_custom_host_header = bearer_header "CUSTOM_HOST_API_KEY"

abbrev text_or_null : Option String → Json
text_or_null none = null
text_or_null (some s) = str s

-- The model is the one that the credentials name.
abbrev base_payload : Items → Prompt → Fields
base_payload ms p = field "messages" (arr ms) (
    field "model" (text_or_null (credential "CUSTOM_HOST_MODEL_ID" p.credentials))
      (field "stream" (bool p.stream) end))

abbrev set_call : String → Fields → Fields
set_call s payload = if nonempty s then assign "function_call" (str s) payload else payload

abbrev add_function_call : Option String → Fields → Fields
add_function_call none payload = payload
add_function_call (some s) payload = set_call s payload

abbrev pub at_host : Prompt → Fields → HostRequest
at_host p payload = record {
  api_url = credential "CUSTOM_HOST_ENDPOINT_URL" p.credentials;
  headers = build_custom_host_header p.credentials;
  payload = payload;
}

abbrev pub reason_of : String → FinishReason
reason_of s = if s == "function_call" then FinishReason.function_calls else member_or_unknown s

abbrev finish_reason_of : Json → Result FinishReason
finish_reason_of (str s) = ok (reason_of s)
finish_reason_of (arr vs) = type_error "unhashable type: 'list'"
finish_reason_of (obj fs) = type_error "unhashable type: 'dict'"
finish_reason_of _ = ok FinishReason.unknown

-- `extract_finish_reason` of the second format
unfoldable pub extract_finish_reason : Json → Result FinishReason
unfolding get_key
extract_finish_reason d = get_key "finish_reason" d >>= λ r. finish_reason_of (reason_given r)

-- A piece of the call, or its beginning.
unfoldable pub read_function_call : CallsContent → Json → Result CallsContent
unfolding item add_at_index
read_function_call c call = elim c.index [
  | negsuc n ↦ (do
    a ← item "arguments" call >>= text_of
    name ← item "name" call >>= text_of
    ok (record c {
      index = pos 0;
      arguments_strs = c.arguments_strs ++ a ∷ [];
      names = c.names ++ name ∷ [];
    }))
  | pos (suc n) ↦ ok c
  | pos zero ↦ (do
    a ← item "arguments" call >>= text_of
    strs ← add_at_index c.index a c.arguments_strs
    ok (record c { arguments_strs = strs }))
]

abbrev if_call : CallsContent → Option Json → Result (Option CallsContent × CallsContent)
if_call c none = ok (none, c)
if_call c (some call) =
    if truthy call then (read_function_call c call >>= λ d. ok (some d, d)) else ok (none, c)

-- `stream_handle_function_calls` of the second format
unfoldable pub stream_handle_function_calls :
    Json → CallsContent → Result (Option CallsContent × CallsContent)
unfolding item get_key read_function_call
stream_handle_function_calls data_ c = do
  delta ← item "delta" data_
  call ← get_key "function_call" delta
  if_call c call

module _ (svc : Services) (dumps : Fields → String) where
  -- `_build_custom_host_chat_completion_payload_openai_tool_calls`
  unfoldable pub build_tool_calls_payload : Prompt → Result Fields
  unfolding build_messages build_message add_configs assign
  build_tool_calls_payload p = do
    ms ← build_messages (build_message dumps) p.messages
    ok (
        add_tools p.functions
          (add_tool_choice p.function_call (add_configs p.configs (base_payload ms p))))

  -- `_build_custom_host_chat_completion_payload_openai_function_call`
  unfoldable pub build_function_call_payload : Prompt → Result Fields
  unfolding build_messages build_message add_configs assign
  build_function_call_payload p = do
    ms ← build_messages (build_message dumps) p.messages
    ok (
        add_functions p.functions
          (add_function_call p.function_call (add_configs p.configs (base_payload ms p))))

  abbrev one_call : Json → Result (Option (List FunctionCall))
  one_call call = do
    name ← item "name" call >>= text_of
    arguments ← item "arguments" call >>= optional_text
    f ← build_function_call svc 0 name arguments none
    ok (some (f ∷ []))

  abbrev call_if_any : Option Json → Result (Option (List FunctionCall))
  call_if_any none = ok none
  call_if_any (some call) = if truthy call then one_call call else ok none

  -- `extract_function_calls` of the second format
  unfoldable pub extract_function_calls : Json → Result (Option (List FunctionCall))
  unfolding get_key item build_function_call
  extract_function_calls d = do
    m ← message_of d
    call ← of_message "function_call" m
    call_if_any call

  -- `CustomHostToolCallsChatCompletionModel`
  abbrev pub tool_calls_instance : Instance
  tool_calls_instance = record {
    prepare_request = λ p. build_tool_calls_payload p >>= λ payload. ok (at_host p payload);
    model = compatible svc none;
  }

  -- `CustomHostFunctionCallChatCompletionModel`
  abbrev pub function_call_instance : Instance
  function_call_instance = record {
    prepare_request = λ p. build_function_call_payload p >>= λ payload. ok (at_host p payload);
    model = record (compatible svc none) {
      extract_function_calls = extract_function_calls;
      extract_finish_reason = extract_finish_reason;
      stream_handle_function_calls = stream_handle_function_calls;
    };
  }
