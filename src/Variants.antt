-- ===== src/Variants.antt =====
-- Adapters of codebase/llmhub/providers that read responses as OpenAI's but for some methods, or send
-- less: the parts they share,
-- and groq. The others are child modules.
pub mod TogetherAi
pub mod LlamaApi
pub mod Minimax
pub mod Zhipu
pub mod Mistral
mod Tests
use rtxag.Prelude.{
  ℕ, suc, String, Bool, true, false, not, ◌&&◌, ◌||◌, Option, none, some, List, [], ◌∷◌, ◌++◌, ◌==◌,
  nonempty, if◌then◌else◌,
}
use rtxag.Error.{Kind, raised, Result, ok, err, ◌>>=◌}
use rtxag.Json.{
  Json, Items, Fields, null, int, str, arr, obj, nil, cons, field, end, truthy, truthy?, assign,
}
use rtxag.Json.Int.{ℤ, pos, negsuc}
use rtxag.Json.Access.{type_error, get_key, item, first}
use rtxag.Message.{
  Message, Content, text, parts, FinishReason, member_or_unknown, FunctionCall, system_message,
  user_message, assistant_message, function_message,
}
use rtxag.Credentials.{Values}
use rtxag.Config.{Configuration}
use rtxag.FunctionCall.Dump.{Function, dump_function, dump_parameters}
use rtxag.FunctionCall.Building.{CallsContent, Services}
use rtxag.Model.{ChatModel}
use rtxag.Payload.{
  Prompt, HttpRequest, Adapter, dump_parts, plain_content, build_messages, add_configs,
  base_payload, add_tool_choice, add_tools,
}
use rtxag.OpenAi.{
  compatible, text_of, message_of, of_message, reason_given, or_empty, first_choice, add_tool_call,
  stream_extract_finish_reason,
}
use rtxag.OpenAi.Prepare.{bearer_header, build_message, dump_calls}
use rtxag.Anthropic.{build_from_dict}

-- The field `finish_reason` of a response, read from its text; `None` and what is no text are unknown.
abbrev pub read_reason : (String → Result FinishReason) → Json → Result FinishReason
read_reason read (str s) = read s
read_reason read (arr vs) = type_error "unhashable type: 'list'"
read_reason read (obj fs) = type_error "unhashable type: 'dict'"
read_reason read _ = ok FinishReason.unknown

unfoldable pub extract_reason : (String → Result FinishReason) → Json → Result FinishReason
unfolding get_key
extract_reason read d = get_key "finish_reason" d >>= λ r. read_reason read (reason_given r)

abbrev reason_if_any : (String → Result FinishReason) → Option Json → Result (Option FinishReason)
reason_if_any read none = ok none
reason_if_any read (some v) =
    if truthy v then (read_reason read v >>= λ r. ok (some r)) else ok none

unfoldable pub stream_reason : (String → Result FinishReason) → Json → Result (Option FinishReason)
unfolding get_key
stream_reason read data_ = get_key "finish_reason" data_ >>= reason_if_any read

abbrev pub json_message : String → Json → Json
json_message name content = obj (field "role" (str name) (field "content" content end))

-- `_build_groq_message`: what falls through gives `None`.
unfoldable pub build_groq_message : Message → Result Json
unfolding dump_parts
build_groq_message (system_message c) = plain_content c >>= λ v. ok (json_message "system" v)
build_groq_message (user_message none) = ok null
build_groq_message (user_message (some (text s))) = ok (json_message "user" (str s))
build_groq_message (user_message (some (parts ps))) =
    dump_parts ps >>= λ vs. ok (json_message "user" (arr vs))
build_groq_message (assistant_message c none) =
    plain_content c >>= λ v. ok (json_message "assistant" v)
build_groq_message _ = ok null

-- `_build_groq_chat_completion_payload`
unfoldable pub build_groq_payload : Prompt → Result Fields
unfolding build_messages build_groq_message add_configs assign
build_groq_payload p = do
  ms ← build_messages build_groq_message p.messages
  ok (add_configs p.configs (base_payload ms p))

-- A request to a fixed address with a key in its header.
abbrev pub request_to : String → String → Prompt → Result Fields → Result HttpRequest
request_to url key p payload = payload >>= λ d.
    ok (record { api_url = url; headers = bearer_header key p.credentials; payload = d })

-- `GroqChatCompletionModel`
abbrev pub groq : Services → Adapter
groq svc = record {
  prepare_request = λ p.
      request_to "https://api.groq.com/openai/v1/chat/completions" "GROQ_API_KEY" p
        (build_groq_payload p);
  model = compatible svc (some "Content filter triggered, content was omitted");
}
