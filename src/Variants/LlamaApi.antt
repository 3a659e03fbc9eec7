-- ===== src/Variants/LlamaApi.antt =====
-- codebase/llmhub/providers/llama_api/chat_completion.py.
use rtxag.Prelude.{String, ◌||◌, Option, none, some, List, [], ◌∷◌, ◌==◌, nonempty, if◌then◌else◌}
use rtxag.Error.{Result, ok, ◌>>=◌}
use rtxag.Json.{Json, Fields, str, obj, field, end, truthy, assign}
use rtxag.Json.Access.{get_key, item}
use rtxag.Message.{FinishReason, member_or_unknown, FunctionCall}
use rtxag.FunctionCall.Building.{Services}
use rtxag.Payload.{add_functions, Prompt, Adapter, build_messages, add_configs, base_payload}
use rtxag.OpenAi.{compatible, text_of, message_of, of_message}
use rtxag.OpenAi.Prepare.{build_message}
use rtxag.Anthropic.{build_from_dict}
use rtxag.Variants.{extract_reason, stream_reason, request_to}

abbrev pub llama_api_reason : String → FinishReason
llama_api_reason s =
    if s == "tool_calls" || s == "function_calls" || s == "function_call"
    then FinishReason.function_calls
    else if s == "max_token"
    then FinishReason.length
    else member_or_unknown s

abbrev set_named : String → Fields → Fields
set_named s payload =
    if nonempty s then assign "function_call" (obj (field "name" (str s) end)) payload else payload

abbrev add_named : Option String → Fields → Fields
add_named none payload = payload
add_named (some s) payload = set_named s payload

module _ (svc : Services) (dumps : Fields → String) where
  -- `_build_llama_api_chat_completion_payload`
  unfoldable pub build_llama_api_payload : Prompt → Result Fields
  unfolding build_messages build_message add_configs assign
  build_llama_api_payload p = do
    ms ← build_messages (build_message dumps) p.messages
    ok (
        add_functions p.functions
          (add_named p.function_call (add_configs p.configs (base_payload ms p))))

  abbrev call_if_any : Option Json → Result (Option (List FunctionCall))
  call_if_any none = ok none
  call_if_any (some call) =
      if truthy call
      then (do
        name ← item "name" call >>= text_of
        arguments ← item "arguments" call
        f ← build_from_dict svc 0 name arguments
        ok (some (f ∷ [])))
      else ok none

  -- `extract_function_calls` of llama_api
  unfoldable pub llama_api_function_calls : Json → Result (Option (List FunctionCall))
  unfolding get_key item build_from_dict
  llama_api_function_calls d = message_of d >>= of_message "function_call" >>= call_if_any

  -- `LlamaApiChatCompletionModel`
  abbrev pub llama_api : Adapter
  llama_api = record {
    prepare_request = λ p.
        request_to "https://api.llama-api.com/chat/completions" "LLAMA_API_API_KEY" p
          (build_llama_api_payload p);
    model = record (compatible svc none) {
      extract_function_calls = llama_api_function_calls;
      extract_finish_reason = extract_reason (λ s. ok (llama_api_reason s));
      stream_extract_finish_reason = stream_reason (λ s. ok (llama_api_reason s));
    };
  }
