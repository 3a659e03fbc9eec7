-- ===== src/Variants/TogetherAi.antt =====
-- codebase/llmhub/providers/togetherai/chat_completion.py.
use rtxag.Prelude.{String, Option, none, some, ◌==◌, if◌then◌else◌}
use rtxag.Error.{Result, ok, ◌>>=◌}
use rtxag.Json.{Json, Fields, null, str, arr, obj, field, end, truthy, assign}
use rtxag.Json.Access.{get_key}
use rtxag.Message.{
  Message, FinishReason, member_or_unknown, system_message, user_message, assistant_message,
  function_message,
}
use rtxag.FunctionCall.Building.{Services}
use rtxag.Payload.{
  Prompt, Adapter, plain_content, build_messages, add_configs, base_payload, add_tool_choice,
  add_tools,
}
use rtxag.OpenAi.{compatible, reason_given}
use rtxag.OpenAi.Prepare.{dump_calls}
use rtxag.Variants.{read_reason, json_message, request_to}

abbrev pub togetherai_reason : String → FinishReason
togetherai_reason s =
    if s == "tool_calls"
    then FinishReason.function_calls
    else if s == "eos"
    then FinishReason.stop
    else if s == "eos_token"
    then FinishReason.length
    else member_or_unknown s

abbrev togetherai_stream_reason : String → FinishReason
togetherai_stream_reason s =
    if s == "tool_calls"
    then FinishReason.function_calls
    else if s == "eos"
    then FinishReason.stop
    else member_or_unknown s

abbrev reason_or_stop : Option Json → Json
reason_or_stop none = str "stop"
reason_or_stop (some v) = v

-- `extract_finish_reason` of togetherai
unfoldable pub togetherai_finish_reason : Json → Result FinishReason
unfolding get_key
togetherai_finish_reason d =
    if truthy d
    then (get_key "finish_reason" d >>= λ r.
        read_reason (λ s. ok (togetherai_reason s)) (reason_or_stop r))
    else ok FinishReason.unknown

-- `stream_extract_finish_reason` of togetherai, which always returns a reason
unfoldable pub togetherai_stream_finish_reason : Json → Result (Option FinishReason)
unfolding get_key
togetherai_stream_finish_reason data_ = get_key "finish_reason" data_ >>= λ r.
    read_reason (λ s. ok (togetherai_stream_reason s)) (reason_given r) >>= λ f. ok (some f)

module _ (svc : Services) (dumps : Fields → String) where
  -- `_build_togetherai_message`
  unfoldable pub build_togetherai_message : Message → Result Json
  unfolding dump_calls
  build_togetherai_message (system_message c) =
      plain_content c >>= λ v. ok (json_message "system" v)
  build_togetherai_message (user_message c) = plain_content c >>= λ v. ok (json_message "user" v)
  build_togetherai_message (function_message c i) = plain_content c >>= λ v.
      ok (obj (field "role" (str "tool") (field "content" v (field "tool_call_id" (str i) end))))
  build_togetherai_message (assistant_message c none) =
      plain_content c >>= λ v. ok (json_message "assistant" v)
  build_togetherai_message (assistant_message c (some calls)) = ok (
      obj (
        field "role" (str "assistant")
          (field "tool_calls" (arr (dump_calls dumps calls)) (field "content" null end))))

  -- `_build_togetherai_chat_completion_payload`
  unfoldable pub build_togetherai_payload : Prompt → Result Fields
  unfolding build_messages build_togetherai_message add_configs assign
  build_togetherai_payload p = do
    ms ← build_messages build_togetherai_message p.messages
    ok (
        add_tools p.functions
          (add_tool_choice p.function_call (add_configs p.configs (base_payload ms p))))

  -- `TogetheraiChatCompletionModel`
  abbrev pub togetherai : Adapter
  togetherai = record {
    prepare_request = λ p.
        request_to "https://api.together.xyz/v1/chat/completions" "TOGETHERAI_API_KEY" p
          (build_togetherai_payload p);
    model = record (compatible svc none) {
      extract_finish_reason = togetherai_finish_reason;
      stream_extract_finish_reason = togetherai_stream_finish_reason;
    };
  }
