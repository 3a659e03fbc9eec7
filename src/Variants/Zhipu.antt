-- ===== src/Variants/Zhipu.antt =====
-- codebase/llmhub/providers/zhipu/chat_completion.py, and utils.py beside it. The signing of a JSON
-- web token is a parameter.
pub mod Bounds
use Prim.Native.Nat.{◌^◌}
use rtxag.Prelude.{
  ℕ, ◌*◌, String, Bool, true, false, ◌&&◌, ◌||◌, Option, none, some, List, [], ◌∷◌, append, eqb,
  ◌==◌, if◌then◌else◌,
}
use rtxag.Prelude.Text.{split_on}
use rtxag.Error.{
  ErrorCode, Result, ok, err, ◌>>=◌, ◌>>◌, raise_http_error, raise_provider_api_error,
}
use rtxag.Json.{
  Json, Items, Fields, null, bool, int, float, str, arr, obj, nil, cons, field, end, assign,
}
use rtxag.Json.Int.{ℤ, pos, negsuc}
use rtxag.Message.{
  Message, Content, text, parts, FinishReason, member_or_unknown, system_message, user_message,
  assistant_message, function_message,
}
use rtxag.Credentials.{Values}
use rtxag.Config.{Configuration}
use rtxag.FunctionCall.Building.{Services}
use rtxag.Addresses.{check_valid_list_content}
use rtxag.Payload.{
  Prompt, HttpRequest, Adapter, credential, dump_parts, build_messages, base_payload,
  add_tool_choice, add_tools,
}
use rtxag.OpenAi.{compatible}
use rtxag.OpenAi.Prepare.{build_message}
use rtxag.Variants.{extract_reason, stream_reason, json_message}

-- A number that is equal to 1 or to 0, as a key of `value_adjustments`.
abbrev pub equals_number : ℕ → Json → Bool
equals_number m (int (pos n)) = eqb n m
equals_number m (float (pos n) k) = eqb n (m * 10 ^ k)
equals_number m _ = false

-- `value_adjustments.get(value, value)`; the values of the two settings are numbers, which the
-- configuration was checked to be.
unfoldable pub adjusted : Json → Json
adjusted v =
    if equals_number 1 v then float (pos 99) 2 else if equals_number 0 v then float (pos 1) 2 else v

abbrev pub zhipu_value : String → Json → Json
zhipu_value key v = if key == "temperature" || key == "top_p" then adjusted v else v

-- The loop over `configs.model_dump()`
unfoldable pub add_zhipu_configs : Configuration → Fields → Fields
unfolding adjusted assign
add_zhipu_configs [] payload = payload
add_zhipu_configs ((key, none) ∷ cs) payload = add_zhipu_configs cs payload
add_zhipu_configs ((key, some value) ∷ cs) payload =
    add_zhipu_configs cs (assign key (zhipu_value key value) payload)

abbrev pub zhipu_reason : String → Result FinishReason
zhipu_reason s =
    if s == "tool_calls"
    then ok FinishReason.function_calls
    else if s == "sensitive"
    then raise_provider_api_error "Zhipu content filter triggered, content was omitted"
    else if s == "network_error"
    then ok FinishReason.error
    else ok (member_or_unknown s)

abbrev invalid_key {ℓ} : {A : Type ℓ} → Result A
invalid_key = raise_http_error ErrorCode.credentials_validation_error "Invalid API Key"

abbrev id_and_secret : List String → Result (String × String)
id_and_secret (i ∷ secret ∷ []) = ok (i, secret)
id_and_secret _ = invalid_key

abbrev split_key : Option String → Result (String × String)
split_key none = invalid_key
split_key (some key) = id_and_secret (split_on 46 key)

module _ (encode : String → String → String) where
  -- `generate_token`
  unfoldable pub generate_token : Option String → Result String
  unfolding split_on
  generate_token apikey = do (i, secret) ← split_key apikey; ok (encode i secret)

  -- `build_zhipu_header`
  unfoldable pub build_zhipu_header : Values → Result Fields
  unfolding generate_token
  build_zhipu_header credentials = do
    token ← generate_token (credential "ZHIPU_API_KEY" credentials)
    ok (field "Authorization" (str (append "Bearer " token)) end)

module _ (dumps : Fields → String) (encode : String → String → String) where
  -- `_build_zhipu_message`: OpenAI's, but that a list content is checked.
  unfoldable pub build_zhipu_message : Message → Result Json
  unfolding check_valid_list_content build_message dump_parts
  build_zhipu_message (user_message (some (parts ps))) =
      check_valid_list_content ps >> build_message dumps (user_message (some (parts ps)))
  build_zhipu_message m = build_message dumps m

  -- `_build_zhipu_chat_completion_payload`
  unfoldable pub build_zhipu_payload : Prompt → Result Fields
  unfolding build_messages build_zhipu_message add_zhipu_configs assign
  build_zhipu_payload p = do
    ms ← build_messages build_zhipu_message p.messages
    ok (
        add_tools p.functions
          (add_tool_choice p.function_call (add_zhipu_configs p.configs (base_payload ms p))))

  -- `prepare_request`
  unfoldable pub prepare_request : Prompt → Result HttpRequest
  unfolding build_zhipu_payload build_zhipu_header
  prepare_request p = do
    headers ← build_zhipu_header encode p.credentials
    payload ← build_zhipu_payload p
    ok (record {
      api_url = "https://open.bigmodel.cn/api/paas/v4/chat/completions";
      headers = headers;
      payload = payload;
    })

  -- `ZhipuChatCompletionModel`
  abbrev pub zhipu : Services → Adapter
  zhipu svc = record {
    prepare_request = prepare_request;
    model = record (compatible svc none) {
      extract_finish_reason = extract_reason zhipu_reason;
      stream_extract_finish_reason = stream_reason zhipu_reason;
    };
  }
