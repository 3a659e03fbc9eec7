-- ===== src/OpenAi/Prepare.antt =====
-- codebase/llmhub/providers/openai/chat_completion.py: what is sent to OpenAI. The adapters that are
-- written after this one use the same steps with values of their own, a `Vendor`. `json.dumps` is a
-- parameter.
use rtxag.Prelude.{
  String, Bool, true, false, not, ◌&&◌, Option, none, some, List, [], ◌∷◌, append, if◌then◌else◌,
}
use rtxag.Prelude.Text.{has_text}
use rtxag.Error.{Result, ok, ◌>>=◌}
use rtxag.Json.{
  Json, Items, Fields, null, int, str, arr, obj, nil, cons, field, end, lookup, assign,
}
use rtxag.Json.Int.{pos}
use rtxag.Message.{
  Message, text, parts, FunctionCall, system_message, user_message, assistant_message,
  function_message,
}
use rtxag.Credentials.{Values}
use rtxag.FunctionCall.Building.{Services}
use rtxag.Payload.{
  Prompt, HttpRequest, Adapter, credential, shown, json_header, dump_parts, plain_content,
  build_messages, add_configs, base_payload, add_tool_choice, add_tools,
}
use rtxag.OpenAi.{compatible}

-- What differs between the adapters that build the same payload.
pub record Vendor : Type 0 where
  pub api_url : Values → Result String
  pub build_header : Values → Fields
  -- Whether the name "vision" in the model's id sets `max_tokens`.
  pub raises_limit : Bool
  -- What is said where the content filter was triggered, if that is an error.
  pub filtered : Option String

abbrev pub message_of : String → Json → Json
message_of name content = obj (field "role" (str name) (field "content" content end))

abbrev is_some {ℓ} : {A : Type ℓ} → Option A → Bool
is_some none = false
is_some (some a) = true

-- `if "max_tokens" not in payload and "vision" in provider_model_id`
abbrev pub raise_limit : Bool → String → Fields → Fields
raise_limit raises model_id payload =
    if raises && not (is_some (lookup "max_tokens" payload)) && has_text "vision" model_id
    then assign "max_tokens" (int (pos 4096)) payload
    else payload

module _ (dumps : Fields → String) where
  abbrev pub dump_call : FunctionCall → Json
  dump_call f = obj (
      field "id" (str f.id) (
        field "type" (str "function") (
          field "function"
            (obj (field "name" (str f.name) (field "arguments" (str (dumps f.arguments)) end)))
            end)))

  unfoldable pub dump_calls : List FunctionCall → Items
  dump_calls [] = nil
  dump_calls (f ∷ fs) = cons (dump_call f) (dump_calls fs)

  -- `_build_openai_message`; a user message without content falls through and gives `None`.
  unfoldable pub build_message : Message → Result Json
  unfolding dump_parts dump_calls
  build_message (system_message c) = do v ← plain_content c; ok (message_of "system" v)
  build_message (user_message none) = ok null
  build_message (user_message (some (text s))) = ok (message_of "user" (str s))
  build_message (user_message (some (parts ps))) = do
    vs ← dump_parts ps
    ok (message_of "user" (arr vs))
  build_message (function_message c i) = do
    v ← plain_content c
    ok (obj (field "role" (str "tool") (field "content" v (field "tool_call_id" (str i) end))))
  build_message (assistant_message c none) = do v ← plain_content c; ok (message_of "assistant" v)
  build_message (assistant_message c (some calls)) = ok (
      obj (
        field "role" (str "assistant")
          (field "tool_calls" (arr (dump_calls calls)) (field "content" null end))))

  -- `_build_openai_chat_completion_payload`
  unfoldable pub build_payload : Bool → Prompt → Result Fields
  unfolding build_message build_messages add_configs lookup assign has_text
  build_payload raises p = do
    ms ← build_messages build_message p.messages
    ok (
        add_tools p.functions (
          add_tool_choice p.function_call
            (raise_limit raises p.provider_model_id (add_configs p.configs (base_payload ms p)))))

  -- `prepare_request`
  unfoldable pub prepare_request : Vendor → Prompt → Result HttpRequest
  unfolding build_payload
  prepare_request vendor p = do
    url ← vendor.api_url p.credentials
    payload ← build_payload vendor.raises_limit p
    ok (record { api_url = url; headers = vendor.build_header p.credentials; payload = payload })

  abbrev pub adapter : Services → Vendor → Adapter
  adapter svc vendor = record {
    prepare_request = prepare_request vendor;
    model = compatible svc vendor.filtered;
  }

-- `build_openai_header`, and the same with another name of the key.
abbrev pub bearer_header : String → Values → Fields
bearer_header key credentials =
    field "Authorization" (str (append "Bearer " (shown (credential key credentials)))) json_header

abbrev pub build_openai_header : Values → Fields
build_openai_header = bearer_header "OPENAI_API_KEY"

abbrev pub openai_vendor : Vendor
openai_vendor = record {
  api_url = λ credentials. ok "https://api.openai.com/v1/chat/completions";
  build_header = build_openai_header;
  raises_limit = true;
  filtered = some "Openai content filter triggered, content was omitted";
}
