-- ===== src/Anthropic/Prepare.antt =====
-- codebase/llmhub/providers/anthropic/chat_completion.py: what is sent to Anthropic. `str` of a value
-- that is no text is a parameter.
use rtxag.Prelude.{
  String, Bool, true, false, ◌&&◌, Option, none, some, List, [], ◌∷◌, append, nonempty, ◌==◌,
  if◌then◌else◌,
}
use rtxag.Error.{ErrorCode, Result, ok, ◌>>=◌, ◌>>◌, raise_http_error}
use rtxag.Json.{Json, Items, Fields, bool, int, str, arr, obj, nil, cons, field, end, assign}
use rtxag.Json.Int.{pos}
use rtxag.Message.{
  Message, Content, text, parts, Part, text_part, image_url, letter, FunctionCall, system_message,
  user_message, assistant_message, function_message,
}
use rtxag.Credentials.{Values}
use rtxag.Config.{Configuration}
use rtxag.FunctionCall.Dump.{Function, dump_parameters}
use rtxag.FunctionCall.Building.{Services}
use rtxag.Addresses.{check_valid_list_content, split_url}
use rtxag.Payload.{Prompt, HttpRequest, Adapter, credential, shown, plain_content, build_messages}
use rtxag.Anthropic.{anthropic}

-- `_extract_system_message`
abbrev pub extract_system_message : List Message → Option Content × List Message
extract_system_message (system_message c ∷ ms) = (c, ms)
extract_system_message ms = (none, ms)

abbrev pub text_block : String → Json
text_block s = obj (field "type" (str "text") (field "text" (str s) end))

abbrev pub image_block : String → String → Json
image_block format body = obj (
    field "type" (str "image") (
      field "source"
        (obj (
          field "type" (str "base64")
            (field "media_type" (str (append "image/" format)) (field "data" (str body) end))))
        end))

-- The loop over a list content, behind its check.
unfoldable pub build_blocks : List Part → Result Items
unfolding split_url
build_blocks [] = ok nil
build_blocks (text_part s ∷ ps) = do rest ← build_blocks ps; ok (cons (text_block s) rest)
build_blocks (image_url u ∷ ps) = do
  (format, body) ← split_url u
  rest ← build_blocks ps
  ok (cons (image_block format body) rest)
build_blocks (letter c ∷ ps) = build_blocks ps

abbrev user_content : Option Content → Result Items
user_content none = ok nil
user_content (some (text s)) = ok (cons (text_block s) nil)
user_content (some (parts ps)) = check_valid_list_content ps >> build_blocks ps

abbrev pub tool_use : FunctionCall → Json
tool_use f = obj (
    field "id" (str f.id) (
      field "type" (str "tool_use")
        (field "name" (str f.name) (field "input" (obj f.arguments) end))))

abbrev pub tool_uses : List FunctionCall → Items
tool_uses [] = nil
tool_uses (f ∷ fs) = cons (tool_use f) (tool_uses fs)

abbrev tool_result : String → Json → Items
tool_result i content =
    cons
      (obj (
        field "type" (str "tool_result")
          (field "tool_use_id" (str i) (field "content" content end))))
      nil

abbrev pub with_role : String → Items → Json
with_role name content = obj (field "role" (str name) (field "content" (arr content) end))

-- `_build_anthropic_header`
abbrev pub api_version : Option String → String
api_version none = "2023-06-01"
api_version (some s) = if nonempty s then s else "2023-06-01"

abbrev pub build_header : Values → Fields
build_header credentials =
    field "x-api-key" (str (append " " (shown (credential "ANTHROPIC_API_KEY" credentials)))) (
      field "Content-Type" (str "application/json") (
        field "anthropic-version"
          (str (append " " (api_version (credential "ANTHROPIC_API_VERSION" credentials))))
          (field "anthropic-beta" (str "tools-2024-04-04") end)))

abbrev pub tools : List Function → Items
tools [] = nil
tools (f ∷ fs) =
    cons
      (obj (
        field "name" (str f.name) (
          field "description" (str f.description)
            (field "input_schema" (dump_parameters f.parameters) end))))
      (tools fs)

abbrev pub add_tools : Option (List Function) → Fields → Fields
add_tools none payload = payload
add_tools (some []) payload = payload
add_tools (some (f ∷ fs)) payload = assign "tools" (arr (tools (f ∷ fs))) payload

abbrev pub add_system : Option Content → Fields → Result Fields
add_system none payload = ok payload
add_system (some (text s)) payload =
    ok (if nonempty s then assign "system" (str s) payload else payload)
add_system (some (parts [])) payload = ok payload
add_system (some (parts (p ∷ ps))) payload =
    plain_content (some (parts (p ∷ ps))) >>= λ v. ok (assign "system" v payload)

abbrev pub base_payload : Items → Prompt → Fields
base_payload ms p = field "messages" (arr ms) (
    field "model" (str p.provider_model_id)
      (field "max_tokens" (int (pos 4096)) (field "stream" (bool p.stream) end)))

abbrev pub some_functions : Option (List Function) → Bool
some_functions none = false
some_functions (some []) = false
some_functions (some (f ∷ fs)) = true

module _ (to_str : Json → String) where
  abbrev shown_item : Json → Json
  shown_item (str s) = str s
  shown_item v = str (to_str v)

  abbrev shown_items : Items → Items
  shown_items nil = nil
  shown_items (cons v vs) = cons (shown_item v) (shown_items vs)

  -- `stop`, one text or a list, becomes a list of texts.
  abbrev pub stop_sequences : Json → Json
  stop_sequences (arr vs) = arr (shown_items vs)
  stop_sequences v = arr (cons (shown_item v) nil)

  abbrev pub setting : String → Json → Fields → Fields
  setting key value payload =
      if key == "stop"
      then assign "stop_sequences" (stop_sequences value) payload
      else assign key value payload

  unfoldable pub add_settings : Configuration → Fields → Fields
  unfolding assign
  add_settings [] payload = payload
  add_settings ((key, none) ∷ cs) payload = add_settings cs payload
  add_settings ((key, some value) ∷ cs) payload = add_settings cs (setting key value payload)

  -- `str(message.content)`
  abbrev shown_content : (List Part → String) → Option Content → String
  shown_content repr none = "None"
  shown_content repr (some (text s)) = s
  shown_content repr (some (parts ps)) = repr ps

  module _ (repr : List Part → String) where
    -- `_build_anthropic_message`
    unfoldable pub build_message : Message → Result Json
    unfolding check_valid_list_content build_blocks
    build_message (system_message c) = ok (with_role "system" nil)
    build_message (user_message c) = do blocks ← user_content c; ok (with_role "user" blocks)
    build_message (assistant_message c none) =
        ok (with_role "assistant" (cons (text_block (shown_content repr c)) nil))
    build_message (assistant_message c (some calls)) = ok (with_role "assistant" (tool_uses calls))
    build_message (function_message c i) = do
      v ← plain_content c
      ok (with_role "user" (tool_result i v))

    -- `_build_anthropic_chat_completion_payload`
    unfoldable pub build_payload : Prompt → Result Fields
    unfolding build_message build_messages add_settings assign
    build_payload p = do
      let (system, others) = extract_system_message p.messages
      ms ← build_messages build_message others
      with_system ← add_system system (base_payload ms p)
      ok (add_settings p.configs (add_tools p.functions with_system))

    -- `prepare_request`
    unfoldable pub prepare_request : Prompt → Result HttpRequest
    unfolding build_payload
    prepare_request p =
        if p.stream && some_functions p.functions
        then raise_http_error ErrorCode.request_validation_error
            "Function calls for Claude are not supported in stream mode."
        else (do
          payload ← build_payload p
          ok (record {
            api_url = "https://api.anthropic.com/v1/messages";
            headers = build_header p.credentials;
            payload = payload;
          }))

    abbrev pub anthropic_adapter : Services → Adapter
    anthropic_adapter svc = record { prepare_request = prepare_request; model = anthropic svc }
