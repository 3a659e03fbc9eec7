-- ===== src/Payload.antt =====
-- What the adapters of providers take and give: the arguments of `prepare_request` of
-- codebase/llmhub/app/models/chat_completion/model.py with its result, and the steps that the
-- adapters of codebase/llmhub/providers share: credentials in texts, contents as JSON, values of
-- the configuration, tools.
pub mod Entries
use rtxag.Prelude.{
  String, Bool, true, false, Option, none, some, List, [], ◌∷◌, get, ◌==◌, ◌||◌, not, is_empty,
  nonempty, if◌then◌else◌,
}
use rtxag.Error.{Result, ok, err, raised, Kind, ◌>>=◌}
use rtxag.Json.{Json, Items, Fields, null, bool, str, arr, obj, nil, cons, field, end, assign}
use rtxag.Json.Access.{type_error}
use rtxag.Message.{Message, Content, text, parts, Part, text_part, image_url, letter}
use rtxag.Credentials.{Values}
use rtxag.Config.{Configuration}
use rtxag.FunctionCall.Dump.{dump_functions, Function, dump_function}
use rtxag.Model.{ChatModel}

-- The arguments of `prepare_request`.
pub record Prompt : Type 0 where
  pub stream : Bool
  pub provider_model_id : String
  pub messages : List Message
  pub credentials : Values
  pub configs : Configuration
  pub function_call : Option String
  pub functions : Option (List Function)

-- The URL, the headers and the payload.
pub record HttpRequest : Type 0 where
  pub api_url : String
  pub headers : Fields
  pub payload : Fields

-- A provider's class.
pub record Adapter : Type 0 where
  pub prepare_request : Prompt → Result HttpRequest
  pub model : ChatModel

abbrev joined : Option (Option String) → Option String
joined none = none
joined (some v) = v

-- `credentials.NAME`
abbrev pub credential : String → Values → Option String
credential name d = joined (get name d)

-- A value inside an f-string.
abbrev pub shown : Option String → String
shown none = "None"
shown (some s) = s

-- `{"Content-Type": "application/json"}`
abbrev pub json_header : Fields
json_header = field "Content-Type" (str "application/json") end

-- `content.model_dump()`; the letter is a `str`.
abbrev pub dump_part : Part → Result Json
dump_part (text_part s) = ok (obj (field "type" (str "text") (field "text" (str s) end)))
dump_part (image_url u) =
    ok
      (obj (field "type" (str "image_url") (field "image_url" (obj (field "url" (str u) end)) end)))
dump_part (letter c) =
    err (raised Kind.attribute_error "'str' object has no attribute 'model_dump'")

-- `[c.model_dump() for c in message.content]`
unfoldable pub dump_parts : List Part → Result Items
dump_parts [] = ok nil
dump_parts (p ∷ ps) = do v ← dump_part p; vs ← dump_parts ps; ok (cons v vs)

-- `message.content` as it is: a list of objects raises when the payload is serialized.
abbrev pub plain_content : Option Content → Result Json
plain_content none = ok null
plain_content (some (text s)) = ok (str s)
plain_content (some (parts ps)) =
    type_error "Object of type ChatCompletionTextContent is not JSON serializable"

-- `[build(msg) for msg in messages]`
unfoldable pub build_messages : (Message → Result Json) → List Message → Result Items
build_messages build [] = ok nil
build_messages build (m ∷ ms) = do v ← build m; vs ← build_messages build ms; ok (cons v vs)

-- The loop over `configs.model_dump()` that leaves out `None`.
unfoldable pub add_configs : Configuration → Fields → Fields
add_configs [] payload = payload
add_configs ((key, none) ∷ cs) payload = add_configs cs payload
add_configs ((key, some value) ∷ cs) payload = add_configs cs (assign key value payload)

-- `{"messages": ..., "model": ..., "stream": ...}`
abbrev pub base_payload : Items → Prompt → Fields
base_payload ms p =
    field "messages" (arr ms)
      (field "model" (str p.provider_model_id) (field "stream" (bool p.stream) end))

abbrev pub tool_choice : String → Json
tool_choice s = if s == "none" || s == "auto" then str s else obj (field "name" (str s) end)

abbrev set_choice : String → Fields → Fields
set_choice s payload = if nonempty s then assign "tool_choice" (tool_choice s) payload else payload

-- `if function_call: payload["tool_choice"] = ...`
abbrev pub add_tool_choice : Option String → Fields → Fields
add_tool_choice none payload = payload
add_tool_choice (some s) payload = set_choice s payload

-- `{"type": "function", "function": f.model_dump()}`
abbrev pub tools : List Function → Items
tools [] = nil
tools (f ∷ fs) =
    cons (obj (field "type" (str "function") (field "function" (dump_function f) end))) (tools fs)

-- `if functions: payload["tools"] = ...`
abbrev pub add_tools : Option (List Function) → Fields → Fields
add_tools none payload = payload
add_tools (some []) payload = payload
add_tools (some (f ∷ fs)) payload = assign "tools" (arr (tools (f ∷ fs))) payload

-- The functions without a type, as older interfaces take them.
abbrev pub add_functions : Option (List Function) → Fields → Fields
add_functions none payload = payload
add_functions (some []) payload = payload
add_functions (some (f ∷ fs)) payload = assign "functions" (arr (dump_functions (f ∷ fs))) payload
