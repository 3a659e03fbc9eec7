-- ===== src/Gemini/Prepare.antt =====
-- codebase/llmhub/providers/google_gemini/chat_completion.py: what is sent to Gemini. The system
-- message is merged into the message after it, in the list that the caller holds.
use rtxag.Prelude.{
  String, Bool, true, false, ◌&&◌, ◌||◌, Option, none, some, List, [], ◌∷◌, ◌++◌, Dict, get, put,
  append, concat, given, ◌==◌, if◌then◌else◌,
}
use rtxag.Error.{ErrorCode, Kind, raised, Result, ok, err, ◌>>=◌, ◌>>◌, raise_http_error}
use rtxag.Json.{Json, Items, Fields, null, str, arr, obj, nil, cons, field, end, assign}
use rtxag.Json.Access.{type_error}
use rtxag.Message.{
  Message, Content, text, parts, Part, text_part, image_url, letter, FunctionCall, system_message,
  user_message, assistant_message, function_message, content,
}
use rtxag.Request.{with_content, letters}
use rtxag.Credentials.{Values}
use rtxag.Config.{Configuration}
use rtxag.FunctionCall.Dump.{dump_functions, Function}
use rtxag.FunctionCall.Building.{Services}
use rtxag.Addresses.{check_valid_list_content, split_url}
use rtxag.Payload.{Prompt, HttpRequest, Adapter, credential, shown, plain_content, build_messages}
use rtxag.Gemini.{gemini}

-- `old += new` of contents
unfoldable pub join_content : Option Content → Option Content → Result Content
join_content none new = type_error "unsupported operand type(s) for +="
join_content (some (text s)) (some (text t)) = ok (text (append s t))
join_content (some (parts ps)) (some (text t)) = ok (parts (ps ++ letters t))
join_content (some (parts ps)) (some (parts qs)) = ok (parts (ps ++ qs))
join_content (some (text s)) _ = type_error "can only concatenate str to str"
join_content (some (parts ps)) none = type_error "'NoneType' object is not iterable"

-- The list of messages after the system message at its head is merged into the next one.
unfoldable pub merge_system : List Message → Result (List Message)
unfolding join_content
merge_system (system_message c ∷ m ∷ ms) = do
  joined ← join_content (content m) c
  ok (with_content m (some joined) ∷ ms)
merge_system ms = ok ms

abbrev pub text_item : String → Json
text_item s = obj (field "text" (str s) end)

abbrev pub inline_data : String → String → Json
inline_data format body = obj (
    field "inline_data"
      (obj (field "mimeType" (str (append "image/" format)) (field "data" (str body) end))) end)

-- The loop over a list content, behind its check.
unfoldable pub build_items : List Part → Result Items
unfolding split_url
build_items [] = ok nil
build_items (text_part s ∷ ps) = do rest ← build_items ps; ok (cons (text_item s) rest)
build_items (image_url u ∷ ps) = do
  (format, body) ← split_url u
  rest ← build_items ps
  ok (cons (inline_data format body) rest)
build_items (letter c ∷ ps) = build_items ps

abbrev pub with_parts : String → Json → Json
with_parts name items = obj (field "role" (str name) (field "parts" items end))

abbrev first_call : List FunctionCall → Result FunctionCall
first_call [] = err (raised Kind.index_error "list index out of range")
first_call (f ∷ fs) = ok f

-- `functions_map`: the name under the id of the first call of each message.
unfoldable pub functions_map : List Message → Dict String → Result (Dict String)
unfolding put
functions_map [] d = ok d
functions_map (assistant_message c (some calls) ∷ ms) d = do
  f ← first_call calls
  functions_map ms (put f.id f.name d)
functions_map (_ ∷ ms) d = functions_map ms d

abbrev name_or_empty : Option String → String
name_or_empty none = ""
name_or_empty (some s) = s

abbrev result_of : Option Content → Fields
result_of (some (text s)) = field "result" (str s) end
result_of _ = end

abbrev pub function_response : String → Fields → Json
function_response name result = obj (
    field "functionResponse"
      (obj (
        field "name" (str name) (
          field "response" (obj (field "name" (str name) (field "content" (obj result) end))) end)))
      end)

abbrev pub function_calls : List FunctionCall → Items
function_calls [] = nil
function_calls (f ∷ fs) =
    cons
      (obj (
        field "functionCall" (obj (field "name" (str f.name) (field "args" (obj f.arguments) end)))
          end))
      (function_calls fs)

-- `format_message`; what falls through gives `None`.
unfoldable pub format_message : Dict String → Message → Result Json
unfolding check_valid_list_content build_items get
format_message names (system_message c) = ok null
format_message names (user_message none) = ok null
format_message names (user_message (some (text s))) =
    ok (with_parts "user" (arr (cons (text_item s) nil)))
format_message names (user_message (some (parts ps))) =
    check_valid_list_content ps >> build_items ps >>= λ items. ok (with_parts "user" (arr items))
format_message names (function_message c i) = ok (
    with_parts "function"
      (arr (cons (function_response (name_or_empty (get i names)) (result_of c)) nil)))
format_message names (assistant_message c none) =
    plain_content c >>= λ v. ok (with_parts "model" (arr (cons (obj (field "text" v end)) nil)))
format_message names (assistant_message c (some calls)) =
    ok (with_parts "model" (arr (function_calls calls)))

-- The name of a setting in `generationConfig`
abbrev pub generation_name : String → String
generation_name key =
    if key == "max_tokens"
    then "maxOutputTokens"
    else if key == "top_p"
    then "topP"
    else if key == "top_k"
    then "topK"
    else key

unfoldable pub generation_config : Configuration → Fields → Fields
unfolding assign
generation_config [] d = d
generation_config ((key, none) ∷ cs) d = generation_config cs d
generation_config ((key, some value) ∷ cs) d =
    generation_config cs (assign (generation_name key) value d)

abbrev declarations : Option (List Function) → Fields
declarations none = end
declarations (some []) = end
declarations (some (f ∷ fs)) =
    field "tools"
      (arr (cons (obj (field "functionDeclarations" (arr (dump_functions (f ∷ fs))) end)) nil)) end

-- `_build_google_gemini_chat_completion_payload`
unfoldable pub build_payload : Prompt → Result Fields
unfolding merge_system functions_map build_messages format_message generation_config
build_payload p = do
  ms ← merge_system p.messages
  names ← functions_map ms []
  contents ← build_messages (format_message names) ms
  ok (
      field "contents" (arr contents) (
        field "generationConfig" (obj (generation_config p.configs end))
          (declarations p.functions)))

-- `_build_google_gemini_header`
abbrev pub build_header : Values → Fields
build_header credentials =
    field "x-goog-api-key"
      (str (append " " (shown (credential "GOOGLE_GEMINI_API_KEY" credentials))))
      (field "Content-Type" (str "application/json") end)

abbrev some_functions : Option (List Function) → Bool
some_functions none = false
some_functions (some []) = false
some_functions (some (f ∷ fs)) = true

abbrev is_v1 : Option String → Bool
is_v1 none = false
is_v1 (some s) = s == "v1"

abbrev value_or_empty : Option String → String
value_or_empty none = ""
value_or_empty (some s) = s

-- The version of the API, where the credentials may name one.
abbrev pub choose_version : Option String → Bool → String → String
choose_version version functions model_id =
    if given version
    then value_or_empty version
    else if functions || model_id == "gemini-1.5-pro-latest"
    then "v1beta"
    else "v1"

abbrev action : Bool → String
action true = "streamGenerateContent?alt=sse"
action false = "generateContent"

-- `prepare_request`
unfoldable pub prepare_request : Prompt → Result HttpRequest
unfolding build_payload get
prepare_request p =
    let version = credential "GOOGLE_GEMINI_API_VERSION" p.credentials in
    let functions = some_functions p.functions in
    if is_v1 version && functions
    then raise_http_error ErrorCode.request_validation_error
        "Function calls for Google Gemini are only supported in 'v1beta' API version."
    else (do
      payload ← build_payload p
      ok (record {
        api_url = concat (
            "https://generativelanguage.googleapis.com/"
            ∷ choose_version version functions p.provider_model_id
            ∷ "/models/"
            ∷ p.provider_model_id
            ∷ ":"
            ∷ action p.stream
            ∷ []);
        headers = build_header p.credentials;
        payload = payload;
      }))

abbrev pub gemini_adapter : Services → (Json → String) → Adapter
gemini_adapter svc dumps = record { prepare_request = prepare_request; model = gemini svc dumps }
