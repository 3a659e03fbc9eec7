-- ===== src/FunctionCall.antt =====
-- codebase/llmhub/app/models/chat_completion/function_call.py: the choice of functions in a request
-- and the validators of function parameters. Functions come in as dictionaries.
pub mod Selection
pub mod Building
pub mod Dump
mod Tests
use rtxag.Prelude.{
  String, Bool, true, false, not, ◌&&◌, ◌||◌, Option, none, some, List, [], ◌∷◌, ◌==◌, any, keep,
  concat, is_empty, if◌then◌else◌,
}
use rtxag.Error.{Result, ok, err, raised, Kind, ◌>>=◌, ◌>>◌}
use rtxag.Json.{Json, Fields, str, lookup, truthy?}

abbrev value_error {ℓ} : {A : Type ℓ} → String → Result A
value_error s = err (raised Kind.value_error s)

-- `function_call_is_function_name`
abbrev pub function_call_is_function_name : Option String → Bool
function_call_is_function_name none = false
function_call_is_function_name (some s) = not (s == "none") && not (s == "auto")

abbrev is_text : Option Json → String → Bool
is_text (some (str t)) s = t == s
is_text _ s = false

-- `f.get("name") == name`
unfoldable pub has_name : String → Fields → Bool
has_name name f = is_text (lookup "name" f) name

abbrev pub has_functions : Option (List Fields) → Bool
has_functions none = false
has_functions (some fs) = not (is_empty fs)

abbrev pub Choice : Type 0
Choice = Option String × Option (List Fields)

abbrev choose_named : String → Option (List Fields) → Result Choice
choose_named name none = value_error "function call is not allowed when functions is not provided"
choose_named name (some fs) =
    if any (has_name name) fs
    then ok (some name, some (keep (has_name name) fs))
    else value_error (concat (name ∷ " is not a function name" ∷ []))

abbrev choose_auto : Option (List Fields) → Result Choice
choose_auto none = ok (some "none", none)
choose_auto (some fs) = ok (some "auto", some fs)

-- `validate_function_call_and_functions`
unfoldable pub validate_choice : Option String → Option (List Fields) → Result Choice
validate_choice none functions = ok (none, functions)
validate_choice (some s) functions =
    if s == "none"
    then ok (some s, (if has_functions functions then none else functions))
    else if s == "auto"
    then choose_auto functions
    else choose_named s functions

-- `ChatCompletionFunctionParametersProperty.custom_validate`
unfoldable pub custom_validate : Fields → Result Fields
custom_validate data_ =
    let typed = lookup "type" data_ in
    if not (is_text typed "string") && truthy? (lookup "enum" data_)
    then value_error "enum is only allowed when type is 'string'"
    else if is_text typed "array" && not (truthy? (lookup "items" data_))
    then value_error "items is required when type is 'array'"
    else ok data_

-- The dictionary of a function's parameters: the names and schemas of its properties, and the names
-- under "required", if that key is there.
pub record ParametersData : Type 0 where
  pub properties : Fields
  pub required : Option (List String)

abbrev is_some {ℓ} : {A : Type ℓ} → Option A → Bool
is_some none = false
is_some (some a) = true

unfoldable pub check_required : Fields → List String → Result (Unit {0})
check_required properties [] = ok tt
check_required properties (param ∷ rest) =
    let later = check_required properties rest in
    if is_some (lookup param properties)
    then later
    else value_error (concat ("parameter " ∷ param ∷ " is in required but not in properties" ∷ []))

abbrev required_or_empty : Option (List String) → List String
required_or_empty none = []
required_or_empty (some names) = names

-- `ChatCompletionFunctionParameters.validate_required`
unfoldable pub validate_required : ParametersData → Result ParametersData
unfolding check_required
validate_required d = do
  let required = required_or_empty d.required
  check_required d.properties required
  ok (record d { required = some required })
