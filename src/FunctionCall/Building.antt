-- ===== src/FunctionCall/Building.antt =====
-- codebase/llmhub/app/models/chat_completion/model.py: function calls are built from what a provider
-- gave of them, names with arguments as texts or as dictionaries. JSON parser, clock, random ids and
-- token counter are the interface `Services`.
use rtxag.Prelude.{
  ℕ, zero, suc, String, Bool, true, false, Option, none, some, List, [], ◌∷◌, nonempty, append,
  if◌then◌else◌,
}
use rtxag.Error.{raised, Kind, Result, ok, err, ◌>>=◌, raise_provider_api_error}
use rtxag.Json.{Json, Fields, str, obj, field, end}
use rtxag.Json.Int.{ℤ, negsuc}
use rtxag.Message.{Message, FunctionCall}

-- `ChatCompletionFunctionCallsContent`
pub record CallsContent : Type 0 where
  pub index : ℤ
  pub arguments_strs : List String
  pub arguments_dicts : List Fields
  pub names : List String

abbrev pub no_calls : CallsContent
no_calls = record { index = negsuc 0; arguments_strs = []; arguments_dicts = []; names = [] }

pub record Services : Type 0 where
  pub loads : String → Option Json
  pub now : ℕ
  -- The n-th random id of a response.
  pub random_id : ℕ → String
  pub response_tokens : Message → ℕ

abbrev pub invalid_arguments {ℓ} : {A : Type ℓ} → Result A
invalid_arguments =
    raise_provider_api_error
      "Failed to parse the function call arguments due to invalid JSON format or length limit"

abbrev has_entries : Option Fields → Bool
has_entries none = false
has_entries (some end) = false
has_entries (some (field k v fs)) = true

module _ (svc : Services) where
  -- `ChatCompletionFunctionCall.validate_arguments` and the type of the field.
  abbrev as_arguments : Json → Result Fields
  as_arguments (obj fs) = ok fs
  as_arguments _ = err (raised Kind.validation_error "arguments")

  abbrev parsed_again : Option Json → Result Fields
  parsed_again none =
      err (raised Kind.validation_error "arguments should be a valid JSON or JSON string.")
  parsed_again (some v) = as_arguments v

  abbrev pub validate_arguments : Json → Result Fields
  validate_arguments (str s) = parsed_again (svc.loads s)
  validate_arguments v = as_arguments v

  abbrev parsed : Option Json → Result Json
  parsed none = invalid_arguments
  parsed (some v) = ok v

  abbrev from_text : Option String → Result Json
  from_text none = invalid_arguments
  from_text (some s) = if nonempty s then parsed (svc.loads s) else invalid_arguments

  abbrev given_entries : Option Fields → Json
  given_entries none = obj end
  given_entries (some fs) = obj fs

  -- `build_function_call`, with the number of the random id.
  unfoldable pub build_function_call :
      ℕ → String → Option String → Option Fields → Result FunctionCall
  build_function_call n name arguments_str arguments_dict = do
    arguments ←
        (if has_entries arguments_dict
          then ok (given_entries arguments_dict)
          else from_text arguments_str)
    fields ← validate_arguments arguments
    ok (record { id = append "P3lf" (svc.random_id n); name = name; arguments = fields })

  abbrev or_index_error {ℓ} : {A : Type ℓ} → Option A → Result (Option A)
  or_index_error none = err (raised Kind.index_error "list index out of range")
  or_index_error (some a) = ok (some a)

  abbrev pub nth {ℓ} : {A : Type ℓ} → ℕ → List A → Option A
  nth n [] = none
  nth zero (x ∷ xs) = some x
  nth (suc n) (x ∷ xs) = nth n xs

  -- `strs[i] if strs else None`
  abbrev pub item_if_any {ℓ} : {A : Type ℓ} → ℕ → List A → Result (Option A)
  item_if_any i [] = ok none
  item_if_any i (x ∷ xs) = or_index_error (nth i (x ∷ xs))

  -- The loop over the names, from an index on.
  unfoldable pub build_calls : CallsContent → ℕ → List String → Result (List FunctionCall)
  unfolding build_function_call
  build_calls c i [] = ok []
  build_calls c i (name ∷ rest) = do
    s ← item_if_any i c.arguments_strs
    d ← item_if_any i c.arguments_dicts
    call ← build_function_call i name s d
    calls ← build_calls c (suc i) rest
    ok (call ∷ calls)
