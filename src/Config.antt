-- ===== src/Config.antt =====
-- codebase/llmhub/app/models/model_config/model_config_schema.py, and
-- `validate_chat_completion_model` of chat_completion/model_config.py. Numbers are decimals, so a
-- comparison with a bound is exact.
pub mod Checks
pub mod Merge
mod Tests
use Prim.Native.Nat.{◌^◌}
use Prim.Native.String as Text
use rtxag.Prelude.{
  ℕ, zero, suc, ◌+◌, ◌-◌, ◌*◌, String, Bool, true, false, not, ◌&&◌, ◌||◌, Option, none, some, List,
  [], ◌∷◌, Dict, get, put, concat, ◌==◌, if◌then◌else◌,
}
use rtxag.Error.{ErrorCode, Result, ok, err, raised, Kind, ◌>>=◌, ◌>>◌, raise_http_error}
use rtxag.Json.{
  Json, Items, Fields, null, bool, int, float, str, arr, obj, nil, cons, end, field, lookup, assign,
}
use rtxag.Json.Int.{ℤ, pos, negsuc, leb_ℤ}
use rtxag.Schema.{
  ModelSchema, ConfigSchema, allow_stream, allow_function_call, allow_vision_input, bad_request,
}

-- `deep_merge_dicts`: the loop over the updates, with the dictionary that it fills.
unfoldable mutual
  pub merge_fields : Fields → Fields → Fields → Fields
  merge_fields defaults result end = result
  merge_fields defaults result (field k v rest) =
      merge_fields defaults (assign k (merge_value (lookup k defaults) v) result) rest

  pub merge_value : Option Json → Json → Json
  merge_value old null = null
  merge_value old (bool b) = bool b
  merge_value old (int n) = int n
  merge_value old (float n k) = float n k
  merge_value old (str s) = str s
  merge_value old (arr xs) = arr xs
  merge_value none (obj u) = obj u
  merge_value (some (obj d)) (obj u) = obj (merge_fields d d u)
  merge_value (some _) (obj u) = obj u

unfoldable pub deep_merge_dicts : Fields → Fields → Fields
unfolding merge_fields
deep_merge_dicts defaults updates = merge_fields defaults defaults updates

-- n * 10 ^ k
abbrev scale : ℤ → ℕ → ℤ
scale (pos n) k = pos (n * 10 ^ k)
scale (negsuc n) k = negsuc (suc n * 10 ^ k - 1)

abbrev pub Decimal : Type 0
Decimal = ℤ × ℕ

abbrev pub leq : Decimal → Decimal → Bool
leq (a, j) (b, k) = leb_ℤ (scale a k) (scale b j)

-- The number that a value is in a comparison; `True` and `False` are 1 and 0.
abbrev pub number : Json → Option Decimal
number (bool true) = some (pos 1, 0)
number (bool false) = some (pos 0, 0)
number (int n) = some (n, 0)
number (float n k) = some (n, k)
number _ = none

abbrev compare_numbers : Option Decimal → Option Decimal → Result Bool
compare_numbers (some a) (some b) = ok (leq a b)
compare_numbers _ _ = err (raised Kind.type_error "'<=' not supported between these instances")

-- a <= b, of a bound and a number
unfoldable pub le_json : Json → Json → Result Bool
le_json a b = compare_numbers (number a) (number b)

abbrev present : String → Option Json → Result Json
present key none = err (raised Kind.key_error key)
present key (some v) = ok v

-- schema[key]
unfoldable pub index : String → Fields → Result Json
index key schema = present key (lookup key schema)

abbrev as_fields : Json → Result Fields
as_fields (obj fs) = ok fs
as_fields _ = err (raised Kind.type_error "value is not subscriptable")

-- schema[low] <= v <= schema[high]
unfoldable pub within : String → String → Fields → Json → Result Bool
unfolding index le_json
within low high schema v = do
  lo ← index low schema
  above ← le_json lo v
  if above then (do hi ← index high schema; le_json v hi) else ok false

abbrev count : Items → ℕ
count nil = 0
count (cons v vs) = suc (count vs)

abbrev text_length : String → ℕ
text_length Text.[] = 0
text_length (Text.◌∷◌ c s) = suc (text_length s)

-- One item of an array: a text whose length is within the bounds.
unfoldable pub check_item : Fields → Json → Result Bool
unfolding within
check_item schema (str s) = do
  items ← index "items" schema
  bounds ← as_fields items
  within "min_length" "max_length" bounds (int (pos (text_length s)))
check_item schema _ = ok false

unfoldable pub check_items : Fields → Items → Result Bool
unfolding check_item
check_items schema nil = ok true
check_items schema (cons v vs) =
    let rest = check_items schema vs in
    check_item schema v >>= λ fits. if fits then rest else ok false

unfoldable pub check_array : Fields → Json → Result Bool
unfolding check_items within
check_array schema (arr vs) =
    within "min_items" "max_items" schema (int (pos (count vs))) >>= λ fits.
    if fits then check_items schema vs else ok false
check_array schema _ = ok false

unfoldable pub check_int : Fields → Json → Result Bool
unfolding within
check_int schema (int n) = within "min" "max" schema (int n)
check_int schema (bool b) = within "min" "max" schema (bool b)
check_int schema _ = ok false

unfoldable pub check_float : Fields → Json → Result Bool
unfolding within
check_float schema (float n k) = within "min" "max" schema (float n k)
check_float schema _ = ok false

abbrev is_type : Json → String → Bool
is_type (str t) s = t == s
is_type _ s = false

-- `validate_config_value`
unfoldable pub validate_config_value : Json → Fields → Result Bool
unfolding check_array check_int check_float
validate_config_value value schema = do
  type ← index "type" schema
  if is_type type "array"
      then check_array schema value
      else if is_type type "int"
      then check_int schema value
      else if is_type type "float"
      then check_float schema value
      else ok true

-- A configuration: the nine fields of `ChatCompletionModelConfiguration` by name, in order, each
-- with its value or none.
abbrev pub Configuration : Type 0
Configuration = List (String × Option Json)

-- The dictionary from config ids to constraints; of two schemas with one id the later counts.
unfoldable pub constraints_from : Dict Fields → List ConfigSchema → Dict Fields
constraints_from d [] = d
constraints_from d (s ∷ rest) = constraints_from (put s.config_id s.schema d) rest

-- What becomes of a value under a name with these constraints.
unfoldable pub check_value : Bool → String → Json → Option Fields → Result (Option Json)
check_value verify key v none =
    if verify then bad_request (concat (key ∷ " is not allowed for the model." ∷ [])) else ok none
check_value verify key v (some schema) = validate_config_value v schema >>= λ fits.
    if fits
    then ok (some v)
    else bad_request (concat (key ∷ " does not conform to the required constraints." ∷ []))

-- One round of the loop over the configuration.
unfoldable pub check_config : Bool → Dict Fields → String → Option Json → Result (Option Json)
unfolding check_value
check_config verify known key none = ok none
check_config verify known key (some v) = check_value verify key v (get key known)

unfoldable pub check_configs : Bool → Dict Fields → Configuration → Result Configuration
unfolding check_config
check_configs verify known [] = ok []
check_configs verify known ((key, value) ∷ rest) = do
  value' ← check_config verify known key value
  rest' ← check_configs verify known rest
  ok ((key, value') ∷ rest')

-- A feature that the request needs must be one that the model allows.
unfoldable pub check_feature : Bool → Result Bool → String → Result (Unit {0})
check_feature false allowed message = ok tt
check_feature true allowed message = allowed >>= λ yes'. if yes' then ok tt else bad_request message

-- `validate_chat_completion_model`; it returns the configuration that it has changed.
unfoldable pub validate_chat_completion_model :
    ModelSchema → Bool → Bool → Bool → Configuration → Bool → Result Configuration
unfolding check_feature check_configs allow_stream allow_function_call allow_vision_input
validate_chat_completion_model m stream function_call vision_input configs verify = do
  check_feature stream (allow_stream m)
      (concat ("model " ∷ m.model_schema_id ∷ " does not support streaming." ∷ []))
  check_feature function_call (allow_function_call m)
      (concat ("model " ∷ m.model_schema_id ∷ " does not support function call." ∷ []))
  check_feature vision_input (allow_vision_input m)
      (concat ("model " ∷ m.model_schema_id ∷ " does not support vision message." ∷ []))
  check_configs verify (constraints_from [] m.config_schemas) configs
