-- ===== src/Config/Checks.antt =====
-- What the checks on a configuration guarantee.
use rtxag.Prelude.{
  String, ◌≡◌, refl, Bool, true, false, Option, none, some, [], ◌∷◌, All, concat, Dict, get,
  if◌then◌else◌, arith,
}
use rtxag.Error.{Result, ok, err, ◌>>=◌, ok-bind}
use rtxag.Json.{Json, Fields, int, str, lookup}
use rtxag.Json.Int.{ℤ}
use rtxag.Schema.{ModelSchema, allow_stream, allow_function_call, allow_vision_input, bad_request}
use rtxag.Config.{
  Configuration, constraints_from, check_value, check_config, check_configs, check_feature,
  validate_chat_completion_model, validate_config_value, within, index, le_json,
}

-- A value that passed the constraints, where there are some.
abbrev pub CheckedBy : Option Fields → Option Json → Type 0
CheckedBy o none = Unit
CheckedBy none (some v) = ⊥
CheckedBy (some schema) (some v) = validate_config_value v schema ≡ ok true

abbrev pub Checked : Dict Fields → String × Option Json → Type 0
Checked known (key, v) = CheckedBy (get key known) v

abbrev pub unless_unknown : Option Fields → Option Json → Option Json
unless_unknown none v = none
unless_unknown (some s) v = v

-- The configuration with the values of unknown names left out, unless they are to be refused.
abbrev pub drop_unknown : Bool → Dict Fields → Configuration → Configuration
drop_unknown verify known [] = []
drop_unknown verify known ((key, v) ∷ rest) =
    (key, (if verify then v else unless_unknown (get key known) v)) ∷ drop_unknown verify known rest

check_value_lem :
    (verify : Bool) (key : String) (v : Json) (o : Option Fields) (v' : Option Json)
    → check_value verify key v o ≡ ok v'
    → CheckedBy o v' × (v' ≡ (if verify then some v else unless_unknown o (some v)))
unfolding check_value
check_value_lem true key v none v' h = cc
check_value_lem false key v none v' h = let e : none ≡ v' = cc in rw (← e) (tt, refl)
check_value_lem verify key v (some schema) v' h =
    let (fits, valid, h') = ok-bind _ (validate_config_value v schema) h in passed fits valid h'
  where
    passed :
        (fits : Bool)
        → validate_config_value v schema ≡ ok fits
        → (if fits
            then ok (some v)
            else bad_request (concat (key ∷ " does not conform to the required constraints." ∷ [])))
          ≡ ok v'
        → CheckedBy (some schema) v' × (v' ≡ (if verify then some v else some v))
    passed true valid k =
        let e : some v ≡ v' = cc in
        rw (← e) (
          valid,
          elim verify as (λ b. some v ≡ (if b then some v else some v)) [
            | true ↦ refl
            | false ↦ refl
          ],
        )
    passed false valid k = cc k

check_config_lem :
    (verify : Bool) (known : Dict Fields) (key : String) (v v' : Option Json)
    → check_config verify known key v ≡ ok v'
    → Checked known (key, v') × (v' ≡ (if verify then v else unless_unknown (get key known) v))
unfolding check_config
check_config_lem true known key none v' h = let e : none ≡ v' = cc in rw (← e) (tt, refl)
check_config_lem false known key none v' h = let e : none ≡ v' = cc in rw (← e) (tt, ground arith)
check_config_lem verify known key (some v) v' h = check_value_lem verify key v (get key known) v' h

check_configs_lem :
    (verify : Bool) (known : Dict Fields) (cs cs' : Configuration)
    → check_configs verify known cs ≡ ok cs'
    → All (Checked known) cs' × (cs' ≡ drop_unknown verify known cs)
unfolding check_configs
check_configs_lem verify known [] cs' h = let e : [] ≡ cs' = cc in rw (← e) (tt, refl)
check_configs_lem verify known ((key, v) ∷ rest) cs' h =
    let (v', first, h') = ok-bind _ (check_config verify known key v) h in
    let (rest', later, h'') = ok-bind _ (check_configs verify known rest) h' in
    let (ok_v, e) = check_config_lem verify known key v v' first in
    let (ok_rest, es) = check_configs_lem verify known rest rest' later in
    let d : (key, v') ∷ rest' ≡ cs' = cc in rw (← d) ((ok_v, ok_rest), cc (e, es))

allowed_feature :
    (flag : Bool) (allowed : Result Bool) (message : String)
    → check_feature flag allowed message ≡ ok tt
    → flag ≡ true
    → allowed ≡ ok true
unfolding check_feature
allowed_feature false allowed message h e = cc e
allowed_feature true (ok true) message h e = refl
allowed_feature true (ok false) message h e = cc h
allowed_feature true (err x) message h e = cc h

-- A request that passes asks for no feature that the model lacks; every value that is left in its
-- configuration satisfies the constraints that the model states under its name; and nothing has
-- changed but that values of unknown names are dropped, which never happens under `verify`.
pub validate_chat_completion_model_lem :
    (m : ModelSchema) (stream function_call vision_input verify : Bool) (cs cs' : Configuration)
    → validate_chat_completion_model m stream function_call vision_input cs verify ≡ ok cs'
    → (stream ≡ true → allow_stream m ≡ ok true)
      × (function_call ≡ true → allow_function_call m ≡ ok true)
      × (vision_input ≡ true → allow_vision_input m ≡ ok true)
      × All (Checked (constraints_from [] m.config_schemas)) cs'
      × (cs' ≡ drop_unknown verify (constraints_from [] m.config_schemas) cs)
unfolding validate_chat_completion_model
validate_chat_completion_model_lem m stream function_call vision_input verify cs cs' h =
    let (_, s, h₁) = ok-bind _ (check_feature stream (allow_stream m) _) h in
    let (_, f, h₂) = ok-bind _ (check_feature function_call (allow_function_call m) _) h₁ in
    let (_, v, h₃) = ok-bind _ (check_feature vision_input (allow_vision_input m) _) h₂ in
    let (checked, dropped) =
      check_configs_lem verify (constraints_from [] m.config_schemas) cs cs' h₃ in
    (
      allowed_feature stream (allow_stream m) _ s,
      allowed_feature function_call (allow_function_call m) _ f,
      allowed_feature vision_input (allow_vision_input m) _ v,
      checked,
      dropped,
    )

index_lem :
    (key : String) (schema : Fields) (v : Json)
    → index key schema ≡ ok v
    → lookup key schema ≡ some v
unfolding index
index_lem key schema v h = ground arith

within_lem :
    (low high : String) (schema : Fields) (v : Json)
    → within low high schema v ≡ ok true
    → (lo : Json) × (hi : Json) × (lookup low schema ≡ some lo)
      × (lookup high schema ≡ some hi)
      × (le_json lo v ≡ ok true)
      × (le_json v hi ≡ ok true)
unfolding within
within_lem low high schema v h =
    let (lo, at_lo, h₁) = ok-bind _ (index low schema) h in
    let (above, c, h₂) = ok-bind _ (le_json lo v) h₁ in finish lo at_lo above c h₂
  where
    finish :
        (lo : Json)
        → index low schema ≡ ok lo
        → (above : Bool) → le_json lo v ≡ ok above
        → (if above then (index high schema >>= λ hi. le_json v hi) else ok false) ≡ ok true
        → (lo : Json) × (hi : Json) × (lookup low schema ≡ some lo)
          × (lookup high schema ≡ some hi)
          × (le_json lo v ≡ ok true)
          × (le_json v hi ≡ ok true)
    finish lo at_lo false c k = cc k
    finish lo at_lo true c k =
        let (hi, at_hi, below) = ok-bind (λ hi. le_json v hi) (index high schema) k in
        (lo, hi, index_lem low schema lo at_lo, index_lem high schema hi at_hi, c, below)

-- Under a schema of type 'int' an integer that is accepted lies between the bounds of the schema.
pub validate_config_value_bounds :
    (n : ℤ) (schema : Fields)
    → lookup "type" schema ≡ some (str "int")
    → validate_config_value (int n) schema ≡ ok true
    → (lo : Json) × (hi : Json) × (lookup "min" schema ≡ some lo)
      × (lookup "max" schema ≡ some hi)
      × (le_json lo (int n) ≡ ok true)
      × (le_json (int n) hi ≡ ok true)
unfolding validate_config_value
validate_config_value_bounds n schema t h = within_lem "min" "max" schema (int n) (rw t at h)
