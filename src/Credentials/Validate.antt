-- ===== src/Credentials/Validate.antt =====
-- `validate_credentials` of codebase/llmhub/app/models/provider_credentials.py.
use rtxag.Prelude.{
  ℕ, suc, String, Bool, true, false, ◌&&◌, Option, none, some, List, [], ◌∷◌, Dict, if◌then◌else◌,
}
use rtxag.Error.{Result, ok, err, raised, Kind, ◌>>=◌}
use rtxag.Schema.{ModelInfo, bad_request}
use rtxag.Credentials.{
  CipherSuite, Values, ProviderFields, Environment, decrypt, load_input, load_default,
}

-- `if d` of an optional dictionary
abbrev pub filled : Option (Dict String) → Bool
filled none = false
filled (some []) = false
filled (some (e ∷ d)) = true

abbrev pub entries : Option (Dict String) → Dict String
entries none = []
entries (some d) = d

-- `except Exception`
abbrev pub as_invalid : Result Values → Result Values
as_invalid (err e) = bad_request "The encrypted credentials are invalid."
as_invalid (ok v) = ok v

abbrev pub on_loaded :
    (Result Values → Result Values) → Option (Result Values) → Option (Result Values)
on_loaded f none = none
on_loaded f (some r) = some (f r)

-- What the request and the service offer: the drawn numbers stand for `random.choice`.
pub record Sources : Type 1 where
  pub suite : CipherSuite
  pub str : ℕ → String
  pub get_provider : String → Option ProviderFields
  pub env : Environment
  pub fuel : ℕ
  pub draws : ℕ → ℕ

-- `get_provider(id).allowed_credential_names()` of an unknown provider
abbrev pub with_provider :
    Option ProviderFields → (ProviderFields → Option (Result Values)) → Option (Result Values)
with_provider none load = some (
    err
      (raised Kind.attribute_error "'NoneType' object has no attribute 'allowed_credential_names'"))
with_provider (some p) load = load p

module _ (src : Sources) (credentials encrypted : Option (Dict String)) where
  -- One round of the loop: the n-th model's credentials are added to the values.
  unfoldable pub load_for : ℕ → ModelInfo → Values → Option (Result Values)
  unfolding load_input load_default decrypt
  load_for n info values =
      let provider = src.get_provider info.model_schema.provider_id in
      if filled credentials && filled encrypted
      then some
          (bad_request "either credentials or encrypted_credentials is required, but not both.")
      else if filled credentials
      then with_provider provider
          (λ p. load_input src.str p (entries credentials) src.fuel (src.draws n) values)
      else if filled encrypted
      then on_loaded as_invalid (
          on_loaded (λ r. r >>= decrypt src.suite)
            (with_provider provider
              (λ p. load_input src.str p (entries encrypted) src.fuel (src.draws n) values)))
      else with_provider provider
          (λ p. load_default src.str p src.env src.fuel (src.draws n) values)

  unfoldable pub load_all : ℕ → List ModelInfo → Values → Option (Result Values)
  unfolding load_for
  load_all n [] values = some (ok values)
  load_all n (info ∷ infos) values = elim (load_for n info values) [
    | none ↦ none
    | some (err e) ↦ some (err e)
    | some (ok values') ↦ load_all (suc n) infos values'
  ]

  -- `validate_credentials`; `none` means that the search for further sets ran out of fuel.
  unfoldable pub validate_credentials : List ModelInfo → Option (Result Values)
  unfolding load_all
  validate_credentials infos = load_all 0 infos []
