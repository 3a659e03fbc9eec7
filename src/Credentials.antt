-- ===== src/Credentials.antt =====
-- codebase/llmhub/app/models/provider_credentials.py, and `aes_encrypt` and `aes_decrypt` of
-- models/utils.py. AES in CBC mode with its padding, and base64, are a parameter.
pub mod Cipher
pub mod Plain
pub mod Sets
pub mod Validate
pub mod Fallback
mod Tests
use rtxag.Prelude.{
  ℕ, zero, suc, ◌+◌, String, Bool, true, false, not, ◌&&◌, ◌||◌, Option, none, some, List, [], ◌∷◌,
  Dict, get, put, concat, contains, nonempty, if◌then◌else◌,
}
use rtxag.Prelude.Text.{has_char, break_at}
use rtxag.Error.{
  ErrorCode, Exception, Result, ok, err, raised, http, Kind, ◌>>=◌, ◌>>◌, raise_http_error,
}
use rtxag.Schema.{ModelInfo, bad_request}

-- What the program uses of `Crypto` and `base64`.
pub record CipherSuite : Type 1 where
  pub Bytes : Type 0
  pub cbc_encrypt : Bytes → String → Bytes
  pub cbc_decrypt : Bytes → Bytes → Result String
  pub b64encode : Bytes → String
  pub b64decode : String → Result Bytes

-- `self.credentials`
abbrev pub Values : Type 0
Values = Dict (Option String)

module _ (suite : CipherSuite) where
  open suite use {Bytes, cbc_encrypt, cbc_decrypt, b64encode, b64decode}

  -- `aes_encrypt`, with the initialisation vector that the library draws.
  unfoldable pub aes_encrypt : Bytes → String → String
  aes_encrypt iv plain_text =
      concat (b64encode iv ∷ "," ∷ b64encode (cbc_encrypt iv plain_text) ∷ [])

  decrypt_parts : Option (String × String) → String → Result String
  decrypt_parts none encrypted_text = ok encrypted_text
  decrypt_parts (some (iv, ct)) encrypted_text = do
    iv' ← b64decode iv
    ct' ← b64decode ct
    cbc_decrypt iv' ct'

  -- `aes_decrypt`
  unfoldable pub aes_decrypt : String → Result String
  unfolding decrypt_parts
  aes_decrypt encrypted_text = decrypt_parts (break_at b',' encrypted_text) encrypted_text

  -- `encrypt`: the n-th value is encrypted with the n-th drawn vector.
  unfoldable pub encrypt : (ℕ → Bytes) → Values → Values
  encrypt ivs [] = []
  encrypt ivs ((key, none) ∷ rest) = (key, none) ∷ encrypt (λ n. ivs (suc n)) rest
  encrypt ivs ((key, some value) ∷ rest) =
      (key, some (aes_encrypt (ivs 0) value)) ∷ encrypt (λ n. ivs (suc n)) rest

  on_value_error : String → Result String → Result String
  on_value_error key (err (raised Kind.value_error e)) =
      bad_request (concat ("error decrypting " ∷ key ∷ ": " ∷ e ∷ []))
  on_value_error key r = r

  unfoldable pub decrypt_value : String → Option String → Result String
  unfolding on_value_error
  decrypt_value key none = bad_request "invalid credentials. Not encrypted: None"
  decrypt_value key (some value) =
      if has_char b',' value
      then on_value_error key (aes_decrypt value)
      else bad_request (concat ("invalid credentials. Not encrypted: " ∷ value ∷ []))

  -- `decrypt`
  unfoldable pub decrypt : Values → Result Values
  unfolding decrypt_value
  decrypt [] = ok []
  decrypt ((key, value) ∷ rest) = do
    plain ← decrypt_value key value
    rest' ← decrypt rest
    ok ((key, some plain) ∷ rest')

-- What `get_provider` says of a provider: its allowed and required credential names.
pub record ProviderFields : Type 0 where
  pub allowed : List String
  pub required : List String

-- The suffix of the sets of credentials after the first: "_1", "_2" and so on.
abbrev suffix : (ℕ → String) → ℕ → String
suffix str n = concat ("_" ∷ str n ∷ [])

abbrev pub is_present {ℓ} : {A : Type ℓ} → Option A → Bool
is_present none = false
is_present (some a) = true

abbrev or_key_error : String → Option String → Result String
or_key_error key none = err (raised Kind.key_error key)
or_key_error key (some v) = ok v

-- credentials[key]
unfoldable pub item : String → Dict String → Result String
item key credentials = or_key_error key (get key credentials)

-- One round over the allowed fields: whether the field is there, its suffixed item, whether it is
-- required, and what the later fields load.
abbrev pub load_field : String → Bool → Result String → Bool → Result Values → Result Values
load_field field true found required later =
    found >>= λ v. later >>= λ vs. ok ((field, some v) ∷ vs)
load_field field false found true later =
    bad_request (concat ("Required field " ∷ field ∷ " is missing." ∷ []))
load_field field false found false later = later

-- `load_credential_set_from_input`, over the allowed fields.
unfoldable pub load_set_from_input :
    List String → Dict String → String → List String → Result Values
unfolding item
load_set_from_input required credentials suffixed [] = ok []
load_set_from_input required credentials suffixed (field ∷ rest) =
    load_field field (is_present (get field credentials))
      (item (concat (field ∷ suffixed ∷ [])) credentials) (contains field required)
      (load_set_from_input required credentials suffixed rest)

-- `load_str_env` of config.py, over the environment and the table of defaults.
pub record Environment : Type 0 where
  pub environ : Dict String
  pub defaults : Dict String

abbrev given_text : Option String → Option String
given_text none = none
given_text (some s) = if nonempty s then some s else none

abbrev env_or_raise : String → Bool → Option String → Option String → Result (Option String)
env_or_raise name required (some v) default = ok (some v)
env_or_raise name required none (some d) = ok (some d)
env_or_raise name true none none = bad_request (concat ("Env " ∷ name ∷ " is not set" ∷ []))
env_or_raise name false none none = ok none

unfoldable pub load_str_env : Environment → String → Bool → Result (Option String)
load_str_env env name required =
    env_or_raise name required (given_text (get name env.environ)) (get name env.defaults)

-- `load_credential_set`, over the allowed names.
unfoldable pub load_set_from_env : List String → Environment → String → List String → Result Values
unfolding load_str_env
load_set_from_env required env suffixed [] = ok []
load_set_from_env required env suffixed (name ∷ rest) = do
  v ← load_str_env env (concat (name ∷ suffixed ∷ [])) (contains name required)
  vs ← load_set_from_env required env suffixed rest
  ok ((name, v) ∷ vs)

abbrev add_set : Values → Option (List Values) → Option (List Values)
add_set set none = none
add_set set (some sets) = some (set ∷ sets)

-- A set that raises ends the search.
abbrev unless_raised : Result Values → Option (List Values) → Option (List Values)
unless_raised (err e) rest = some []
unless_raised (ok set) rest = add_set set rest

-- The loop `while True` over the further sets, from a count on; it ends where a set raises. With
-- too little fuel there is no result.
unfoldable pub more_sets : (ℕ → Result Values) → ℕ → ℕ → Option (List Values)
more_sets load zero count = none
more_sets load (suc fuel) count =
    let rest = more_sets load fuel (count + 1) in unless_raised (load count) rest

-- `random.choice`, by the number that is drawn; one beyond the end stands for the first set.
abbrev pick : Values → List Values → ℕ → Values
pick first [] n = first
pick first (s ∷ rest) zero = first
pick first (s ∷ rest) (suc n) = pick s rest n

unfoldable pub assign_all : Values → Values → Values
assign_all values [] = values
assign_all values ((key, v) ∷ rest) = assign_all (put key v values) rest

abbrev choose_set : Values → ℕ → Values → Option (List Values) → Option (Result Values)
choose_set first drawn values none = none
choose_set first drawn values (some sets) = some (ok (assign_all values (pick first sets drawn)))

-- The common course of `load_input` and `load_default`: the first set must load, the loop finds
-- the others, and the values of one of them are written. `none` means that the fuel ran out.
unfoldable pub load_from :
    Result Values → (ℕ → Result Values) → ℕ → ℕ → Values → Option (Result Values)
unfolding assign_all more_sets
load_from (err e) load fuel drawn values = some (err e)
load_from (ok first) load fuel drawn values = choose_set first drawn values (more_sets load fuel 1)

module _ (str : ℕ → String) where
  -- `load_input`
  unfoldable pub load_input : ProviderFields → Dict String → ℕ → ℕ → Values → Option (Result Values)
  unfolding load_from load_set_from_input
  load_input p credentials fuel drawn values =
      load_from (load_set_from_input p.required credentials "" p.allowed)
        (λ n. load_set_from_input p.required credentials (suffix str n) p.allowed) fuel drawn values

  -- `load_default`
  unfoldable pub load_default :
      ProviderFields → Environment → ℕ → ℕ → Values → Option (Result Values)
  unfolding load_from load_set_from_env
  load_default p env fuel drawn values =
      load_from (load_set_from_env p.required env "" p.allowed)
        (λ n. load_set_from_env p.required env (suffix str n) p.allowed) fuel drawn values
