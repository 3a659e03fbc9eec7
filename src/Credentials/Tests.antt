-- ===== src/Credentials/Tests.antt =====
-- The credentials on small inputs, and the theorems at such inputs.
use Prim.Native.String as Text
use rtxag.Prelude.{
  ℕ, zero, suc, String, ◌≡◌, refl, false, Option, none, some, [], ◌∷◌, Dict, get, put,
}
use rtxag.Error.{Result, ok}
use rtxag.Schema.{ModelSchema, ModelInfo}
use rtxag.Properties.{ModelType}
use rtxag.Credentials.{Values, ProviderFields, Environment, encrypt, decrypt, load_input}
use rtxag.Credentials.Plain.{plain_suite, plain_suite-IsSound}
use rtxag.Credentials.Cipher.{decrypt-encrypt}
use rtxag.Credentials.Sets.{load_input_ends}
use rtxag.Credentials.Validate.{Sources}

abbrev stored : Values
stored = ("KEY", some "sk-1") ∷ []

decrypt-encrypt_example : decrypt plain_suite (encrypt plain_suite (λ n. "iv") stored) ≡ ok stored
decrypt-encrypt_example = decrypt-encrypt plain_suite plain_suite-IsSound (λ n. "iv") stored tt

-- A numeral as so many strokes.
abbrev strokes : ℕ → String
strokes zero = ""
strokes (suc n) = Text.◌∷◌ "i" (strokes n)

abbrev keyed : ProviderFields
keyed = record { allowed = "KEY" ∷ "URL" ∷ []; required = "KEY" ∷ [] }

abbrev free : ProviderFields
free = record { allowed = "URL" ∷ []; required = [] }

load_input_two_sets :
    load_input strokes keyed (("KEY", "a") ∷ ("KEY_i", "b") ∷ []) 5 1 []
    ≡ some (ok (("KEY", some "b") ∷ []))
unfolding load_input get put
load_input_two_sets = refl

load_input_ends_example :
    (r : Result Values) × (load_input strokes keyed (("KEY", "a") ∷ []) 1 0 [] ≡ some r)
unfolding get
load_input_ends_example =
    load_input_ends strokes keyed (("KEY", "a") ∷ []) 0 [] "KEY" 0 refl refl refl

abbrev bare : Environment
bare = record { environ = ("KEY", "a") ∷ []; defaults = [] }

abbrev other_schema : ModelSchema
other_schema = record {
  model_schema_id = "free/m";
  name = "m";
  description = "";
  deprecated = false;
  provider_id = "free";
  provider_model_id = none;
  type = ModelType.chat_completion;
  properties = none;
  config_schemas = [];
}

abbrev other_info : ModelInfo
other_info = record {
  model_schema = other_schema;
  provider_model_id = "m";
  properties = none;
  model_type = ModelType.chat_completion;
}

abbrev service : Sources
service = record {
  suite = plain_suite;
  str = strokes;
  get_provider = λ id. some free;
  env = bare;
  fuel = 5;
  draws = λ n. 0;
}

abbrev both_keys : Option (Dict String)
both_keys = some (("KEY", "iv,sk-1") ∷ ("URL", "iv,u") ∷ [])
