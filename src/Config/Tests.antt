-- ===== src/Config/Tests.antt =====
-- A model with one constrained value, and the theorems on configurations at it.
use rtxag.Prelude.{◌≡◌, refl, true, false, none, some, [], ◌∷◌, All, get, put}
use rtxag.Error.{ok}
use rtxag.Json.{Fields, int, str, field, end, lookup}
use rtxag.Json.Int.{pos}
use rtxag.Schema.{ModelSchema, allow_stream, allow_function_call, allow_vision_input}
use rtxag.Properties.{ModelType}
use rtxag.Config.{
  Configuration, constraints_from, validate_chat_completion_model, validate_config_value,
}
use rtxag.Config.Checks.{Checked, drop_unknown, validate_chat_completion_model_lem}

abbrev limits : Fields
limits = field "type" (str "int") (field "min" (int (pos 1)) (field "max" (int (pos 9)) end))

abbrev limited : ModelSchema
limited = record {
  model_schema_id = "p/m";
  name = "m";
  description = "";
  deprecated = false;
  provider_id = "p";
  provider_model_id = none;
  type = ModelType.chat_completion;
  properties = none;
  config_schemas = record { config_id = "max_tokens"; schema = limits } ∷ [];
}

abbrev given : Configuration
given = ("max_tokens", some (int (pos 5))) ∷ ("top_k", some (int (pos 2))) ∷ ("seed", none) ∷ []

abbrev cleaned : Configuration
cleaned = ("max_tokens", some (int (pos 5))) ∷ ("top_k", none) ∷ ("seed", none) ∷ []

given_valid : validate_chat_completion_model limited true false false given false ≡ ok cleaned
unfolding validate_chat_completion_model constraints_from get put lookup validate_config_value
given_valid = refl

validate_chat_completion_model_lem_example :
    (true ≡ true → allow_stream limited ≡ ok true)
    × (false ≡ true → allow_function_call limited ≡ ok true)
    × (false ≡ true → allow_vision_input limited ≡ ok true)
    × All (Checked (constraints_from [] limited.config_schemas)) cleaned
    × (cleaned ≡ drop_unknown false (constraints_from [] limited.config_schemas) given)
validate_chat_completion_model_lem_example =
    validate_chat_completion_model_lem limited true false false false given cleaned given_valid
