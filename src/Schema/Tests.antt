-- ===== src/Schema/Tests.antt =====
-- A custom model and the theorem on model infos at it.
use rtxag.Prelude.{◌≡◌, ◌≢◌, ◌⊎◌, refl, Bool, true, false, Option, none, some, [], nonempty}
use rtxag.Error.{ok}
use rtxag.Json.{Json, Fields, int, field, end, lookup}
use rtxag.Json.Int.{ℤ, pos}
use rtxag.Schema.{ModelSchema, ModelInfo, validate_model_info, or_else, agrees}
use rtxag.Properties.{text_embedding, wildcard, Coercion, embedding, embedding_properties}
use rtxag.Schema.Info.{IsBuilt, Fits, validate_model_info_lem}

abbrev int_value : Json → Option ℤ
int_value (int n) = some n
int_value _ = none

abbrev bool_value : Json → Option Bool
bool_value (Json.bool b) = some b
bool_value _ = none

abbrev strict : Coercion
strict = record { as_int = int_value; as_bool = bool_value }

abbrev host : ModelSchema
host = record {
  model_schema_id = "custom_host/any";
  name = "any";
  description = "";
  deprecated = false;
  provider_id = "custom_host";
  provider_model_id = none;
  type = wildcard;
  properties = none;
  config_schemas = [];
}

abbrev sized : Fields
sized = field "embedding_size" (int (pos 3)) end

abbrev host_info : ModelInfo
host_info = record {
  model_schema = host;
  provider_model_id = "m";
  properties =
      some
        (embedding (record { embedding_size = 3; input_token_limit = 512; max_batch_size = 512 }));
  model_type = text_embedding;
}

host_validated :
    validate_model_info strict
      (λ id. some host)
      "custom_host/any"
      (some "m")
      (some sized)
      (some text_embedding)
    ≡ ok host_info
unfolding validate_model_info lookup embedding_properties
host_validated = refl

validate_model_info_lem_example :
    (some host ≡ some host)
    × (nonempty "m" ≡ true)
    × (or_else none (some "m") ≡ some "m")
    × (text_embedding ≢ wildcard)
    × (agrees (some text_embedding) text_embedding ≡ true)
    × ((wildcard ≡ wildcard) ⊎ (text_embedding ≡ wildcard))
    × (IsBuilt host → Fits text_embedding host_info.properties)
validate_model_info_lem_example =
    validate_model_info_lem strict (λ id. some host) "custom_host/any" (some "m") (some sized)
      (some text_embedding) host_info host_validated
