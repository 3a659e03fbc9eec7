-- ===== src/Cache/Tests.antt =====
-- Two providers, one of which cannot be imported, and the theorems on the caches there.
use rtxag.Prelude.{String, ◌≡◌, ◌↔◌, refl, true, false, none, some, List, [], ◌∷◌, put}
use rtxag.Error.{ok}
use rtxag.Schema.{ModelSchema}
use rtxag.Properties.{ModelType}
use rtxag.Cache.Catalog.{
  File, yaml_error, parsed, Catalog, load_model_schema_data, load_providers, load_files,
  get_model_schema, is_allowed, dict_by,
}
use rtxag.Cache.Catalog.Order.{IsSorted, Member}
use rtxag.Cache.Catalog.Lookup.{load_model_schema_data_lem}

abbrev schema_of : String → ModelSchema
schema_of id = record {
  model_schema_id = id;
  name = "m";
  description = "";
  deprecated = false;
  provider_id = "p";
  provider_model_id = some "m";
  type = ModelType.chat_completion;
  properties = none;
  config_schemas = [];
}

abbrev files : List (String × List File)
files =
    (
      "p",
      parsed "p/b" (ok (schema_of "p/b")) ∷ yaml_error ∷ parsed "p/a" (ok (schema_of "p/a")) ∷ [],
    )
    ∷ ("q", parsed "q/c" (ok (schema_of "q/c")) ∷ [])
    ∷ []

abbrev ordered : List ModelSchema
ordered = schema_of "p/a" ∷ schema_of "p/b" ∷ []

abbrev catalog : Catalog
catalog = record {
  model_schemas = ordered;
  model_schema_dict = ("p/a", schema_of "p/a") ∷ ("p/b", schema_of "p/b") ∷ [];
  provider_model_schema_dict = ("p:m", schema_of "p/b") ∷ [];
}

loaded : load_model_schema_data ("p" ∷ []) files ≡ ok catalog
unfolding load_model_schema_data load_providers load_files dict_by put
loaded = refl

load_model_schema_data_lem_example :
    (ms : List ModelSchema) × (load_providers files ≡ ok ms)
    × IsSorted ordered
    × (Member (schema_of "p/a") ordered
        ↔ (Member (schema_of "p/a") ms × (is_allowed ("p" ∷ []) (schema_of "p/a") ≡ true)))
load_model_schema_data_lem_example =
    load_model_schema_data_lem ("p" ∷ []) files catalog (schema_of "p/a") loaded

found : get_model_schema catalog "p/b" ≡ some (schema_of "p/b")
unfolding get_model_schema
found = refl
