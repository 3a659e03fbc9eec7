-- ===== src/Cache/Catalog.antt =====
-- codebase/llmhub/app/cache/model_schema.py: the catalog of model schemas. What the files of a
-- provider give, after YAML and `ModelSchema.build`, is an argument.
pub mod Order
pub mod Lookup
use Prim.Native.String as Text
use rtxag.Prelude.{
  ℕ, String, code, Bool, true, false, not, ◌&&◌, ◌||◌, Option, none, some, List, [], ◌∷◌, ◌++◌,
  Dict, get, put, map, keep, contains, is_empty, concat, ltb, eqb, ◌==◌, if◌then◌else◌,
}
use rtxag.Error.{Exception, raised, Kind, Result, ok, err, ◌>>=◌, ◌>>◌}
use rtxag.Schema.{ModelSchema}
use rtxag.Properties.{ModelType, same_type}

-- A file: no YAML, which is logged, or an id and what building the schema gives.
pub data File : Type 0 where
  yaml_error : File
  parsed : String → Result ModelSchema → File

-- s <= t, by code points
unfoldable pub le_text : String → String → Bool
le_text Text.[] t = true
le_text (Text.◌∷◌ c s) Text.[] = false
le_text (Text.◌∷◌ c s) (Text.◌∷◌ d t) =
    let rest = le_text s t in
    if ltb (code c) (code d) then true else if eqb (code c) (code d) then rest else false

abbrev pub le_schema : ModelSchema → ModelSchema → Bool
le_schema m n = le_text m.model_schema_id n.model_schema_id

abbrev check_new : String → String → List String → Result (Unit {0})
check_new provider_id id seen =
    if contains id seen
    then err (
        raised Kind.value_error
          (concat ("Duplicate model_schema_id " ∷ id ∷ " found in provider " ∷ provider_id ∷ [])))
    else ok tt

-- The loop over the files of a provider, with the ids so far.
unfoldable pub load_files : String → List String → List File → Result (List ModelSchema)
load_files provider_id seen [] = ok []
load_files provider_id seen (yaml_error ∷ files) = load_files provider_id seen files
load_files provider_id seen (parsed id built ∷ files) = do
  check_new provider_id id seen
  m ← built
  rest ← load_files provider_id (id ∷ seen) files
  ok (record m { provider_id = provider_id } ∷ rest)

unfoldable pub load_providers : List (String × List File) → Result (List ModelSchema)
unfolding load_files
load_providers [] = ok []
load_providers ((provider_id, files) ∷ rest) = do
  ms ← load_files provider_id [] files
  later ← load_providers rest
  ok (ms ++ later)

-- `not CONFIG.ALLOWED_PROVIDERS or provider_id in CONFIG.ALLOWED_PROVIDERS`
abbrev pub is_allowed : List String → ModelSchema → Bool
is_allowed allowed m = is_empty allowed || contains m.provider_id allowed

-- `model_schemas.sort(key=...)`, which keeps the order of equal ids.
unfoldable pub insert : ModelSchema → List ModelSchema → List ModelSchema
unfolding le_text
insert m [] = m ∷ []
insert m (n ∷ ns) = let rest = insert m ns in if le_schema m n then m ∷ n ∷ ns else n ∷ rest

unfoldable pub sort : List ModelSchema → List ModelSchema
unfolding insert
sort [] = []
sort (m ∷ ms) = insert m (sort ms)

-- A dictionary by a key; of two schemas with one key the later counts.
unfoldable pub dict_by :
    (ModelSchema → String) → Dict ModelSchema → List ModelSchema → Dict ModelSchema
unfolding put
dict_by key d [] = d
dict_by key d (m ∷ ms) = dict_by key (put (key m) m d) ms

abbrev or_none_text : Option String → String
or_none_text none = "None"
or_none_text (some s) = s

abbrev pub provider_key : ModelSchema → String
provider_key m = concat (m.provider_id ∷ ":" ∷ or_none_text m.provider_model_id ∷ [])

-- The global variables.
pub record Catalog : Type 0 where
  pub model_schemas : List ModelSchema
  pub model_schema_dict : Dict ModelSchema
  pub provider_model_schema_dict : Dict ModelSchema

-- `load_model_schema_data`
unfoldable pub load_model_schema_data : List String → List (String × List File) → Result Catalog
unfolding load_providers sort dict_by
load_model_schema_data allowed providers = do
  ms ← load_providers providers
  let sorted = sort (keep (is_allowed allowed) ms)
  ok (record {
    model_schemas = sorted;
    model_schema_dict = dict_by (λ m. m.model_schema_id) [] sorted;
    provider_model_schema_dict = dict_by provider_key [] sorted;
  })

abbrev matches_text : Option String → String → Bool
matches_text none s = true
matches_text (some t) s = s == t

abbrev matches_type : Option ModelType → ModelType → Bool
matches_type none t = true
matches_type (some u) t = same_type t u

-- `list_model_schemas`
unfoldable pub list_model_schemas : Catalog → Option String → Option ModelType → List ModelSchema
list_model_schemas c provider_id type =
    keep (λ m. matches_text provider_id m.provider_id && matches_type type m.type) c.model_schemas

-- `get_model_schema`
unfoldable pub get_model_schema : Catalog → String → Option ModelSchema
unfolding get
get_model_schema c id = get id c.model_schema_dict

-- `get_model_schema_by_provider`
unfoldable pub get_model_schema_by_provider : Catalog → String → String → Option ModelSchema
unfolding get
get_model_schema_by_provider c provider_id provider_model_id =
    get (concat (provider_id ∷ ":" ∷ provider_model_id ∷ [])) c.provider_model_schema_dict
