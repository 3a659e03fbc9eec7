-- ===== src/Cache/Providers.antt =====
-- codebase/llmhub/app/cache/provider.py: the catalog of providers. What the folders of providers contain
-- is an argument: YAML as data or as what is no YAML, and the keys that `collect_i18n_values` finds; a
-- file of texts is named by its language. Pydantic's conversion of a row and Python's `str` of a value
-- are parameters.

pub mod Translated
mod Tests
use Prim.Native.String as Text
use rtxag.Prelude.{
  ℕ, String, code, Bool, true, false, not, ◌&&◌, ◌||◌, Option, none, some, List, [], ◌∷◌, ◌++◌,
  Dict, get, put, keep, contains, is_empty, concat, eqb, leb, ◌==◌, if◌then◌else◌, Char,
}
use rtxag.Prelude.Text.{drop_prefix, is_some}
use rtxag.Error.{
  ErrorCode, Exception, raised, http, Kind, Result, ok, err, ◌>>=◌, ◌>>◌, raise_http_error,
}
use rtxag.Json.{Json, Fields, obj, lookup}
use rtxag.Json.Access.{get_key, item}
use rtxag.Addresses.{drop_chars}
use rtxag.Cache.{set_i18n}
use rtxag.Cache.Catalog.{le_text}

-- `Provider`
pub record Provider : Type 0 where
  pub provider_id : String
  pub name : String
  pub description : String
  pub credentials_schema : Fields
  pub icon_svg_url : String
  pub resources : Json
  pub updated_timestamp : Json

-- What `Provider.build` takes from a row.
pub record Row : Type 0 where
  pub provider_id : Json
  pub credentials_schema : Option Json
  pub name : Json
  pub description : Json
  pub resources : Json
  pub updated_timestamp : Json

-- A file of texts: its language and its texts, or what is no YAML.
pub data LanguageFile : Type 0 where
  bad_language : LanguageFile
  language : String → Dict String → LanguageFile

-- `provider.yml`: empty, no YAML, or its keys of texts and its row.
pub data ProviderFile : Type 0 where
  empty_file bad_yaml : ProviderFile
  provider_file : List String → Json → ProviderFile

-- The folder of a provider; `model_keys` are the keys of texts in the files of its models.
pub record Folder : Type 0 where
  pub provider_id : String
  pub file : ProviderFile
  pub model_keys : List String
  pub languages : List LanguageFile

-- The global variables, and the texts of i18n.py.
pub record Loaded : Type 0 where
  pub provider_dict : Dict Provider
  pub providers : List Provider
  pub texts : Dict String

-- `^[a-z0-9][a-z0-9_]*$`
abbrev is_lower : Char → Bool
is_lower c = (leb 97 (code c) && leb (code c) 122) || (leb 48 (code c) && leb (code c) 57)

abbrev all_words : String → Bool
all_words Text.[] = true
all_words (Text.◌∷◌ c s) = (is_lower c || eqb (code c) 95) && all_words s

abbrev matches_pattern : String → Bool
matches_pattern Text.[] = false
matches_pattern (Text.◌∷◌ c s) = is_lower c && all_words s

-- The folders whose names are those of providers.
unfoldable pub is_provider : Folder → Bool
unfolding drop_prefix
is_provider f =
    matches_pattern f.provider_id && not (is_some (drop_prefix "template" f.provider_id))

abbrev missing {ℓ} : {A : Type ℓ} → String → String → String → Result A
missing provider_id key lang =
    raise_http_error ErrorCode.object_not_found
      (concat (provider_id ∷ "'s i18n key " ∷ key ∷ " is missing in " ∷ lang ∷ ".yml" ∷ []))

abbrev present_or : Option String → Result (Unit {0}) → Result (Unit {0})
present_or none error = error
present_or (some s) error = ok tt

-- The loop over the keys: each, without its prefix, has a text.
unfoldable pub check_keys : String → String → List String → Dict String → Result (Unit {0})
unfolding get
check_keys id lang [] texts = ok tt
check_keys id lang (key ∷ keys) texts =
    present_or (get (drop_chars 5 key) texts) (missing id (drop_chars 5 key) lang)
    >> check_keys id lang keys texts

-- The loop over the files of texts; false if one is no YAML, which ends it.
unfoldable pub load_languages :
    String → List String → List LanguageFile → Dict String → Result (Bool × Dict String)
unfolding check_keys set_i18n
load_languages id keys [] texts = ok (true, texts)
load_languages id keys (bad_language ∷ ls) texts = ok (false, texts)
load_languages id keys (language lang d ∷ ls) texts =
    check_keys id lang keys d >> load_languages id keys ls (set_i18n id lang d texts)

-- `CONFIG.ALLOWED_PROVIDERS` and `CONFIG.PROD`
abbrev pub is_chosen : List String → Bool → Folder → Bool
is_chosen allowed prod f =
    is_provider f
    && ((is_empty allowed || contains f.provider_id allowed)
        && not (f.provider_id == "debug" && prod))

abbrev insert_provider : Provider → List Provider → List Provider
insert_provider p [] = p ∷ []
insert_provider p (q ∷ qs) =
    if le_text p.provider_id q.provider_id then p ∷ q ∷ qs else q ∷ insert_provider p qs

abbrev sort_providers : List Provider → List Provider
sort_providers [] = []
sort_providers (p ∷ ps) = insert_provider p (sort_providers ps)

module _ (convert : Row → Result Provider) (shown : Json → String) where
  abbrev pub build_from : Json → Json → Result Provider
  build_from row id = do
    resources ← item "resources" row
    schema ← get_key "credentials_schema" row
    name ← item "name" row
    description ← item "description" row
    updated_timestamp ← item "updated_timestamp" row
    convert (record {
      provider_id = id;
      credentials_schema = schema;
      name = name;
      description = description;
      resources = resources;
      updated_timestamp = updated_timestamp;
    })

  -- `except KeyError`, once the id is known.
  abbrev explained : Json → Result Provider → Result Provider
  explained id (err (raised Kind.key_error key)) = err (
      raised Kind.key_error (
        concat (
          "Missing key '"
          ∷ key
          ∷ "' for provider '"
          ∷ shown id
          ∷ "'. Please check the data."
          ∷ [])))
  explained id r = r

  -- The name that the message would show is not bound if it is the id that is missing.
  abbrev with_id : Json → Result Json → Result Provider
  with_id row (ok id) = explained id (build_from row id)
  with_id row (err (raised Kind.key_error key)) =
      err (raised Kind.other_error "cannot access local variable 'provider_id'")
  with_id row (err e) = err e

  -- `Provider.build`
  unfoldable pub build : Json → Result Provider
  unfolding item get_key
  build row = with_id row (item "provider_id" row)

  abbrev registered : String → Json → Dict String → Loaded → Result Loaded
  registered id row texts l = build row >>= λ p. ok (record {
    provider_dict = put id p l.provider_dict;
    providers = l.providers ++ (p ∷ []);
    texts = texts;
  })

  abbrev pub if_parsed : String → Json → Loaded → Bool × Dict String → Result Loaded
  if_parsed id row l (false, texts) = ok (record l { texts = texts })
  if_parsed id row l (true, texts) = registered id row texts l

  abbrev pub load_file : ProviderFile → Folder → Loaded → Result Loaded
  load_file empty_file f l = ok l
  load_file bad_yaml f l = ok l
  load_file (provider_file keys row) f l =
      load_languages f.provider_id (keys ++ f.model_keys) f.languages l.texts
      >>= if_parsed f.provider_id row l

  -- The body of the loop for a folder; what is no YAML is logged.
  unfoldable pub load_folder : Folder → Loaded → Result Loaded
  unfolding load_languages build put
  load_folder f l = load_file f.file f l

  unfoldable pub load_folders : List Folder → Loaded → Result Loaded
  unfolding load_folder
  load_folders [] l = ok l
  load_folders (f ∷ fs) l = load_folder f l >>= load_folders fs

  -- `load_provider_data`, with the variables before and after.
  unfoldable pub load_provider_data : List String → Bool → List Folder → Loaded → Result Loaded
  unfolding load_folders is_provider le_text
  load_provider_data allowed prod folders before = do
    l ← load_folders (keep (is_chosen allowed prod) folders) before
    ok (record l { providers = sort_providers l.providers })

-- `get_provider`
unfoldable pub get_provider : Loaded → String → Option Provider
unfolding get
get_provider l id = get id l.provider_dict
