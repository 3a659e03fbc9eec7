-- ===== src/Cache/Providers/Tests.antt =====
-- A folder with a name to translate, with the theorem on it, and one that lacks the text.
use rtxag.Prelude.{String, ◌≡◌, refl, true, List, [], ◌∷◌, Dict, get, put, All, keep}
use rtxag.Prelude.Text.{drop_prefix}
use rtxag.Error.{ErrorCode, Result, ok, raise_http_error}
use rtxag.Json.{Json, str, int, obj, field, end, lookup}
use rtxag.Json.Int.{pos}
use rtxag.Json.Access.{item, get_key}
use rtxag.Cache.{set_i18n}
use rtxag.Cache.Providers.{
  Provider, Row, Folder, Loaded, language, provider_file, is_chosen, is_provider, check_keys,
  load_languages, build, load_folder, load_folders, load_provider_data,
}
use rtxag.Cache.Providers.Translated.{HasText, IsTranslated, load_provider_data-IsTranslated}

abbrev provider : Provider
provider = record {
  provider_id = "p";
  name = "i18n:name";
  description = "";
  credentials_schema = end;
  icon_svg_url = "p.svg";
  resources = obj end;
  updated_timestamp = int (pos 0);
}

abbrev convert : Row → Result Provider
convert r = ok provider

abbrev row : Json
row = obj (
    field "provider_id" (str "p") (
      field "name" (str "i18n:name") (
        field "description" (str "")
          (field "resources" (obj end) (field "updated_timestamp" (int (pos 0)) end)))))

abbrev folder : Dict String → Folder
folder d = record {
  provider_id = "p";
  file = provider_file ("i18n:name" ∷ []) row;
  model_keys = [];
  languages = language "en" d ∷ [];
}

abbrev folders : List Folder
folders = folder (("name", "P") ∷ []) ∷ []

abbrev nothing : Loaded
nothing = record { provider_dict = []; providers = []; texts = [] }

abbrev loaded : Loaded
loaded = record {
  provider_dict = ("p", provider) ∷ [];
  providers = provider ∷ [];
  texts = ("p:en:name", "P") ∷ [];
}

load_provider_data-IsTranslated_example :
    All (IsTranslated loaded.texts) (keep (is_chosen [] true) folders)
    × ((k : String) → HasText k [] → HasText k loaded.texts)
unfolding load_provider_data load_folders load_folder load_languages check_keys set_i18n build item
    get_key lookup get put is_provider drop_prefix
load_provider_data-IsTranslated_example =
    load_provider_data-IsTranslated convert (λ v. "p") [] true folders nothing loaded refl

-- A text that is missing makes the start of the service fail.
text_missing :
    load_provider_data convert (λ v. "p") [] true (folder [] ∷ []) nothing
    ≡ raise_http_error ErrorCode.object_not_found "p's i18n key name is missing in en.yml"
unfolding load_provider_data load_folders load_folder load_languages check_keys get is_provider
    drop_prefix
text_missing = refl
