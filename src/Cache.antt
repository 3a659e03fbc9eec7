-- ===== src/Cache.antt =====
-- codebase/llmhub/app/cache: the registries of models (chat_completion.py, text_embedding.py,
-- rerank.py, which are alike), and the texts of i18n.py under app/utils. The import of a provider's
-- module is a parameter. The children model the catalog of model schemas.
pub mod Registered
pub mod Texts
pub mod Catalog
pub mod Providers
mod Tests
use rtxag.Prelude.{
  String, Bool, true, false, Option, none, some, List, [], ◌∷◌, Dict, get, put, concat, nonempty,
  if◌then◌else◌,
}
use rtxag.Error.{Exception, Result, ok, err}

module _ {ℓ} {M : Type ℓ} (load_class : String → Result M) where
  abbrev stored : String → Dict M → Result M → Result M × Dict M
  stored id models (err e) = (err e, models)
  stored id models (ok m) = (ok m, put id m models)

  abbrev found_or : Option M → Dict M → Result M × Dict M → Result M × Dict M
  found_or none models created = created
  found_or (some m) models created = (ok m, models)

  -- `get_chat_completion_model`, with the registry before and after.
  unfoldable pub get_provider_model : String → Dict M → Result M × Dict M
  unfolding get put
  get_provider_model id models = found_or (get id models) models (stored id models (load_class id))

  -- `load_all_chat_completion_models`: exceptions are logged.
  unfoldable pub load_all_models : (String → Bool) → List String → Dict M → Dict M
  unfolding get_provider_model
  load_all_models has_module [] models = models
  load_all_models has_module (id ∷ ids) models =
      if has_module id
      then load_all_models has_module ids (get_provider_model id models).1
      else load_all_models has_module ids models

-- The key of a text.
abbrev pub i18n_key : String → String → String → String
i18n_key provider_id lang key = concat (provider_id ∷ ":" ∷ lang ∷ ":" ∷ key ∷ [])

-- `set_i18n`, over the items of the dictionary that is given.
unfoldable pub set_i18n : String → String → Dict String → Dict String → Dict String
unfolding put
set_i18n provider_id lang [] texts = texts
set_i18n provider_id lang ((key, value) ∷ rest) texts =
    set_i18n provider_id lang rest (put (i18n_key provider_id lang key) value texts)

abbrev pub text_or_empty : Option String → String
text_or_empty none = ""
text_or_empty (some s) = s

-- `a or b` of texts
abbrev pub or_text : String → String → String
or_text s t = if nonempty s then s else t

-- `get_i18n`, with the default language.
unfoldable pub get_i18n : String → Dict String → String → String → String → String
unfolding get
get_i18n default_lang texts provider_id lang key =
    or_text (text_or_empty (get (i18n_key provider_id lang key) texts))
      (text_or_empty (get (i18n_key provider_id default_lang key) texts))
