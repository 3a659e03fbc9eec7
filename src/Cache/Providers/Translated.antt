-- ===== src/Cache/Providers/Translated.antt =====
-- When the catalog of providers is loaded, no text is missing that a provider or one of its models names.
use rtxag.Prelude.{
  String, ◌≡◌, refl, sym, ap, ◌∙◌, ◌⊎◌, inl, inr, Bool, true, false, Option, none, some, List, [],
  ◌∷◌, ◌++◌, Dict, get, put, get-put, get-put_self, All, keep, ◌==◌, eq_iff, arith, Bool-cases,
  if◌then◌else◌,
}
use rtxag.Error.{Result, ok, ok-bind, ok_injective}
use rtxag.Json.{Json}
use rtxag.Addresses.{drop_chars}
use rtxag.Cache.{set_i18n, i18n_key}
use rtxag.Cache.Providers.{
  Provider, Row, LanguageFile, bad_language, language, empty_file, bad_yaml, provider_file,
  ProviderFile, Folder, build, load_file, Loaded, check_keys, load_languages, load_folder,
  load_folders, load_provider_data, is_chosen, present_or, missing, if_parsed,
}

-- A key has a text.
abbrev pub HasText : String → Dict String → Type 0
HasText k d = (v : String) × (get k d ≡ some v)

put-HasText : (k j v : String) (d : Dict String) → HasText k d → HasText k (put j v d)
put-HasText k j v d (w, h) = elim (Bool-cases (j == k)) [
  | inl t ↦ (v, get-put j k v d ∙ ap (λ b. if b then some v else get k d) t)
  | inr f ↦ (w, get-put j k v d ∙ ap (λ b. if b then some v else get k d) f ∙ h)
]

set_i18n-HasText :
    (p l k : String) (d texts : Dict String) → HasText k texts → HasText k (set_i18n p l d texts)
unfolding set_i18n
set_i18n-HasText p l k [] texts h = h
set_i18n-HasText p l k ((j, v) ∷ d) texts h =
    set_i18n-HasText p l k d (put (i18n_key p l j) v texts)
      (put-HasText k (i18n_key p l j) v texts h)

-- Every text of the dictionary that is set is there.
set_i18n-given :
    (p l k : String) (d texts : Dict String)
    → HasText k d
    → HasText (i18n_key p l k) (set_i18n p l d texts)
unfolding set_i18n get
set_i18n-given p l k [] texts (w, h) = cc h
set_i18n-given p l k ((j, v) ∷ d) texts (w, h) =
    let texts' = put (i18n_key p l j) v texts in
    elim (Bool-cases (j == k)) [
      | inl t ↦
          let same : j ≡ k = ground (arith, eq_iff j k, t) in
          set_i18n-HasText p l (i18n_key p l k) d texts' (
            v,
            ap (λ i. get (i18n_key p l i) texts') (sym same)
                ∙ get-put_self (i18n_key p l j) v texts,
          )
      | inr f ↦
          set_i18n-given p l k d texts' (w, sym (ap (λ b. if b then some v else get k d) f) ∙ h)
    ]

-- The keys, without their prefix, have a text in a language of a provider.
abbrev pub HasTexts : String → String → List String → Dict String → Type 0
HasTexts id lang keys texts = All (λ key. HasText (i18n_key id lang (drop_chars 5 key)) texts) keys

-- This holds in every language, up to a file that is no YAML.
abbrev pub InLanguages : String → List String → Dict String → List LanguageFile → Type 0
InLanguages id keys texts [] = Unit
InLanguages id keys texts (bad_language ∷ ls) = Unit
InLanguages id keys texts (language lang d ∷ ls) =
    HasTexts id lang keys texts × InLanguages id keys texts ls

abbrev FileTranslated : Dict String → ProviderFile → Folder → Type 0
FileTranslated texts (provider_file keys row) f =
    InLanguages f.provider_id (keys ++ f.model_keys) texts f.languages
FileTranslated texts _ f = Unit

-- The keys that the files of a provider name.
abbrev pub IsTranslated : Dict String → Folder → Type 0
IsTranslated texts f = FileTranslated texts f.file f

-- No text is lost.
abbrev Grows : Dict String → Dict String → Type 0
Grows texts texts' = (k : String) → HasText k texts → HasText k texts'

present_given :
    (o : Option String) (error : Result (Unit {0})) (u : Unit {0})
    → present_or o error ≡ ok u
    → error ≡ ok u ⊎ ((v : String) × (o ≡ some v))
present_given none error u h = inl h
present_given (some v) error u h = inr (v, refl)

check_keys-HasTexts :
    (id lang : String) (keys : List String) (d texts : Dict String) (u : Unit {0})
    → check_keys id lang keys d ≡ ok u
    → HasTexts id lang keys (set_i18n id lang d texts)
unfolding check_keys
check_keys-HasTexts id lang [] d texts u h = tt
check_keys-HasTexts id lang (key ∷ keys) d texts u h =
    let k = drop_chars 5 key in
    let (w, p, h₁) = ok-bind _ (present_or (get k d) (missing id k lang)) h in
    (
      elim (present_given (get k d) (missing id k lang) w p) [
        | inl e ↦ cc e
        | inr s ↦ set_i18n-given id lang k d texts s
      ],
      check_keys-HasTexts id lang keys d texts u h₁,
    )

grown :
    (id lang : String) (keys : List String) (texts texts' : Dict String)
    → Grows texts texts'
    → HasTexts id lang keys texts
    → HasTexts id lang keys texts'
grown id lang [] texts texts' g h = tt
grown id lang (key ∷ keys) texts texts' g (s, h) =
    (g (i18n_key id lang (drop_chars 5 key)) s, grown id lang keys texts texts' g h)

load_languages_lem :
    (id : String) (keys : List String) (ls : List LanguageFile) (texts : Dict String) (b : Bool)
    (texts' : Dict String)
    → load_languages id keys ls texts ≡ ok (b, texts')
    → Grows texts texts' × InLanguages id keys texts' ls
unfolding load_languages
load_languages_lem id keys [] texts b texts' h =
    let e : texts ≡ texts' = cc h in ((λ k s. rw (← e) s), tt)
load_languages_lem id keys (bad_language ∷ ls) texts b texts' h =
    let e : texts ≡ texts' = cc h in ((λ k s. rw (← e) s), tt)
load_languages_lem id keys (language lang d ∷ ls) texts b texts' h =
    let (u, c, h₁) = ok-bind _ (check_keys id lang keys d) h in
    let (g, rest) = load_languages_lem id keys ls (set_i18n id lang d texts) b texts' h₁ in
    (
      (λ k s. g k (set_i18n-HasText id lang k d texts s)),
      (
        grown id lang keys (set_i18n id lang d texts) texts' g
            (check_keys-HasTexts id lang keys d texts u c),
        rest,
      ),
    )

languages_grown :
    (id : String) (keys : List String) (ls : List LanguageFile) (texts texts' : Dict String)
    → Grows texts texts'
    → InLanguages id keys texts ls
    → InLanguages id keys texts' ls
languages_grown id keys [] texts texts' g h = tt
languages_grown id keys (bad_language ∷ ls) texts texts' g h = tt
languages_grown id keys (language lang d ∷ ls) texts texts' g (h, hs) =
    (grown id lang keys texts texts' g h, languages_grown id keys ls texts texts' g hs)

file_grown :
    (file : ProviderFile) (f : Folder) (texts texts' : Dict String)
    → Grows texts texts'
    → FileTranslated texts file f
    → FileTranslated texts' file f
file_grown empty_file f texts texts' g h = tt
file_grown bad_yaml f texts texts' g h = tt
file_grown (provider_file keys row) f texts texts' g h =
    languages_grown f.provider_id (keys ++ f.model_keys) f.languages texts texts' g h

module _ (convert : Row → Result Provider) (shown : Json → String) where
  parsed_texts :
      (id : String) (row : Json) (l l' : Loaded) (b : Bool) (texts : Dict String)
      → if_parsed convert shown id row l (b, texts) ≡ ok l'
      → texts ≡ l'.texts
  parsed_texts id row l l' false texts h = ap (λ x. x.texts) (ok_injective _ l' h)
  parsed_texts id row l l' true texts h =
      let (p, _, h₁) = ok-bind _ (build convert shown row) h in
      ap (λ x. x.texts) (ok_injective _ l' h₁)

  load_file_lem :
      (file : ProviderFile) (f : Folder) (l l' : Loaded)
      → load_file convert shown file f l ≡ ok l'
      → Grows l.texts l'.texts × FileTranslated l'.texts file f
  load_file_lem empty_file f l l' h = let e : l ≡ l' = cc h in ((λ k s. rw (← e) s), tt)
  load_file_lem bad_yaml f l l' h = let e : l ≡ l' = cc h in ((λ k s. rw (← e) s), tt)
  load_file_lem (provider_file keys row) f l l' h =
      let all = keys ++ f.model_keys in
      let ((b, texts), q, h₁) =
        ok-bind _ (load_languages f.provider_id all f.languages l.texts) h in
      let (g, t) = load_languages_lem f.provider_id all f.languages l.texts b texts q in
      rw (← parsed_texts f.provider_id row l l' b texts h₁) (g, t)

  load_folders_lem :
      (fs : List Folder) (l l' : Loaded)
      → load_folders convert shown fs l ≡ ok l'
      → Grows l.texts l'.texts × All (IsTranslated l'.texts) fs
  unfolding load_folders load_folder
  load_folders_lem [] l l' h = let e : l ≡ l' = cc h in ((λ k s. rw (← e) s), tt)
  load_folders_lem (f ∷ fs) l l' h =
      let (m, q, h₁) = ok-bind _ (load_file convert shown f.file f l) h in
      let (g, t) = load_file_lem f.file f l m q in
      let (g', ts) = load_folders_lem fs m l' h₁ in
      ((λ k s. g' k (g k s)), (file_grown f.file f m.texts l'.texts g' t, ts))

  -- When the catalog is loaded, every folder that was chosen has all its texts: each key that its
  -- provider or one of its models names is set in each of its languages, up to a file that is no
  -- YAML, and no text that was set before is lost.
  pub load_provider_data-IsTranslated :
      (allowed : List String) (prod : Bool) (folders : List Folder) (before l : Loaded)
      → load_provider_data convert shown allowed prod folders before ≡ ok l
      → All (IsTranslated l.texts) (keep (is_chosen allowed prod) folders)
        × ((k : String) → HasText k before.texts → HasText k l.texts)
  unfolding load_provider_data
  load_provider_data-IsTranslated allowed prod folders before l h =
      let chosen = keep (is_chosen allowed prod) folders in
      let (m, q, h₁) = ok-bind _ (load_folders convert shown chosen before) h in
      let same : m.texts ≡ l.texts = ap (λ x. x.texts) (ok_injective _ l h₁) in
      let (g, ts) = load_folders_lem chosen before m q in rw (← same) (ts, g)
