-- ===== src/Cache/Texts.antt =====
-- The texts of different providers and languages do not mix.
use rtxag.Prelude.{
  String, ◌≡◌, ◌⊎◌, inl, inr, refl, sym, ap, ◌∙◌, false, some, [], ◌∷◌, Dict, get, put, get-put,
  append, concat, ◌==◌, eq_iff, arith, Bool-cases,
}
use rtxag.Prelude.Text.{has_char, break_at, break_at-append, append-nil}
use rtxag.Cache.{i18n_key, set_i18n, get_i18n}

abbrev pub NoColon : String → Type 0
NoColon s = has_char b':' s ≡ false

split_key :
    (p l k : String)
    → NoColon p
    → break_at b':' (i18n_key p l k) ≡ some (p, concat (l ∷ ":" ∷ k ∷ []))
split_key p l k h = break_at-append b':' p ":" (concat (l ∷ ":" ∷ k ∷ [])) h refl

split_rest :
    (l k : String) → NoColon l → break_at b':' (concat (l ∷ ":" ∷ k ∷ [])) ≡ some (l, append k "")
split_rest l k h = break_at-append b':' l ":" (append k "") h refl

-- A key tells the provider, the language and the name of the text.
key_injective :
    (p l k p' l' k' : String)
    → NoColon p
    → NoColon p'
    → NoColon l
    → NoColon l'
    → i18n_key p l k ≡ i18n_key p' l' k'
    → (p ≡ p') × (l ≡ l') × (k ≡ k')
key_injective p l k p' l' k' hp hp' hl hl' e =
    let q : some (p, concat (l ∷ ":" ∷ k ∷ [])) ≡ some (p', concat (l' ∷ ":" ∷ k' ∷ [])) =
      sym (split_key p l k hp) ∙ ap (break_at b':') e ∙ split_key p' l' k' hp' in
    let same : p ≡ p' = cc q in
    let rest : concat (l ∷ ":" ∷ k ∷ []) ≡ concat (l' ∷ ":" ∷ k' ∷ []) = cc q in
    let r : some (l, append k "") ≡ some (l', append k' "") =
      sym (split_rest l k hl) ∙ ap (break_at b':') rest ∙ split_rest l' k' hl' in
    let same' : l ≡ l' = cc r in
    let last : append k "" ≡ append k' "" = cc r in
    (same, same', sym (append-nil k) ∙ last ∙ append-nil k')

-- Setting the texts of a provider in a language does not change the text under any name of another
-- provider or language, if no identifier of a provider or a language contains a colon.
pub get-set_i18n_other :
    (p l p' l' k' : String) (d texts : Dict String)
    → NoColon p
    → NoColon p'
    → NoColon l
    → NoColon l'
    → (p == p') ≡ false ⊎ (l == l') ≡ false
    → get (i18n_key p' l' k') (set_i18n p l d texts) ≡ get (i18n_key p' l' k') texts
unfolding set_i18n
get-set_i18n_other p l p' l' k' [] texts hp hp' hl hl' n = refl
get-set_i18n_other p l p' l' k' ((key, v) ∷ rest) texts hp hp' hl hl' n =
    get-set_i18n_other p l p' l' k' rest (put (i18n_key p l key) v texts) hp hp' hl hl' n
    ∙ get-put (i18n_key p l key) (i18n_key p' l' k') v texts
    ∙ elim (Bool-cases (i18n_key p l key == i18n_key p' l' k')) [
      | inl e ↦
          let (same, same', _) =
            key_injective p l key p' l' k' hp hp' hl hl'
              ((eq_iff (i18n_key p l key) (i18n_key p' l' k')).0 e) in
          absurd (ground (arith, eq_iff p p', eq_iff l l'))
      | inr m ↦ rw m refl
    ]

-- Setting the texts of a provider does not change what is read for another provider, in any
-- language, if no identifier of a provider or a language contains a colon.
pub get_i18n-set_i18n :
    (default p l p' l' k' : String) (d texts : Dict String)
    → NoColon default
    → NoColon p
    → NoColon p'
    → NoColon l
    → NoColon l'
    → (p == p') ≡ false
    → get_i18n default (set_i18n p l d texts) p' l' k' ≡ get_i18n default texts p' l' k'
unfolding get_i18n
get_i18n-set_i18n default p l p' l' k' d texts hd hp hp' hl hl' n =
    rw (get-set_i18n_other p l p' l' k' d texts hp hp' hl hl' (inl n))
      (rw (get-set_i18n_other p l p' default k' d texts hp hp' hl hd (inl n)) refl)
