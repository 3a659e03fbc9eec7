-- ===== src/Addresses/Images.antt =====
-- An image URL that passes the check can be split.
use Prim.Native.String as Text
use text.Mathlib.TextEquality.{Char-path}
use mathlib.Core.Path.{subst}
use rtxag.Prelude.{
  String, Char, code, ◌≡◌, refl, ap, inl, inr, Bool, true, false, ◌&&◌, ◌||◌, none, some, List, [],
  ◌∷◌, append, contains, arith, eqb, Bool-cases, eqb_iff, Option-cases,
}
use rtxag.Prelude.Text.{drop_prefix, has_char}
use rtxag.Error.{ok}
use rtxag.Addresses.{
  is_valid_data_uri, base64_body, split_url, break_text, base64_char, full_group, last_group,
  at_end, is_equals, if_last, uri_prefix, with_format,
}

and_true : (x y : Bool) → (x && y) ≡ true → (x ≡ true) × (y ≡ true)
and_true true y h = (refl, h)
and_true false y h = cc

or_false : (x y : Bool) → x ≡ false → y ≡ false → (x || y) ≡ false
or_false x y p q = rw (p, q) refl

plain_char : (c : Char) → base64_char c ≡ true → eqb (code c) 59 ≡ false
plain_char c h = ground arith

equals_char : (c : Char) → is_equals c ≡ true → eqb (code c) 59 ≡ false
equals_char c h = ground arith

either_char : (c : Char) → (is_equals c || base64_char c) ≡ true → eqb (code c) 59 ≡ false
either_char c h = elim (Bool-cases (is_equals c)) [
  | inl q ↦ equals_char c q
  | inr q ↦ plain_char c (rw q at h)
]

end_plain : (s : String) → at_end s ≡ true → has_char 59 s ≡ false
unfolding has_char
end_plain Text.[] h = refl
end_plain (Text.◌∷◌ c Text.[]) h = ground arith
end_plain (Text.◌∷◌ c (Text.◌∷◌ d s)) h = cc

four_plain :
    (a b c d : Char) (s : String)
    → eqb (code a) 59 ≡ false
    → eqb (code b) 59 ≡ false
    → eqb (code c) 59 ≡ false
    → eqb (code d) 59 ≡ false
    → has_char 59 s ≡ false
    → has_char 59 (Text.◌∷◌ a (Text.◌∷◌ b (Text.◌∷◌ c (Text.◌∷◌ d s)))) ≡ false
unfolding has_char
four_plain a b c d s p q r t h = rw (p, q, r, t) h

no_semicolon : (s : String) → base64_body s ≡ true → has_char 59 s ≡ false
unfolding base64_body
no_semicolon Text.[] h = end_plain "" refl
no_semicolon (Text.◌∷◌ a Text.[]) h = end_plain (Text.◌∷◌ a "") h
no_semicolon (Text.◌∷◌ a (Text.◌∷◌ b Text.[])) h = cc
no_semicolon (Text.◌∷◌ a (Text.◌∷◌ b (Text.◌∷◌ c Text.[]))) h = cc
no_semicolon (Text.◌∷◌ a (Text.◌∷◌ b (Text.◌∷◌ c (Text.◌∷◌ d s)))) h =
    elim (Bool-cases (full_group a b c d)) [
      | inl q ↦
          let (q1, p4) =
            and_true (base64_char a && base64_char b && base64_char c) (base64_char d) q in
          let (q2, p3) = and_true (base64_char a && base64_char b) (base64_char c) q1 in
          let (p1, p2) = and_true (base64_char a) (base64_char b) q2 in
          four_plain a b c d s (plain_char a p1) (plain_char b p2) (plain_char c p3)
            (plain_char d p4) (no_semicolon s (rw q at h))
      | inr q ↦
          let (g, e) = and_true (last_group a b c d) (at_end s) (rw q at h) in
          let (q1, p3) =
            and_true (base64_char a && base64_char b && is_equals d) (is_equals c || base64_char c)
              g in
          let (q2, p4) = and_true (base64_char a && base64_char b) (is_equals d) q1 in
          let (p1, p2) = and_true (base64_char a) (base64_char b) q2 in
          four_plain a b c d s (plain_char a p1) (plain_char b p2) (either_char c p3)
            (equals_char d p4) (end_plain s e)
    ]

no_break : (s : String) → has_char 59 s ≡ false → break_text ";base64," s ≡ none
unfolding has_char break_text drop_prefix
no_break Text.[] h = refl
no_break (Text.◌∷◌ c s) h = ground (arith, no_break s)

append-drop_prefix : (p s t : String) → drop_prefix p s ≡ some t → append p t ≡ s
unfolding drop_prefix
append-drop_prefix Text.[] s t h = cc
append-drop_prefix (Text.◌∷◌ c p) Text.[] t h = cc
append-drop_prefix (Text.◌∷◌ c p) (Text.◌∷◌ d s) t h = elim (Bool-cases (eqb (code c) (code d))) [
  | inl q ↦
      rw (Char-path c d ((eqb_iff (code c) (code d)).0 q), append-drop_prefix p s t (rw q at h))
        refl
  | inr q ↦ cc
]

abbrev formats : List String
formats = "jpg" ∷ "png" ∷ "jpeg" ∷ []

abbrev pub image_uri : String → String → String
image_uri format body = append (uri_prefix format) body

-- A text that is an image in base64: its format and its data.
abbrev pub IsImage : String → String → String → Type 0
IsImage url format body =
    (contains format formats ≡ true)
    × (image_uri format body ≡ url)
    × (base64_body body ≡ true)
    × (split_url url ≡ ok (format, body))

split_formats :
    (body : String)
    → base64_body body ≡ true
    → (split_url (image_uri "jpg" body) ≡ ok ("jpg", body))
      × (split_url (image_uri "png" body) ≡ ok ("png", body))
      × (split_url (image_uri "jpeg" body) ≡ ok ("jpeg", body))
unfolding split_url break_text drop_prefix
split_formats body h =
    let none_left = no_break body (no_semicolon body h) in
    (
      ap (if_last "jpg" body) none_left,
      ap (if_last "png" body) none_left,
      ap (if_last "jpeg" body) none_left,
    )

has_format :
    (format url : String)
    → with_format format url ≡ true
    → (body : String) × (base64_body body ≡ true) × (image_uri format body ≡ url)
has_format format url h = elim (Option-cases (drop_prefix (uri_prefix format) url)) [
  | inl q ↦ cc
  | inr (body, q) ↦ (body, rw q at h, append-drop_prefix (uri_prefix format) url body q)
]

packed :
    (format url body : String)
    → contains format formats ≡ true
    → (base64_body body ≡ true) × (image_uri format body ≡ url)
    → split_url (image_uri format body) ≡ ok (format, body)
    → (f : String) × (b : String) × IsImage url f b
packed format url body c (b, e) h =
    (format, body, (c, e, b, subst (λ x. split_url x ≡ ok (format, body)) e h))

-- An image URL that passes the check names one of the three formats, and splitting it gives back
-- this format and its data, in base64.
pub is_valid_data_uri-IsImage :
    (url : String)
    → is_valid_data_uri url ≡ true
    → (format : String) × (body : String) × IsImage url format body
unfolding is_valid_data_uri
is_valid_data_uri-IsImage url h = elim (Bool-cases (with_format "jpg" url)) [
  | inl q ↦
      let (body, b, e) = has_format "jpg" url q in
      packed "jpg" url body refl (b, e) (split_formats body b).0
  | inr q ↦ elim (Bool-cases (with_format "png" url)) [
    | inl q' ↦
        let (body, b, e) = has_format "png" url q' in
        packed "png" url body refl (b, e) (split_formats body b).1
    | inr q' ↦
        let (body, b, e) = has_format "jpeg" url (rw (q, q') at h) in
        packed "jpeg" url body refl (b, e) (split_formats body b).2
  ]
]
