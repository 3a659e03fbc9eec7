-- ===== src/Credentials/Plain.antt =====
-- A suite to try the program with: a cipher that does nothing, and for base64 an escape of the comma.
use Prim.Native.String as Text
use text.Mathlib.TextEquality.{Char-path}
use rtxag.Prelude.{
  String, Char, code, ◌≡◌, refl, ap, ◌∙◌, inl, inr, false, eqb, Bool-cases, if◌then◌else◌, arith,
}
use rtxag.Prelude.Text.{has_char}
use rtxag.Error.{ok}
use rtxag.Credentials.{CipherSuite}
use rtxag.Credentials.Cipher.{IsSound}

pub escape : String → String
escape Text.[] = Text.[]
escape (Text.◌∷◌ c s) =
    let rest = escape s in
    if eqb (code c) b','
    then Text.◌∷◌ "~" (Text.◌∷◌ "1" rest)
    else if eqb (code c) b'~'
    then Text.◌∷◌ "~" (Text.◌∷◌ "0" rest)
    else Text.◌∷◌ c rest

abbrev escaped : Char → Char
escaped d = if eqb (code d) b'1' then "," else "~"

pub unescape : String → String
unescape Text.[] = Text.[]
unescape (Text.◌∷◌ c Text.[]) = Text.◌∷◌ c Text.[]
unescape (Text.◌∷◌ c (Text.◌∷◌ d s)) =
    let skipped = Text.◌∷◌ (escaped d) (unescape s) in
    let plain = Text.◌∷◌ c (unescape (Text.◌∷◌ d s)) in if eqb (code c) b'~' then skipped else plain

unescape_plain :
    (c : Char) (s : String)
    → eqb (code c) b'~' ≡ false
    → unescape (Text.◌∷◌ c s) ≡ Text.◌∷◌ c (unescape s)
unfolding unescape
unescape_plain c Text.[] h = refl
unescape_plain c (Text.◌∷◌ d s) h = rw h

unescape_pair :
    (d : Char) (s : String)
    → unescape (Text.◌∷◌ "~" (Text.◌∷◌ d s)) ≡ Text.◌∷◌ (escaped d) (unescape s)
unfolding unescape
unescape_pair d s = refl

unescape_nil : unescape Text.[] ≡ Text.[]
unfolding unescape
unescape_nil = refl

unescape-escape : (s : String) → unescape (escape s) ≡ s
unfolding escape
unescape-escape Text.[] = unescape_nil
unescape-escape (Text.◌∷◌ c s) = elim (Bool-cases (eqb (code c) b',')) [
  | inl e ↦ rw e (
      unescape_pair "1" (escape s)
      ∙ ap (Text.◌∷◌ ",") (unescape-escape s)
      ∙ ap (λ d. Text.◌∷◌ d s) (Char-path "," c (ground arith)))
  | inr n ↦ elim (Bool-cases (eqb (code c) b'~')) [
    | inl e ↦
        rw (n, e)
          (unescape_pair "0" (escape s)
            ∙ ap (Text.◌∷◌ "~") (unescape-escape s)
            ∙ ap (λ d. Text.◌∷◌ d s) (Char-path "~" c (ground arith)))
    | inr m ↦ rw (n, m) (unescape_plain c (escape s) m ∙ ap (Text.◌∷◌ c) (unescape-escape s))
  ]
]

escape_no_comma : (s : String) → has_char b',' (escape s) ≡ false
unfolding escape has_char
escape_no_comma Text.[] = refl
escape_no_comma (Text.◌∷◌ c s) = ground (arith, escape_no_comma s)

abbrev pub plain_suite : CipherSuite
plain_suite = record {
  Bytes = String;
  cbc_encrypt = λ iv s. s;
  cbc_decrypt = λ iv s. ok s;
  b64encode = escape;
  b64decode = λ s. ok (unescape s);
}

pub plain_suite-IsSound : IsSound plain_suite
plain_suite-IsSound = record {
  cbc = λ iv s. refl;
  b64 = λ b. ap ok (unescape-escape b);
  no_comma = escape_no_comma;
}
