-- ===== src/Prelude/Text.antt =====
-- Texts walked by their characters: the separators, prefixes and splits that the program uses.
use Prim.Native.Nat.{ℕ}
use Prim.Native.Char.{Char, code}
use Prim.Native.String as Text
use Prim.Native.String.{String}
use mathlib.Core.Path.{◌≡◌, refl, ap}
use mathlib.Core.Bool.{Bool, true, false, ◌||◌}
use mathlib.Core.Option.{Option, none, some}
use mathlib.Core.List.{List, [], ◌∷◌}
use native.Mathlib.Omega.{arith}
use rtxag.Prelude.Tests.{if◌then◌else◌, eqb, append}

-- Whether a character, given by its code, occurs.
unfoldable pub has_char : ℕ → String → Bool
has_char k Text.[] = false
has_char k (Text.◌∷◌ c s) = eqb (code c) k || has_char k s

abbrev pub extend : Char → Option (String × String) → Option (String × String)
extend c none = none
extend c (some (s, t)) = some (Text.◌∷◌ c s, t)

-- s.split(sep, 1) and s.partition(sep), for a separator of one character: what stands before its
-- first occurrence and what stands after, or none where it does not occur.
unfoldable pub break_at : ℕ → String → Option (String × String)
break_at k Text.[] = none
break_at k (Text.◌∷◌ c s) =
    let rest = extend c (break_at k s) in if eqb (code c) k then some ("", s) else rest

abbrev push_front : Char → List String → List String
push_front c [] = Text.◌∷◌ c "" ∷ []
push_front c (s ∷ ss) = Text.◌∷◌ c s ∷ ss

-- s.split(sep), for a separator of one character.
unfoldable pub split_on : ℕ → String → List String
split_on k Text.[] = "" ∷ []
split_on k (Text.◌∷◌ c s) =
    let parts = split_on k s in if eqb (code c) k then "" ∷ parts else push_front c parts

-- s.removeprefix(p), or none where `s` does not start with `p`.
unfoldable pub drop_prefix : String → String → Option String
drop_prefix Text.[] s = some s
drop_prefix (Text.◌∷◌ c p) Text.[] = none
drop_prefix (Text.◌∷◌ c p) (Text.◌∷◌ d s) =
    let rest = drop_prefix p s in if eqb (code c) (code d) then rest else none

abbrev pub is_some {ℓ} : {A : Type ℓ} → Option A → Bool
is_some none = false
is_some (some a) = true

-- `p in s`
unfoldable pub has_text : String → String → Bool
unfolding drop_prefix
has_text p Text.[] = is_some (drop_prefix p "")
has_text p (Text.◌∷◌ c s) = is_some (drop_prefix p (Text.◌∷◌ c s)) || has_text p s

pub break_at-append :
    (k : ℕ) (s : String) (c : Char) (t : String)
    → has_char k s ≡ false
    → code c ≡ k
    → break_at k (append s (Text.◌∷◌ c t)) ≡ some (s, t)
unfolding break_at has_char
break_at-append k Text.[] c t h e = ground arith
break_at-append k (Text.◌∷◌ d s) c t h e = ground (arith, break_at-append k s c t)

pub has_char-append :
    (k : ℕ) (s t : String) → has_char k (append s t) ≡ (has_char k s || has_char k t)
unfolding has_char
has_char-append k Text.[] t = refl
has_char-append k (Text.◌∷◌ c s) t = ground (arith, has_char-append k s t)

-- Splitting a line off.
pub split_on-append :
    (k : ℕ) (s : String) (c : Char) (t : String)
    → has_char k s ≡ false
    → code c ≡ k
    → split_on k (append s (Text.◌∷◌ c t)) ≡ s ∷ split_on k t
unfolding split_on has_char
split_on-append k Text.[] c t h e = ground arith
split_on-append k (Text.◌∷◌ d s) c t h e = ground (arith, split_on-append k s c t)

pub append-nil : (s : String) → append s "" ≡ s
append-nil Text.[] = refl
append-nil (Text.◌∷◌ c s) = ap (Text.◌∷◌ c) (append-nil s)
