-- ===== src/Addresses/Joining.antt =====
-- An address of a server and a path are joined by one slash.
use Prim.Native.String as Text
use rtxag.Prelude.{String, code, ◌≡◌, refl, ap, Bool, false, some, append, eqb}
use rtxag.Error.{ok}
use rtxag.Addresses.{build_url, drop_slash, with_slash}

abbrev pub ends_slash : String → Bool
ends_slash Text.[] = false
ends_slash (Text.◌∷◌ c Text.[]) = eqb (code c) 47
ends_slash (Text.◌∷◌ c (Text.◌∷◌ d s)) = ends_slash (Text.◌∷◌ d s)

abbrev pub starts_slash : String → Bool
starts_slash Text.[] = false
starts_slash (Text.◌∷◌ c s) = eqb (code c) 47

drop_slash-plain : (s : String) → ends_slash s ≡ false → drop_slash s ≡ s
drop_slash-plain Text.[] h = refl
drop_slash-plain (Text.◌∷◌ c Text.[]) h = rw h refl
drop_slash-plain (Text.◌∷◌ c (Text.◌∷◌ d s)) h = ap (Text.◌∷◌ c) (drop_slash-plain (Text.◌∷◌ d s) h)

drop_slash-append : (s : String) → drop_slash (append s "/") ≡ s
drop_slash-append Text.[] = refl
drop_slash-append (Text.◌∷◌ c Text.[]) = refl
drop_slash-append (Text.◌∷◌ c (Text.◌∷◌ d s)) = ap (Text.◌∷◌ c) (drop_slash-append (Text.◌∷◌ d s))

with_slash-plain : (p : String) → starts_slash p ≡ false → with_slash p ≡ append "/" p
with_slash-plain Text.[] h = refl
with_slash-plain (Text.◌∷◌ c p) h = rw h refl

-- A base that does not end with a slash and a path that does not start with one are joined with one
-- slash between them, and the same URL is made where the base has a slash at its end, the path one
-- at its start, or both.
pub build_url_lem :
    (base path : String)
    → ends_slash base ≡ false
    → starts_slash path ≡ false
    → let url = ok (append base (append "/" path)) in
      (build_url (some base) path ≡ url)
      × (build_url (some (append base "/")) path ≡ url)
      × (build_url (some base) (append "/" path) ≡ url)
      × (build_url (some (append base "/")) (append "/" path) ≡ url)
unfolding build_url
build_url_lem base path h k = (
  rw (drop_slash-plain base h, with_slash-plain path k) refl,
  rw (drop_slash-append base, with_slash-plain path k) refl,
  rw (drop_slash-plain base h) refl,
  rw (drop_slash-append base) refl,
)
