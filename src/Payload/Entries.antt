-- ===== src/Payload/Entries.antt =====
-- What stands under a key of a payload after the steps that build it.
use rtxag.Prelude.{◌≡◌, refl, ◌==◌, String, Option, none, some, [], ◌∷◌, if◌then◌else◌, arith}
use rtxag.Json.{Json, Fields, lookup, assign}
use rtxag.Config.{Configuration}
use rtxag.Config.Merge.{lookup-assign}
use rtxag.Payload.{add_configs}

abbrev pub or_earlier : Option Json → Option Json → Option Json
or_earlier none earlier = earlier
or_earlier (some v) earlier = some v

-- The value that the configuration sets under a key.
unfoldable pub configured : String → Configuration → Option Json
configured k [] = none
configured k ((j, none) ∷ cs) = configured k cs
configured k ((j, some v) ∷ cs) =
    let later = configured k cs in or_earlier later (if j == k then some v else none)

swap_earlier : (a b c : Option Json) → or_earlier a (or_earlier b c) ≡ or_earlier (or_earlier a b) c
swap_earlier none b c = refl
swap_earlier (some v) b c = refl

as_earlier :
    (k j : String) (v : Json) (o : Option Json)
    → (if j == k then some v else o) ≡ or_earlier (if j == k then some v else none) o
as_earlier k j v o = ground arith

pub lookup-add_configs :
    (k : String) (cs : Configuration) (fs : Fields)
    → lookup k (add_configs cs fs) ≡ or_earlier (configured k cs) (lookup k fs)
unfolding add_configs configured
lookup-add_configs k [] fs = refl
lookup-add_configs k ((j, none) ∷ cs) fs = lookup-add_configs k cs fs
lookup-add_configs k ((j, some v) ∷ cs) fs =
    rw
      (
        lookup-add_configs k cs (assign j v fs),
        lookup-assign j k v fs,
        as_earlier k j v (lookup k fs),
        swap_earlier (configured k cs) (if j == k then some v else none) (lookup k fs),
      )
      refl
