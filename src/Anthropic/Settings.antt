-- ===== src/Anthropic/Settings.antt =====
-- What the settings of a request to Anthropic leave under a key of the payload.
use rtxag.Prelude.{
  ◌≡◌, refl, ◌∙◌, ◌==◌, String, Bool, true, false, Option, none, some, List, [], ◌∷◌, if◌then◌else◌,
  arith, eq_iff, contains, All, Bool-cases, inl, inr,
}
use rtxag.Json.{Json, Fields, lookup}
use rtxag.Config.{Configuration}
use rtxag.Config.Merge.{lookup-assign}
use rtxag.Payload.Entries.{or_earlier, configured}
use rtxag.Anthropic.Prepare.{add_settings, setting, stop_sequences}

abbrev pub reserved : List String
reserved = "messages" ∷ "model" ∷ "stream" ∷ "system" ∷ "tools" ∷ "stop_sequences" ∷ []

-- A name under which a configuration has a value, as all fields of its class.
abbrev pub IsSetting : String × Option Json → Type 0
IsSetting (key, value) = contains key reserved ≡ false

abbrev pub stop_if_any : (Json → String) → Option Json → Option Json
stop_if_any to_str none = none
stop_if_any to_str (some v) = some (stop_sequences to_str v)

lookup-setting :
    (to_str : Json → String) (k key : String) (v : Json) (d : Fields)
    → lookup k (setting to_str key v d) ≡ (
        if key == "stop"
        then (if "stop_sequences" == k then some (stop_sequences to_str v) else lookup k d)
        else if key == k
        then some v
        else lookup k d)
lookup-setting to_str k key v d =
    ground
      (arith, lookup-assign "stop_sequences" k (stop_sequences to_str v) d, lookup-assign key k v d)

pub no_stop :
    (to_str : Json → String) (cs : Configuration) (d : Fields)
    → lookup "stop" (add_settings to_str cs d) ≡ lookup "stop" d
unfolding add_settings
no_stop to_str [] d = refl
no_stop to_str ((key, none) ∷ cs) d = no_stop to_str cs d
no_stop to_str ((key, some v) ∷ cs) d =
    no_stop to_str cs (setting to_str key v d) ∙ lookup-setting to_str "stop" key v d ∙ ground arith

sequences_later :
    (to_str : Json → String) (o : Option Json) (v : Json) (earlier : Option Json)
    → or_earlier (stop_if_any to_str o) (some (stop_sequences to_str v))
      ≡ or_earlier (stop_if_any to_str (or_earlier o (some v))) earlier
sequences_later to_str none v earlier = refl
sequences_later to_str (some w) v earlier = refl

sequences_before :
    (to_str : Json → String) (o : Option Json) (earlier : Option Json)
    → or_earlier (stop_if_any to_str o) earlier
      ≡ or_earlier (stop_if_any to_str (or_earlier o none)) earlier
sequences_before to_str none earlier = refl
sequences_before to_str (some w) earlier = refl

not_sequences :
    (key : String) (v : Json) → IsSetting (key, some v) → key == "stop_sequences" ≡ false
not_sequences key v q = ground (arith, eq_iff key "stop_sequences", eq_iff "stop_sequences" key)

other_key : (key k : String) → key == "stop" ≡ true → "stop" == k ≡ false → key == k ≡ false
other_key key k e p = ground (arith, eq_iff key "stop", eq_iff key k, eq_iff "stop" k)

pub lookup-stop_sequences :
    (to_str : Json → String) (cs : Configuration) (d : Fields)
    → All IsSetting cs
    → lookup "stop_sequences" (add_settings to_str cs d)
      ≡ or_earlier (stop_if_any to_str (configured "stop" cs)) (lookup "stop_sequences" d)
unfolding add_settings configured
lookup-stop_sequences to_str [] d a = refl
lookup-stop_sequences to_str ((key, none) ∷ cs) d (q, a) = lookup-stop_sequences to_str cs d a
lookup-stop_sequences to_str ((key, some v) ∷ cs) d (q, a) =
    lookup-stop_sequences to_str cs (setting to_str key v d) a
    ∙ rw (lookup-setting to_str "stop_sequences" key v d) (elim (Bool-cases (key == "stop")) [
      | inl e ↦ rw e (sequences_later to_str (configured "stop" cs) v (lookup "stop_sequences" d))
      | inr e ↦
          rw (e, not_sequences key v q)
            (sequences_before to_str (configured "stop" cs) (lookup "stop_sequences" d))
    ])

later_or :
    (a : Option Json) (b : Bool) (v : Json) (c : Option Json)
    → or_earlier a (if b then some v else c)
      ≡ or_earlier (or_earlier a (if b then some v else none)) c
later_or none true v c = refl
later_or none false v c = refl
later_or (some w) b v c = refl

pub lookup-add_settings :
    (to_str : Json → String) (k : String) (cs : Configuration) (d : Fields)
    → "stop" == k ≡ false
    → "stop_sequences" == k ≡ false
    → lookup k (add_settings to_str cs d) ≡ or_earlier (configured k cs) (lookup k d)
unfolding add_settings configured
lookup-add_settings to_str k [] d p q = refl
lookup-add_settings to_str k ((key, none) ∷ cs) d p q = lookup-add_settings to_str k cs d p q
lookup-add_settings to_str k ((key, some v) ∷ cs) d p q =
    lookup-add_settings to_str k cs (setting to_str key v d) p q
    ∙ rw (lookup-setting to_str k key v d, q)
        (elim (Bool-cases (key == "stop")) [
          | inl e ↦ rw (e, other_key key k e p) (later_or (configured k cs) false v (lookup k d))
          | inr e ↦ rw e (later_or (configured k cs) (key == k) v (lookup k d))
        ])
