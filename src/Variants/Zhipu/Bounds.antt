-- ===== src/Variants/Zhipu/Bounds.antt =====
-- The bounds of the values that Zhipu takes.
use Prim.Native.Nat.{◌^◌}
use rtxag.Prelude.{
  ℕ, zero, suc, ◌*◌, ◌≤◌, ◌<◌, String, ◌≡◌, refl, true, false, inl, inr, Option, none, some, [],
  ◌∷◌, eqb, ◌==◌, ◌||◌, arith, eq_iff, Bool-cases, eqb_iff,
}
use rtxag.Json.{Json, Items, Fields, null, bool, str, arr, obj, int, float, lookup, assign}
use rtxag.Json.Int.{pos, negsuc}
use rtxag.Config.{Configuration}
use rtxag.Error.{ok, ok-bind, ok_injective}
use rtxag.Payload.{Prompt, add_configs, base_payload, add_tools, add_tool_choice, build_messages}
use rtxag.OpenAi.Entries.{lookup-add_tools, lookup-add_tool_choice}
use rtxag.Payload.Entries.{configured, lookup-add_configs, or_earlier}
use rtxag.Variants.Zhipu.{
  adjusted, add_zhipu_configs, zhipu_value, build_zhipu_payload, build_zhipu_message,
}

-- A number from 0 to 1, and one strictly between.
abbrev pub IsUnit : Json → Type 0
IsUnit (int (pos n)) = n ≤ 1
IsUnit (float (pos n) k) = n ≤ 10 ^ k
IsUnit _ = ⊥

abbrev pub IsBetween : Json → Type 0
IsBetween (float (pos n) k) = (0 < n) × (n < 10 ^ k)
IsBetween _ = ⊥

adjusted_int : (n : ℕ) → n ≤ 1 → IsBetween (adjusted (int (pos n)))
unfolding adjusted
adjusted_int zero h = (omega arith, omega arith)
adjusted_int (suc zero) h = (omega arith, omega arith)
adjusted_int (suc (suc n)) h = absurd (omega (arith, h))

adjusted_float : (n k : ℕ) → n ≤ 10 ^ k → IsBetween (adjusted (float (pos n) k))
unfolding adjusted
adjusted_float n k h = elim (Bool-cases (eqb n (1 * 10 ^ k))) [
  | inl q ↦ rw q (omega arith, omega arith)
  | inr q ↦ elim (Bool-cases (eqb n (0 * 10 ^ k))) [
    | inl z ↦ rw (q, z) (omega arith, omega arith)
    | inr z ↦
        rw (q, z)
          (ground (arith, eqb_iff n (0 * 10 ^ k)), ground (arith, h, eqb_iff n (1 * 10 ^ k)))
  ]
]

adjusted-IsBetween : (v : Json) → IsUnit v → IsBetween (adjusted v)
adjusted-IsBetween (int (pos n)) h = adjusted_int n h
adjusted-IsBetween (float (pos n) k) h = adjusted_float n k h
adjusted-IsBetween null h = elim h [ ]
adjusted-IsBetween (bool b) h = elim h [ ]
adjusted-IsBetween (int (negsuc n)) h = elim h [ ]
adjusted-IsBetween (float (negsuc n) k) h = elim h [ ]
adjusted-IsBetween (str s) h = elim h [ ]
adjusted-IsBetween (arr vs) h = elim h [ ]
adjusted-IsBetween (obj fs) h = elim h [ ]

-- The configuration with its adjusted values.
abbrev adjust_all : Configuration → Configuration
adjust_all [] = []
adjust_all ((key, none) ∷ cs) = (key, none) ∷ adjust_all cs
adjust_all ((key, some v) ∷ cs) = (key, some (zhipu_value key v)) ∷ adjust_all cs

add_zhipu_configs_lem :
    (cs : Configuration) (d : Fields) → add_zhipu_configs cs d ≡ add_configs (adjust_all cs) d
unfolding add_zhipu_configs add_configs
add_zhipu_configs_lem [] d = refl
add_zhipu_configs_lem ((key, none) ∷ cs) d = add_zhipu_configs_lem cs d
add_zhipu_configs_lem ((key, some v) ∷ cs) d =
    add_zhipu_configs_lem cs (assign key (zhipu_value key v) d)

abbrev value_if_any : String → Option Json → Option Json
value_if_any k none = none
value_if_any k (some v) = some (zhipu_value k v)

set_later :
    (k : String) (o : Option Json) (v : Json)
    → or_earlier (value_if_any k o) (some (zhipu_value k v))
      ≡ value_if_any k (or_earlier o (some v))
set_later k none v = refl
set_later k (some w) v = refl

kept :
    (k : String) (o : Option Json)
    → or_earlier (value_if_any k o) none ≡ value_if_any k (or_earlier o none)
kept k none = refl
kept k (some w) = refl

configured-adjust_all :
    (k : String) (cs : Configuration)
    → configured k (adjust_all cs) ≡ value_if_any k (configured k cs)
unfolding configured
configured-adjust_all k [] = refl
configured-adjust_all k ((j, none) ∷ cs) = configured-adjust_all k cs
configured-adjust_all k ((j, some v) ∷ cs) = elim (Bool-cases (j == k)) [
  | inl e ↦ rw (e, (eq_iff j k).0 e, configured-adjust_all k cs) (set_later k (configured k cs) v)
  | inr n ↦ rw (n, configured-adjust_all k cs) (kept k (configured k cs))
]

other_names :
    (k : String)
    → (k == "temperature" || k == "top_p") ≡ true
    → ("tools" == k ≡ false) × ("tool_choice" == k ≡ false)
other_names k t = elim (Bool-cases (k == "temperature")) [
  | inl q ↦ rw ((eq_iff k "temperature").0 q) (refl, refl)
  | inr q ↦ rw ((eq_iff k "top_p").0 (rw q at t)) (refl, refl)
]

sent_value :
    (p : Prompt) (ms : Items) (k : String) (v : Json)
    → (k == "temperature" || k == "top_p") ≡ true
    → configured k p.configs ≡ some v
    → lookup k (
        add_tools p.functions
          (add_tool_choice p.function_call (add_zhipu_configs p.configs (base_payload ms p))))
      ≡ some (adjusted v)
sent_value p ms k v t c =
    let (a, b) = other_names k t in
    rw
      (
        lookup-add_tools k p.functions,
        a,
        lookup-add_tool_choice k p.function_call,
        b,
        add_zhipu_configs_lem p.configs (base_payload ms p),
        lookup-add_configs k (adjust_all p.configs),
        configured-adjust_all k p.configs,
        c,
        t,
      )
      refl

-- A temperature or a top_p from 0 to 1 is sent to Zhipu as a number strictly between 0 and 1.
pub build_zhipu_payload-IsBetween :
    (dumps : Fields → String) (encode : String → String → String) (p : Prompt) (d : Fields)
    (k : String) (v : Json)
    → (k == "temperature" || k == "top_p") ≡ true
    → configured k p.configs ≡ some v
    → IsUnit v
    → build_zhipu_payload dumps encode p ≡ ok d
    → (w : Json) × (lookup k d ≡ some w) × IsBetween w
unfolding build_zhipu_payload
build_zhipu_payload-IsBetween dumps encode p d k v t c u h =
    let (ms, q, e) = ok-bind _ (build_messages (build_zhipu_message dumps encode) p.messages) h in
    (adjusted v, rw (← ok_injective _ d e) (sent_value p ms k v t c), adjusted-IsBetween v u)
