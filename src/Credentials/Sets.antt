-- ===== src/Credentials/Sets.antt =====
-- The search for further sets of credentials: when it ends, and what is then chosen.
use rtxag.Prelude.{
  ℕ, zero, suc, ◌+◌, String, ◌≡◌, refl, ◌⊎◌, inl, inr, Bool, true, false, none, some, List, [], ◌∷◌,
  concat, contains, Dict, get, arith, Bool-cases, All, eq_iff, ◌==◌,
}
use native.Mathlib.Nat.{add-zero}
use rtxag.Error.{
  Exception, Result, ok, err, raised, Kind, ◌>>=◌, http_error, request_validation_error,
}
use rtxag.Credentials.{
  Values, ProviderFields, Environment, suffix, is_present, item, load_field, load_set_from_input,
  load_str_env, load_set_from_env, more_sets, load_from, load_input, load_default, given_text, pick,
  assign_all,
}

Result-cases {ℓ} :
    {A : Type ℓ} (r : Result A) → ((a : A) × (r ≡ ok a)) ⊎ ((e : Exception) × (r ≡ err e))
Result-cases (ok a) = inl (a, refl)
Result-cases (err e) = inr (e, refl)

add_one_suc : (n k : ℕ) → n + 1 + k ≡ n + suc k
add_one_suc n k = omega arith

abbrev bad_env : String → Exception
bad_env name = http_error request_validation_error (concat ("Env " ∷ name ∷ " is not set" ∷ []))

-- A search that never meets a set that raises is never done, whatever the fuel.
endless :
    (load : ℕ → Result Values)
    → ((n : ℕ) → (vs : Values) × (load n ≡ ok vs))
    → (fuel count : ℕ) → more_sets load fuel count ≡ none
unfolding more_sets
endless load each zero count = refl
endless load each (suc fuel) count =
    let (vs, e) = each count in rw e (rw (endless load each fuel (count + 1)))

-- A search meets a set that raises within the fuel that leads to it.
ends :
    (load : ℕ → Result Values) (e : Exception) (steps count : ℕ)
    → load (count + steps) ≡ err e
    → (sets : List Values) × (more_sets load (suc steps) count ≡ some sets)
unfolding more_sets
ends load e zero count h = ([], rw (rw (add-zero count) at h))
ends load e (suc steps) count h =
    let (sets, rest) = ends load e steps (count + 1) (rw (add_one_suc count steps) h) in
    elim (Result-cases (load count)) [
      | inl (vs, o) ↦ (vs ∷ sets, rw o (rw rest))
      | inr (x, o) ↦ ([], rw o)
    ]

-- No field that a request may give is there, and none is required.
abbrev pub NothingGiven : ProviderFields → Dict String → Type 0
NothingGiven p credentials =
    All (λ f. (is_present (get f credentials) ≡ false) × (contains f p.required ≡ false)) p.allowed

nothing_loads :
    (required : List String) (credentials : Dict String) (suffixed : String) (fields : List String)
    → All (λ f. (is_present (get f credentials) ≡ false) × (contains f required ≡ false)) fields
    → load_set_from_input required credentials suffixed fields ≡ ok []
unfolding load_set_from_input
nothing_loads required credentials suffixed [] h = refl
nothing_loads required credentials suffixed (f ∷ fs) ((a, r), h) =
    rw (a, r) (nothing_loads required credentials suffixed fs h)

-- A request whose credentials hold no field of a provider that requires none is never answered:
-- the search for further sets goes on whatever the fuel.
pub load_input_endless :
    (str : ℕ → String) (p : ProviderFields) (credentials : Dict String) (fuel drawn : ℕ)
    (values : Values)
    → NothingGiven p credentials
    → load_input str p credentials fuel drawn values ≡ none
unfolding load_input
load_input_endless str p credentials fuel drawn values h =
    rw (nothing_loads p.required credentials "" p.allowed h) (
      rw (
        endless (λ n. load_set_from_input p.required credentials (suffix str n) p.allowed)
          (λ n. ([], nothing_loads p.required credentials (suffix str n) p.allowed h)) fuel 1))

-- An error in the later fields is an error of the set.
load_field_raises :
    (field : String) (b : Bool) (found : Result String) (r : Bool) (e : Exception)
    → (e' : Exception) × (load_field field b found r (err e) ≡ err e')
load_field_raises field true (ok v) r e = (e, refl)
load_field_raises field true (err x) r e = (x, refl)
load_field_raises field false found true e = (_, refl)
load_field_raises field false found false e = (e, refl)

missing_raises :
    (required : List String) (credentials : Dict String) (suffixed f : String)
    (fields : List String)
    → contains f fields ≡ true
    → is_present (get f credentials) ≡ true
    → get (concat (f ∷ suffixed ∷ [])) credentials ≡ none
    → (e : Exception) × (load_set_from_input required credentials suffixed fields ≡ err e)
unfolding load_set_from_input
missing_raises required credentials suffixed f [] c p m = cc c
missing_raises required credentials suffixed f (g ∷ fields) c p m = elim (Bool-cases (g == f)) [
  | inl same ↦
      let q = (eq_iff g f).0 same in
      (raised Kind.key_error (concat (f ∷ suffixed ∷ [])), rw q (rw (p, m)))
  | inr other ↦
      let (e, later) = missing_raises required credentials suffixed f fields (rw other at c) p m in
      rw later (
        load_field_raises g (is_present (get g credentials))
          (item (concat (g ∷ suffixed ∷ [])) credentials) (contains g required) e)
]

-- A first set that loads and a later set that raises give a result, within the fuel that leads there.
load_from_ends :
    (first : Result Values) (load : ℕ → Result Values) (n drawn : ℕ) (values : Values)
    (e : Exception)
    → load (1 + n) ≡ err e
    → (r : Result Values) × (load_from first load (suc n) drawn values ≡ some r)
unfolding load_from
load_from_ends (err x) load n drawn values e h = (err x, refl)
load_from_ends (ok vs) load n drawn values e h =
    let (sets, q) = ends load e n 1 h in (ok (assign_all values (pick vs sets drawn)), rw q)

-- The search ends where the request holds one of the allowed fields and, under some suffix, not
-- this field with the suffix: the number of the suffix is enough fuel.
pub load_input_ends :
    (str : ℕ → String) (p : ProviderFields) (credentials : Dict String) (drawn : ℕ)
    (values : Values) (f : String) (n : ℕ)
    → contains f p.allowed ≡ true
    → is_present (get f credentials) ≡ true
    → get (concat (f ∷ suffix str (1 + n) ∷ [])) credentials ≡ none
    → (r : Result Values) × (load_input str p credentials (suc n) drawn values ≡ some r)
unfolding load_input
load_input_ends str p credentials drawn values f n c h m =
    let (e, q) = missing_raises p.required credentials (suffix str (1 + n)) f p.allowed c h m in
    load_from_ends (load_set_from_input p.required credentials "" p.allowed)
      (λ k. load_set_from_input p.required credentials (suffix str k) p.allowed) n drawn values e q

pub bind_raises {ℓ κ} :
    {A : Type ℓ} {B : Type κ} (r : Result A) (f : A → Result B) (e : Exception)
    → ((a : A) → (e' : Exception) × (f a ≡ err e'))
    → (e' : Exception) × ((r >>= f) ≡ err e')
bind_raises (ok a) f e h = h a
bind_raises (err x) f e h = (x, refl)

unset_raises :
    (required : List String) (env : Environment) (suffixed f : String) (names : List String)
    → contains f names ≡ true
    → contains f required ≡ true
    → given_text (get (concat (f ∷ suffixed ∷ [])) env.environ) ≡ none
    → get (concat (f ∷ suffixed ∷ [])) env.defaults ≡ none
    → (e : Exception) × (load_set_from_env required env suffixed names ≡ err e)
unfolding load_set_from_env
unset_raises required env suffixed f [] c r m d = cc c
unset_raises required env suffixed f (g ∷ names) c r m d = elim (Bool-cases (g == f)) [
  | inl same ↦
      let q = (eq_iff g f).0 same in (bad_env (concat (f ∷ suffixed ∷ [])), rw q (rw (m, d, r)))
  | inr other ↦
      let (e, later) = unset_raises required env suffixed f names (rw other at c) r m d in
      bind_raises (load_str_env env (concat (g ∷ suffixed ∷ [])) (contains g required))
        (λ v. load_set_from_env required env suffixed names >>= λ vs. ok ((g, v) ∷ vs)) e
        (λ v. (e, rw later))
]

-- The search through the environment ends where a required name is missing under some suffix, in
-- the environment and among the defaults; the fuel needed is the number of that suffix.
pub load_default_ends :
    (str : ℕ → String) (p : ProviderFields) (env : Environment) (drawn : ℕ) (values : Values)
    (f : String) (n : ℕ)
    → contains f p.allowed ≡ true
    → contains f p.required ≡ true
    → given_text (get (concat (f ∷ suffix str (1 + n) ∷ [])) env.environ) ≡ none
    → get (concat (f ∷ suffix str (1 + n) ∷ [])) env.defaults ≡ none
    → (r : Result Values) × (load_default str p env (suc n) drawn values ≡ some r)
unfolding load_default
load_default_ends str p env drawn values f n c r m d =
    let (e, q) = unset_raises p.required env (suffix str (1 + n)) f p.allowed c r m d in
    load_from_ends (load_set_from_env p.required env "" p.allowed)
      (λ k. load_set_from_env p.required env (suffix str k) p.allowed) n drawn values e q
