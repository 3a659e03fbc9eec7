-- ===== src/FunctionCall/Selection.antt =====
-- What the validators of function calls return.
use rtxag.Prelude.{
  String, ◌≡◌, ◌≢◌, ◌↔◌, refl, sym, ap, inl, inr, Bool, true, false, Option, none, some, List, [],
  ◌∷◌, ◌==◌, eq_iff, any, keep, All, is_empty, Bool-cases, if◌then◌else◌, arith,
}
use rtxag.Error.{Result, ok, err}
use rtxag.Json.{Fields, lookup}
use rtxag.FunctionCall.{
  Choice, has_name, has_functions, validate_choice, choose_named, ParametersData, check_required,
  validate_required, function_call_is_function_name, is_some, required_or_empty,
}

module _ {ℓ} {A : Type ℓ} (p : A → Bool) where
  keep-keep : (xs : List A) → keep p (keep p xs) ≡ keep p xs
  keep-keep [] = refl
  keep-keep (x ∷ xs) = elim (Bool-cases (p x)) [
    | inl h ↦ rw h (rw h (ap (λ l. x ∷ l) (keep-keep xs)))
    | inr h ↦ rw h (keep-keep xs)
  ]

  any-keep : (xs : List A) → any p (keep p xs) ≡ any p xs
  any-keep [] = refl
  any-keep (x ∷ xs) = elim (Bool-cases (p x)) [ inl h ↦ rw h (rw h) | inr h ↦ rw h (any-keep xs) ]

  keep-All : (xs : List A) → All (λ x. p x ≡ true) (keep p xs)
  keep-All [] = tt
  keep-All (x ∷ xs) = elim (Bool-cases (p x)) [
    | inl h ↦ rw h (h, keep-All xs)
    | inr h ↦ rw h (keep-All xs)
  ]

  keep-nonempty : (xs : List A) → any p xs ≡ true → is_empty (keep p xs) ≡ false
  keep-nonempty [] h = cc
  keep-nonempty (x ∷ xs) h = elim (Bool-cases (p x)) [
    | inl k ↦ rw k
    | inr k ↦ rw k (keep-nonempty xs (rw k at h))
  ]

-- What the two fields of a validated request say together.
abbrev pub Coherent : Option String → Option (List Fields) → Type 0
Coherent none fs = Unit
Coherent (some s) none = (function_call_is_function_name (some s) ≡ false) × (s ≢ "auto")
Coherent (some s) (some fs) =
    (s ≡ "none" → is_empty fs ≡ true)
    × (function_call_is_function_name (some s) ≡ true
        → (is_empty fs ≡ false) × All (λ f. has_name s f ≡ true) fs)

-- A result that is coherent, and that a second validation leaves alone.
abbrev Settled : Result Choice → Type 0
Settled (err e) = Unit
Settled (ok (s, fs)) = Coherent s fs × (validate_choice s fs ≡ ok (s, fs))

named-Settled :
    (s : String) (fs : Option (List Fields))
    → (s == "none") ≡ false
    → (s == "auto") ≡ false
    → Settled (choose_named s fs)
unfolding validate_choice
named-Settled s none n a = tt
named-Settled s (some fs) n a = elim (Bool-cases (any (has_name s) fs)) [
  | inl k ↦ rw k (
    (
      (λ e. absurd (ground (arith, eq_iff s "none"))),
      (λ _. (keep-nonempty (has_name s) fs k, keep-All (has_name s) fs)),
    ),
    rw n (rw a (rw (any-keep (has_name s) fs) (rw k (rw (keep-keep (has_name s) fs))))),
  )
  | inr k ↦ rw k tt
]

none_ne_auto : ◌≢◌ {A = String} "none" "auto"
none_ne_auto e = ground (arith, eq_iff "none" "auto")

emptied :
    (fs : List Fields)
    → Settled (ok (some "none", (if has_functions (some fs) then none else some fs)))
unfolding validate_choice
emptied [] = (((λ _. refl), (λ e. cc e)), refl)
emptied (f ∷ fs) = ((refl, none_ne_auto), refl)

validate-Settled : (s : Option String) (fs : Option (List Fields)) → Settled (validate_choice s fs)
unfolding validate_choice
validate-Settled none fs = (tt, refl)
validate-Settled (some s) none = elim (Bool-cases (s == "none")) [
  | inl n ↦ rw ((eq_iff s "none").0 n) ((refl, none_ne_auto), refl)
  | inr n ↦ elim (Bool-cases (s == "auto")) [
    | inl a ↦ rw n (rw a ((refl, none_ne_auto), refl))
    | inr a ↦ rw n (rw a tt)
  ]
]
validate-Settled (some s) (some fs) = elim (Bool-cases (s == "none")) [
  | inl n ↦ rw ((eq_iff s "none").0 n) (emptied fs)
  | inr n ↦ elim (Bool-cases (s == "auto")) [
    | inl a ↦ rw ((eq_iff s "auto").0 a) (((λ e. absurd (none_ne_auto (sym e))), (λ e. cc e)), refl)
    | inr a ↦ rw n (rw a (named-Settled s (some fs) n a))
  ]
]

-- A validated choice is coherent: a named function comes with a non-empty list in which every
-- function has that name, 'none' comes with no functions, and 'auto' comes with a list.
pub validate_choice-Coherent :
    (s : Option String) (fs : Option (List Fields)) (s' : Option String)
    (fs' : Option (List Fields))
    → validate_choice s fs ≡ ok (s', fs')
    → Coherent s' fs'
validate_choice-Coherent s fs s' fs' h = (rw h at (validate-Settled s fs)).0

-- Validating the result of a validation changes nothing.
pub validate_choice_idem :
    (s : Option String) (fs : Option (List Fields)) (s' : Option String)
    (fs' : Option (List Fields))
    → validate_choice s fs ≡ ok (s', fs')
    → validate_choice s' fs' ≡ ok (s', fs')
validate_choice_idem s fs s' fs' h = (rw h at (validate-Settled s fs)).1

-- `param in properties`
abbrev pub is_listed : Fields → String → Bool
is_listed properties param = is_some (lookup param properties)

check_required-All :
    (properties : Fields) (names : List String)
    → (check_required properties names ≡ ok tt) ↔ All (λ n. is_listed properties n ≡ true) names
unfolding check_required
check_required-All properties [] = (λ h. tt, λ h. refl)
check_required-All properties (n ∷ names) =
    let (f, g) = check_required-All properties names in
    (λ h. (ground arith, f (ground arith)), λ (h, k). rw h (g k))

-- The parameters of a function are accepted exactly when every required name is a property; a
-- missing "required" becomes the empty list.
pub validate_required_lem :
    (d : ParametersData)
    → (validate_required d ≡ ok (record d { required = some (required_or_empty d.required) }))
      ↔ All (λ n. is_listed d.properties n ≡ true) (required_or_empty d.required)
unfolding validate_required
validate_required_lem d =
    let (f, g) = check_required-All d.properties (required_or_empty d.required) in
    (λ h. f (ground arith), λ h. rw (g h))
