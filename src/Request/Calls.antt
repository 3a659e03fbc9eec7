-- ===== src/Request/Calls.antt =====
-- The order of function calls and function messages that `scan_messages` accepts.
use rtxag.Prelude.{
  String, ◌≡◌, refl, ap, ◌↔◌, inl, inr, true, false, not, ◌||◌, none, some, List, [], ◌∷◌, ◌++◌,
  append-nil, append_assoc, arith, contains, is_empty, keep, Bool-cases, ◌==◌, eq_iff,
}
use rtxag.Error.{ok, ok-bind}
use rtxag.Message.{Message, system_message, user_message, assistant_message, function_message}
use rtxag.Request.{Scan, scan_message, scan_messages, unmatched, call_ids}

-- The ids that a message calls, and those that it answers.
abbrev pub calls_of : Message → List String
calls_of (assistant_message c (some calls)) = call_ids calls
calls_of _ = []

abbrev pub answers_of : Message → List String
answers_of (function_message c i) = i ∷ []
answers_of _ = []

abbrev pub called : List Message → List String
called [] = []
called (m ∷ ms) = calls_of m ++ called ms

abbrev pub answered : List Message → List String
answered [] = []
answered (m ∷ ms) = answers_of m ++ answered ms

-- Every id of the first list is in the second.
abbrev pub Covered : List String → List String → Type 0
Covered xs ys = (i : String) → contains i xs ≡ true → contains i ys ≡ true

-- Whether a message may stand after the ids that were called and those that were answered.
abbrev pub Allowed : List String → List String → Message → Type 0
Allowed cs ans (system_message c) = Unit
Allowed cs ans (user_message c) = cs ≡ []
Allowed cs ans (assistant_message c none) = cs ≡ []
Allowed cs ans (assistant_message c (some calls)) = Covered cs ans
Allowed cs ans (function_message c i) = (contains i ans ≡ false) × (contains i cs ≡ true)

-- The protocol, independent of the loop's variables.
abbrev pub Conforms : List String → List String → List Message → Type 0
Conforms cs ans [] = Unit
Conforms cs ans (m ∷ ms) = Allowed cs ans m × Conforms (cs ++ calls_of m) (ans ++ answers_of m) ms

pub contains-append :
    (i : String) (xs ys : List String) → contains i (xs ++ ys) ≡ (contains i xs || contains i ys)
contains-append i [] ys = refl
contains-append i (x ∷ xs) ys = ground (arith, contains-append i xs ys)

-- The ids outside a list are none exactly when the list covers them.
pub keep-is_empty :
    (cs fs : List String) → is_empty (keep (λ i. not (contains i fs)) cs) ≡ true → Covered cs fs
keep-is_empty [] fs h i m = cc
keep-is_empty (c ∷ cs) fs h i m = elim (Bool-cases (c == i)) [
  | inl e ↦ ground (arith, eq_iff c i)
  | inr n ↦ keep-is_empty cs fs (ground arith) i (ground arith)
]

pub is_empty-keep :
    (cs fs : List String) → Covered cs fs → is_empty (keep (λ i. not (contains i fs)) cs) ≡ true
is_empty-keep [] fs h = refl
is_empty-keep (c ∷ cs) fs h =
    ground (arith, h c, eq_iff c c, is_empty-keep cs fs (λ i m. h i (ground arith)))

-- The loop's variables stand for the ids that were called and answered.
pub record Represents (s : Scan) (cs ans : List String) : Type 0 where
  pub calls : s.function_calls_ids ≡ cs
  pub answers : (i : String) → contains i s.functions_ids ≡ contains i ans

is_empty_iff {ℓ} : {A : Type ℓ} (xs : List A) → (is_empty xs ≡ true) ↔ (xs ≡ [])
is_empty_iff [] = (λ h. refl, λ h. refl)
is_empty_iff (x ∷ xs) = (λ h. cc, λ h. cc)

same :
    (s : Scan) (cs ans : List String) (s' : Scan)
    → Represents s cs ans
    → s ≡ s'
    → Represents s' (cs ++ []) (ans ++ [])
same s cs ans s' r e = record {
  calls = ground (arith, r.calls, append-nil cs);
  answers = λ i. ground (arith, e, r.answers i, ap (contains i) (append-nil ans));
}

-- One round, from the code to the protocol.
step-Conforms :
    (s : Scan) (cs ans : List String) (m : Message) (s' : Scan)
    → Represents s cs ans
    → scan_message s m ≡ ok s'
    → Allowed cs ans m × Represents s' (cs ++ calls_of m) (ans ++ answers_of m)
unfolding scan_message
step-Conforms s cs ans (system_message c) s' r h = (tt, same s cs ans s' r (cc))
step-Conforms s cs ans (user_message c) s' r h =
    (ground (arith, r.calls, is_empty_iff s.function_calls_ids), same s cs ans s' r (ground arith))
step-Conforms s cs ans (assistant_message c none) s' r h =
    (ground (arith, r.calls, is_empty_iff s.function_calls_ids), same s cs ans s' r (ground arith))
step-Conforms s cs ans (assistant_message c (some calls)) s' r h =
    elim (Bool-cases (is_empty (unmatched s))) [
      | inl e ↦ (
        λ i m.
            rw (← r.answers i)
              (keep-is_empty s.function_calls_ids s.functions_ids e i (rw r.calls m)),
        record {
          calls = ground (arith, r.calls, e);
          answers = λ j. ground (arith, r.answers j, append-nil ans, e);
        },
      )
      | inr n ↦ cc (rw n at h)
    ]
step-Conforms s cs ans (function_message c i) s' r h = (
  (ground (arith, r.answers i), ground (arith, ap (contains i) r.calls)),
  record {
    calls = ground (arith, r.calls, append-nil cs);
    answers = λ j. ground (arith, r.answers j, contains-append j ans (i ∷ []));
  },
)

step-Allowed :
    (s : Scan) (cs ans : List String) (m : Message)
    → Represents s cs ans
    → Allowed cs ans m
    → (s' : Scan) × (scan_message s m ≡ ok s')
unfolding scan_message
step-Allowed s cs ans (system_message c) r a = (s, refl)
step-Allowed s cs ans (user_message c) r a =
    (s, ground (arith, r.calls, is_empty_iff s.function_calls_ids))
step-Allowed s cs ans (assistant_message c none) r a =
    (s, ground (arith, r.calls, is_empty_iff s.function_calls_ids))
step-Allowed s cs ans (assistant_message c (some calls)) r a = (
  record s { function_calls_ids = s.function_calls_ids ++ call_ids calls },
  rw (
      is_empty-keep s.function_calls_ids s.functions_ids
        (λ i m. rw r.answers (a i (rw (← r.calls) m)))),
)
step-Allowed s cs ans (function_message c i) r a = (
  record s { functions_ids = i ∷ s.functions_ids },
  ground (arith, r.calls, r.answers i, ap (contains i) r.calls),
)

pub scan-Conforms :
    (s : Scan) (cs ans : List String) (ms : List Message) (s' : Scan)
    → Represents s cs ans
    → scan_messages s ms ≡ ok s'
    → Conforms cs ans ms × Represents s' (cs ++ called ms) (ans ++ answered ms)
unfolding scan_messages
scan-Conforms s cs ans [] s' r h = (tt, same s cs ans s' r (cc))
scan-Conforms s cs ans (m ∷ ms) s' r h =
    let (t, first, rest) = ok-bind (λ t. scan_messages t ms) (scan_message s m) h in
    let (a, r') = step-Conforms s cs ans m t r first in
    let (c, r'') = scan-Conforms t (cs ++ calls_of m) (ans ++ answers_of m) ms s' r' rest in
    (
      (a, c),
      rw
          (
            ← append_assoc cs (calls_of m) (called ms),
            ← append_assoc ans (answers_of m) (answered ms),
          )
          r'',
    )

pub scan_accepts :
    (s : Scan) (cs ans : List String) (ms : List Message)
    → Represents s cs ans
    → Conforms cs ans ms
    → (s' : Scan) × (scan_messages s ms ≡ ok s')
unfolding scan_messages
scan_accepts s cs ans [] r c = (s, refl)
scan_accepts s cs ans (m ∷ ms) r (a, c) =
    let (t, first) = step-Allowed s cs ans m r a in
    let (_, r') = step-Conforms s cs ans m t r first in
    let (s', rest) = scan_accepts t (cs ++ calls_of m) (ans ++ answers_of m) ms r' c in
    (s', rw first rest)
