-- ===== src/Request/Validation.antt =====
-- What `validate_messages` accepts, and what it returns.
use rtxag.Prelude.{
  String, ◌≡◌, refl, sym, ap, ◌∙◌, ◌↔◌, inl, inr, false, none, some, List, [], ◌∷◌, ◌++◌, arith,
  keep, length, Bool-cases, All,
}
use rtxag.Error.{ok, ◌>>=◌, ok-bind}
use rtxag.Message.{Message, system_message, user_message, assistant_message, function_message}
use rtxag.Request.{
  Scan, no_ids, scan_messages, check_system, check_matched, merge_messages, start_merge,
  validate_messages, is_plain, is_system, call_ids,
}
use rtxag.Request.Calls.{
  called, answered, Covered, Conforms, Represents, scan-Conforms, scan_accepts, keep-is_empty,
  is_empty-keep,
}
use rtxag.Request.Merging.{HasText, Settled, During, NotPlain, runs, merge_before}

-- A system message stands first or nowhere, and there is a message.
abbrev pub SystemFirst : List Message → Type 0
SystemFirst [] = ⊥
SystemFirst (m ∷ ms) = All (λ n. is_system n ≡ false) ms

no_system : (ms : List Message) → length (keep is_system ms) ≡ 0 → All (λ n. is_system n ≡ false) ms
no_system [] h = tt
no_system (m ∷ ms) h = elim (Bool-cases (is_system m)) [
  | inl s ↦ absurd (ground arith)
  | inr n ↦ (n, no_system ms (ground arith))
]

no_system_keep :
    (ms : List Message) → All (λ n. is_system n ≡ false) ms → length (keep is_system ms) ≡ 0
no_system_keep [] h = refl
no_system_keep (m ∷ ms) (h, hs) = rw h (no_system_keep ms hs)

check_system-SystemFirst : (ms : List Message) → check_system ms ≡ ok tt → SystemFirst ms
unfolding check_system
check_system-SystemFirst [] h = cc
check_system-SystemFirst (m ∷ ms) h = no_system ms (ground arith)

SystemFirst-check_system : (ms : List Message) → SystemFirst ms → check_system ms ≡ ok tt
unfolding check_system
SystemFirst-check_system [] h = absurd h
SystemFirst-check_system (m ∷ ms) h = ground (arith, no_system_keep ms h)

-- No message asks for function calls with an empty list.
abbrev pub AsksCalls : Message → Type 0
AsksCalls (assistant_message c (some [])) = ⊥
AsksCalls _ = Unit

-- After a call, only calls and function messages conform.
stopped :
    (c : String) (cs ans : List String) (ms : List Message)
    → Conforms (c ∷ cs) ans ms
    → All NotPlain ms
stopped c cs ans [] h = tt
stopped c cs ans (system_message x ∷ ms) (a, h) = (refl, stopped c (cs ++ []) (ans ++ []) ms h)
stopped c cs ans (user_message x ∷ ms) (a, h) = absurd (cc a)
stopped c cs ans (assistant_message x none ∷ ms) (a, h) = absurd (cc a)
stopped c cs ans (assistant_message x (some calls) ∷ ms) (a, h) =
    (refl, stopped c (cs ++ call_ids calls) (ans ++ []) ms h)
stopped c cs ans (function_message x i ∷ ms) (a, h) =
    (refl, stopped c (cs ++ []) (ans ++ i ∷ []) ms h)

stopped-Settled : (ms : List Message) → All NotPlain ms → Settled ms
stopped-Settled [] h = tt
stopped-Settled (m ∷ ms) (h, hs) = rw h (stopped-Settled ms hs)

abbrev NotSystem : Message → Type 0
NotSystem m = is_system m ≡ false

Conforms-During :
    (ans : List String) (ms : List Message)
    → All NotSystem ms
    → All AsksCalls ms
    → Conforms [] ans ms
    → During ms
Conforms-During ans [] n a h = tt
Conforms-During ans (system_message x ∷ ms) (n, ns) a h = absurd (cc n)
Conforms-During ans (user_message x ∷ ms) (n, ns) (a, as') (b, h) =
    Conforms-During (ans ++ []) ms ns as' h
Conforms-During ans (assistant_message x none ∷ ms) (n, ns) (a, as') (b, h) =
    Conforms-During (ans ++ []) ms ns as' h
Conforms-During ans (assistant_message x (some []) ∷ ms) n (a, as') h = absurd a
Conforms-During ans (assistant_message x (some (c ∷ cs)) ∷ ms) n a (b, h) =
    stopped c.id (call_ids cs) (ans ++ []) ms h
Conforms-During ans (function_message x i ∷ ms) n a (b, h) = absurd (cc b.1)

During-Settled : (ms : List Message) → During ms → Settled ms
During-Settled [] d = tt
During-Settled (m ∷ ms) d = elim (Bool-cases (is_plain m)) [
  | inl p ↦ rw p (rw p at d)
  | inr s ↦ rw s (stopped-Settled ms (rw s at d))
]

Conforms-Settled :
    (ms : List Message) → SystemFirst ms → All AsksCalls ms → Conforms [] [] ms → Settled ms
Conforms-Settled [] f a h = tt
Conforms-Settled (system_message x ∷ ms) f (a, as') (b, h) =
    During-Settled ms (Conforms-During [] ms f as' h)
Conforms-Settled (user_message x ∷ ms) f a h =
    During-Settled (user_message x ∷ ms) (Conforms-During [] (user_message x ∷ ms) (refl, f) a h)
Conforms-Settled (m ∷ ms) f a h =
    During-Settled (m ∷ ms) (Conforms-During [] (m ∷ ms) (refl, f) a h)

-- The ids that were called are those that were answered, in the loop's variables.
matched-Covered :
    (s : Scan) (cs ans : List String)
    → Represents s cs ans
    → (check_matched s ≡ ok tt) ↔ Covered cs ans
unfolding check_matched
matched-Covered s cs ans r = (
  λ h i m.
      rw (← r.answers i)
        (keep-is_empty s.function_calls_ids s.functions_ids (ground arith) i (rw r.calls m)),
  λ c. rw (
      is_empty-keep s.function_calls_ids s.functions_ids
        (λ i m. rw r.answers (c i (rw (← r.calls) m)))),
)

start-Represents : Represents no_ids [] []
start-Represents = record { calls = refl; answers = λ i. refl }

-- A request that the validators accept has a system message at most at its head, asks for function
-- calls and answers them in the order of the protocol, and leaves no call without an answer.
pub validate_messages-Conforms :
    (ms out : List Message)
    → validate_messages ms ≡ ok out
    → SystemFirst ms × Conforms [] [] ms × Covered (called ms) (answered ms)
unfolding validate_messages
validate_messages-Conforms ms out h =
    let merge = λ (_ : Unit {0}). merge_messages start_merge ms in
    let finish = λ (s : Scan). check_matched s >>= merge in
    let scan = λ (_ : Unit {0}). scan_messages no_ids ms >>= finish in
    let (_, first, h') = ok-bind scan (check_system ms) h in
    let (s, scanned, h'') = ok-bind finish (scan_messages no_ids ms) h' in
    let (_, matched, _) = ok-bind merge (check_matched s) h'' in
    let (c, r) = scan-Conforms no_ids [] [] ms s start-Represents scanned in
    (
      check_system-SystemFirst ms first,
      c,
      (matched-Covered s (called ms) (answered ms) r).0 matched,
    )

-- For a request whose merged messages have texts, and none of whose messages carries an empty list
-- of function calls, the validators accept exactly the conversations of the protocol, and what they
-- return is the list of the speakers' runs.
pub validate_messages_lem :
    (ms : List Message)
    → All HasText ms
    → All AsksCalls ms
    → (out : List Message)
    → (validate_messages ms ≡ ok out)
      ↔ (SystemFirst ms × Conforms [] [] ms × Covered (called ms) (answered ms) × (out ≡ runs ms))
unfolding validate_messages
validate_messages_lem ms t a out = (
  λ h.
      let (f, c, v) = validate_messages-Conforms ms out h in
      (f, c, v, ok_injective (sym h ∙ accepted f c v)),
  λ (f, c, v, e). accepted f c v ∙ ap ok (sym e),
)
  where
    ok_injective : {x y : List Message} → ok x ≡ ok y → x ≡ y
    ok_injective e = cc

    accepted :
        SystemFirst ms
        → Conforms [] [] ms
        → Covered (called ms) (answered ms)
        → validate_messages ms ≡ ok (runs ms)
    accepted f c v =
        let (s, scanned) = scan_accepts no_ids [] [] ms start-Represents c in
        let (_, r) = scan-Conforms no_ids [] [] ms s start-Represents scanned in
        rw (SystemFirst-check_system ms f) (
          rw scanned (
            rw ((matched-Covered s (called ms) (answered ms) r).1 v)
              (merge_before start_merge ms refl refl t (Conforms-Settled ms f a c))))
