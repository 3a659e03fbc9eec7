-- ===== src/Request/Turns.antt =====
-- Turns of the validated conversation: the output alternates, and what follows a function call.
use rtxag.Prelude.{
  String, ◌≡◌, refl, ◌∙◌, ◌≢◌, inl, inr, true, false, Option, none, some, List, [], ◌∷◌, ◌++◌,
  append-nil, append_assoc, Bool-cases, All, contains,
}
use rtxag.Error.{ok, err, raised, Kind}
use rtxag.Message.{
  Content, text, Message, system_message, user_message, assistant_message, function_message,
}
use rtxag.Request.{validate_messages, is_plain}
use rtxag.Request.Calls.{called, answered, calls_of, answers_of, Allowed, Conforms}
use rtxag.Request.Merging.{HasText, joinable, joined, runs, runs_from}
use rtxag.Request.Validation.{validate_messages-Conforms, validate_messages_lem, AsksCalls}

-- No two neighbours could still be joined.
abbrev pub Alternates : List Message → Type 0
Alternates [] = Unit
Alternates (m ∷ []) = Unit
Alternates (m ∷ n ∷ ms) = (joinable m n ≡ false) × Alternates (n ∷ ms)

joinable-joined : (q p m : Message) → joinable p m ≡ true → joinable q (joined p m) ≡ joinable q p
joinable-joined q (user_message c) m h = refl
joinable-joined q (assistant_message c none) m h = refl
joinable-joined q (assistant_message c (some x)) m h = refl
joinable-joined q (system_message c) m h = refl
joinable-joined q (function_message c i) m h = refl

runs_from-Alternates :
    (q p : Message) (ms : List Message) → joinable q p ≡ false → Alternates (q ∷ runs_from p ms)
unfolding runs_from
runs_from-Alternates q p [] h = (h, tt)
runs_from-Alternates q p (m ∷ ms) h = elim (Bool-cases (joinable p m)) [
  | inl j ↦ rw j (runs_from-Alternates q (joined p m) ms (joinable-joined q p m j ∙ h))
  | inr n ↦ rw n (h, runs_from-Alternates p m ms n)
]

tail-Alternates : (q : Message) (ms : List Message) → Alternates (q ∷ ms) → Alternates ms
tail-Alternates q [] h = tt
tail-Alternates q (m ∷ ms) h = h.1

runs-Alternates : (ms : List Message) → Alternates (runs ms)
unfolding runs
runs-Alternates [] = tt
runs-Alternates (m ∷ ms) =
    tail-Alternates (system_message none) (runs_from m ms)
      (runs_from-Alternates (system_message none) m ms refl)

-- For a request whose merged messages have texts, and none of whose messages carries an empty list
-- of function calls, user and assistant texts alternate in what the validators return.
pub validate_messages-Alternates :
    (ms : List Message)
    → All HasText ms
    → All AsksCalls ms
    → (out : List Message) → validate_messages ms ≡ ok out
    → Alternates out
validate_messages-Alternates ms t a out h =
    rw ((validate_messages_lem ms t a out).0 h).3 (runs-Alternates ms)

Conforms-at :
    (cs ans : List String) (xs : List Message) (m : Message) (ys : List Message)
    → Conforms cs ans (xs ++ m ∷ ys)
    → Allowed (cs ++ called xs) (ans ++ answered xs) m
Conforms-at cs ans [] m ys (a, h) = rw (append-nil cs, append-nil ans) a
Conforms-at cs ans (x ∷ xs) m ys (a, h) =
    rw (← append_assoc cs (calls_of x) (called xs), ← append_assoc ans (answers_of x) (answered xs))
      (Conforms-at (cs ++ calls_of x) (ans ++ answers_of x) xs m ys h)

plain-Allowed :
    (cs ans : List String) (m : Message) → is_plain m ≡ true → Allowed cs ans m → cs ≡ []
plain-Allowed cs ans (user_message c) h a = a
plain-Allowed cs ans (assistant_message c none) h a = a
plain-Allowed cs ans (assistant_message c (some x)) h a = cc h
plain-Allowed cs ans (system_message c) h a = cc h
plain-Allowed cs ans (function_message c i) h a = cc h

-- Once a message has called a function, a request with a later user message or assistant text is
-- refused, also where every call has its answer.
pub text_after_calls :
    (xs : List Message) (m : Message) (ys : List Message)
    → is_plain m ≡ true
    → called xs ≢ []
    → (out : List Message) → validate_messages (xs ++ m ∷ ys) ≢ ok out
text_after_calls xs m ys p n out h = n (
    plain-Allowed (called xs) (answered xs) m p
      (Conforms-at [] [] xs m ys (validate_messages-Conforms (xs ++ m ∷ ys) out h).1))

-- Every function message of an accepted request answers a call that stands before it, and one that
-- no earlier message has answered.
pub function_message_answers :
    (xs : List Message) (c : Option Content) (i : String) (ys out : List Message)
    → validate_messages (xs ++ function_message c i ∷ ys) ≡ ok out
    → (contains i (called xs) ≡ true) × (contains i (answered xs) ≡ false)
function_message_answers xs c i ys out h =
    let (unanswered, asked) =
      Conforms-at [] [] xs (function_message c i) ys
        (validate_messages-Conforms (xs ++ function_message c i ∷ ys) out h).1 in
    (asked, unanswered)

-- Two user texts with an empty list of function calls between them make the validator
-- raise an `AttributeError`, which is no validation error.
pub empty_calls_crash :
    (s t : String) (c : Option Content)
    → validate_messages (
        user_message (some (text s))
        ∷ assistant_message c (some [])
        ∷ user_message (some (text t))
        ∷ [])
      ≡ err (raised Kind.attribute_error "'NoneType' object has no attribute 'content'")
unfolding validate_messages
empty_calls_crash s t c = refl
