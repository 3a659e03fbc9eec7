-- ===== src/Variants/Mistral/Answers.antt =====
-- The ids of calls and answers in what is sent to Mistral of a conversation of the protocol.
use rtxag.Prelude.{
  ℕ, suc, String, ◌≡◌, refl, sym, ap, ◌∙◌, ◌==◌, Bool, true, false, Bool-cases, inl, inr, Option,
  none, some, length, length-append, if◌then◌else◌, List, [], ◌∷◌, ◌++◌, get, put, get-put,
  nonempty, contains, arith, All, append-nil, append_assoc,
}
use rtxag.Error.{ok, ok-bind}
use rtxag.Json.{Json, Items, Fields, str, arr, obj, nil, cons, field, end}
use rtxag.Message.{
  Message, Content, text, parts, FunctionCall, system_message, user_message, assistant_message,
  function_message,
}
use rtxag.Request.{call_ids}
use rtxag.Request.Calls.{Conforms, Allowed, calls_of, answers_of}
use rtxag.Payload.{plain_content, dump_parts}
use rtxag.OpenAi.Prepare.{build_message, dump_calls}
use rtxag.Variants.{json_message}
use rtxag.Variants.Mistral.{Ids, rename_calls, build_mistral_message, build_mistral_messages}

-- A message that can be sent to OpenAI, whose messages differ in the ids only.
abbrev pub IsSendable : (Fields → String) → Message → Type 0
IsSendable dumps m = (v : Json) × (build_message dumps m ≡ ok v)

abbrev answer_with : String → Json → Json
answer_with new v =
    obj (field "role" (str "tool") (field "content" v (field "tool_call_id" (str new) end)))

abbrev or_here : Bool → Option ℕ → Option ℕ
or_here b (some k) = some (suc k)
or_here b none = if b then some 0 else none

-- The last position of an id in a list.
abbrev pub position : String → List String → Option ℕ
position i [] = none
position i (c ∷ cs) = or_here (c == i) (position i cs)

append_here :
    (o : Option ℕ) (b e : Bool) (n : ℕ)
    → or_here b (if e then some n else o) ≡ (if e then some (suc n) else or_here b o)
append_here none true true n = refl
append_here none true false n = refl
append_here none false true n = refl
append_here none false false n = refl
append_here (some k) b true n = refl
append_here (some k) b false n = refl

position-append :
    (i k : String) (cs : List String)
    → position i (cs ++ k ∷ []) ≡ (if k == i then some (length cs) else position i cs)
position-append i k [] = refl
position-append i k (c ∷ cs) =
    ap (or_here (c == i)) (position-append i k cs)
    ∙ append_here (position i cs) (c == i) (k == i) (length cs)

found_behind : (b : Bool) (k : ℕ) → (n : ℕ) × (or_here b (some k) ≡ some n)
found_behind b k = (suc k, refl)

found_here : (o : Option ℕ) → (n : ℕ) × (or_here true o ≡ some n)
found_here none = (0, refl)
found_here (some k) = (suc k, refl)

position-contains :
    (i : String) (cs : List String) → contains i cs ≡ true → (n : ℕ) × (position i cs ≡ some n)
position-contains i [] h = cc h
position-contains i (c ∷ cs) h = elim (Bool-cases (c == i)) [
  | inl e ↦ let (n, q) = found_here (position i cs) in (n, rw e q)
  | inr f ↦ let (k, q) = position-contains i cs (ground (arith)) in (suc k, ap (or_here (c == i)) q)
]

abbrev new_id : (ℕ → String) → Option ℕ → Option String
new_id random_id none = none
new_id random_id (some n) = some (random_id n)

new_id-if :
    (random_id : ℕ → String) (b : Bool) (n : ℕ) (o : Option ℕ)
    → (if b then some (random_id n) else new_id random_id o)
      ≡ new_id random_id (if b then some n else o)
new_id-if random_id true n o = refl
new_id-if random_id false n o = refl

module _ (dumps : Fields → String) (random_id : ℕ → String) where
  -- The calls of a message, with the ids that are drawn from the n-th on.
  abbrev pub renumbered : ℕ → List FunctionCall → List FunctionCall
  renumbered n [] = []
  renumbered n (f ∷ fs) = record f { id = random_id n } ∷ renumbered (suc n) fs

  -- What is sent of a message, behind messages that call the given ids. The n-th call of the
  -- conversation has the n-th drawn id; an answer has the id of the last call with its own id; any
  -- other message is OpenAI's.
  abbrev pub IsSentAs : List String → Message → Json → Type 0
  IsSentAs cs (function_message c i) v =
      (n : ℕ) × (w : Json) × (position i cs ≡ some n)
      × (plain_content c ≡ ok w)
      × (v ≡ answer_with (random_id n) w)
  IsSentAs cs (assistant_message c (some fs)) v =
      v
      ≡ obj (
          field "role" (str "assistant") (
            field "tool_calls" (arr (dump_calls dumps (renumbered (length cs) fs)))
              (field "content" (str "") end)))
  IsSentAs cs m v = build_message dumps m ≡ ok v

  abbrev pub AreSentAs : List String → List Message → Items → Type 0
  AreSentAs cs [] nil = Unit
  AreSentAs cs [] (cons v vs) = ⊥
  AreSentAs cs (m ∷ ms) nil = ⊥
  AreSentAs cs (m ∷ ms) (cons v vs) = IsSentAs cs m v × AreSentAs (cs ++ calls_of m) ms vs

  -- The map has, for every id, the id that was drawn for its last call.
  abbrev Matches : List String → Ids → Type 0
  Matches cs s =
      (s.next ≡ length cs) × ((i : String) → get i s.mistral_ids ≡ new_id random_id (position i cs))

  put-Matches :
      (cs : List String) (k : String) (s : Ids)
      → Matches cs s
      → Matches
          (cs ++ k ∷ [])
          (record { mistral_ids = put k (random_id s.next) s.mistral_ids; next = suc s.next })
  put-Matches cs k s (n, r) = (
    ground (arith, length-append cs (k ∷ []), n),
    λ i.
        get-put k i (random_id s.next) s.mistral_ids
        ∙ rw (r i, n) (new_id-if random_id (k == i) (length cs) (position i cs))
        ∙ ap (new_id random_id) (sym (position-append i k cs)),
  )

  rename_calls_lem :
      (fs : List FunctionCall) (cs : List String) (s : Ids)
      → Matches cs s
      → ((rename_calls dumps random_id fs s).0 ≡ dump_calls dumps (renumbered (length cs) fs))
        × Matches (cs ++ call_ids fs) (rename_calls dumps random_id fs s).1
  unfolding rename_calls dump_calls
  rename_calls_lem [] cs s r = (refl, rw (append-nil cs) r)
  rename_calls_lem (f ∷ fs) cs s (n, r) =
      let (q, m) = rename_calls_lem fs (cs ++ f.id ∷ []) _ (put-Matches cs f.id s (n, r)) in
      let long : length (cs ++ f.id ∷ []) ≡ suc (length cs) =
        ground (arith, length-append cs (f.id ∷ [])) in
      (rw (q, long, n) refl, rw (← append_assoc cs (f.id ∷ []) (call_ids fs)) m)

  module _ (drawn : (n : ℕ) → nonempty (random_id n) ≡ true) where
    answered :
        (c : Option Content) (i : String) (s : Ids) (n : ℕ) (w : Json)
        → get i s.mistral_ids ≡ some (random_id n)
        → plain_content c ≡ ok w
        → build_mistral_message dumps random_id (function_message c i) s
          ≡ ok (answer_with (random_id n) w, s)
    unfolding build_mistral_message
    answered c i s n w g q = rw (g, drawn n, q) refl

    -- One message: it is built, and the map has the ids that it calls.
    message_built :
        (m : Message) (cs ans : List String) (s : Ids)
        → IsSendable dumps m
        → Allowed cs ans m
        → Matches cs s
        → (v : Json) × (s' : Ids) × (build_mistral_message dumps random_id m s ≡ ok (v, s'))
          × IsSentAs cs m v
          × Matches (cs ++ calls_of m) s'
    unfolding build_mistral_message build_message
    message_built (system_message c) cs ans s (v, h) a r =
        let (w, q, e) = ok-bind _ (plain_content c) h in
        (json_message "system" w, s, rw q refl, rw q refl, rw (append-nil cs) r)
    message_built (user_message none) cs ans s h a r = (_, s, refl, refl, rw (append-nil cs) r)
    message_built (user_message (some (text t))) cs ans s h a r =
        (_, s, refl, refl, rw (append-nil cs) r)
    message_built (user_message (some (parts ps))) cs ans s (v, h) a r =
        let (w, q, e) = ok-bind _ (dump_parts ps) h in
        (json_message "user" (arr w), s, rw q refl, rw q refl, rw (append-nil cs) r)
    message_built (function_message c i) cs ans s (v, h) (u, asked) (n, r) =
        let (w, q, e) = ok-bind _ (plain_content c) h in
        let (k, p) = position-contains i cs asked in
        (
          answer_with (random_id k) w,
          s,
          answered c i s k w (r i ∙ ap (new_id random_id) p) q,
          (k, w, p, q, refl),
          rw (append-nil cs) (n, r),
        )
    message_built (assistant_message c none) cs ans s (v, h) a r =
        let (w, q, e) = ok-bind _ (plain_content c) h in
        (json_message "assistant" w, s, rw q refl, rw q refl, rw (append-nil cs) r)
    message_built (assistant_message c (some fs)) cs ans s h a r =
        let (q, m) = rename_calls_lem fs cs s r in
        (_, (rename_calls dumps random_id fs s).1, refl, rw q refl, m)

    messages_built :
        (ms : List Message) (cs ans : List String) (s : Ids)
        → All (IsSendable dumps) ms
        → Conforms cs ans ms
        → Matches cs s
        → (vs : Items) × (build_mistral_messages dumps random_id ms s ≡ ok vs) × AreSentAs cs ms vs
    unfolding build_mistral_messages
    messages_built [] cs ans s h a r = (nil, refl, tt)
    messages_built (m ∷ ms) cs ans s (h, hs) (a, as') r =
        let (v, s', q, is, r') = message_built m cs ans s h a r in
        let (vs, qs, are) =
          messages_built ms (cs ++ calls_of m) (ans ++ answers_of m) s' hs as' r' in
        (cons v vs, rw (q, qs) refl, (is, are))

    -- A conversation of the protocol, each of whose messages could be sent to OpenAI, is built for
    -- Mistral if no drawn id is empty: the n-th call of the conversation is sent with the n-th drawn
    -- id, every answer is sent with the id that was drawn for the last call before it with its own
    -- id, and all else is sent as to OpenAI, but for the empty content of a message with calls.
    pub build_mistral_messages-AreSentAs :
        (ms : List Message)
        → All (IsSendable dumps) ms
        → Conforms [] [] ms
        → (vs : Items) × (build_mistral_messages dumps random_id ms
              (record { mistral_ids = []; next = 0 })
            ≡ ok vs)
          × AreSentAs [] ms vs
    unfolding get
    build_mistral_messages-AreSentAs ms h a =
        messages_built ms [] [] (record { mistral_ids = []; next = 0 }) h a (refl, λ i. refl)
