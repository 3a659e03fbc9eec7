-- ===== src/OpenAi/Reading.antt =====
-- The messages that are sent to OpenAI can be read back: a reader of OpenAI's format, and that
-- nothing of a conversation is lost.
use rtxag.Prelude.{
  ◌≡◌, refl, ◌==◌, String, Bool, true, false, Option, none, some, List, [], ◌∷◌, if◌then◌else◌, All,
}
use rtxag.Error.{ok, ok-bind, ok_injective}
use rtxag.Json.{Json, Items, Fields, null, str, arr, obj, nil, cons, lookup}
use rtxag.Message.{
  Message, Content, text, parts, Part, text_part, image_url, letter, FunctionCall, system_message,
  user_message, assistant_message, function_message,
}
use rtxag.Payload.{dump_parts, plain_content, build_messages}
use rtxag.OpenAi.Prepare.{build_message, dump_calls}

abbrev and_then {ℓ κ} : {A : Type ℓ} {B : Type κ} → Option A → (A → Option B) → Option B
and_then none next = none
and_then (some a) next = next a

abbrev entry : String → Json → Option Json
entry k (obj d) = lookup k d
entry k _ = none

abbrev as_text : Json → Option String
as_text (str s) = some s
as_text _ = none

abbrev text_entry : String → Json → Option String
text_entry k v = and_then (entry k v) as_text

abbrev read_image : Json → Option Part
read_image v = and_then (text_entry "url" v) λ u. some (image_url u)

abbrev part_of_type : String → Json → Option Part
part_of_type t v =
    if t == "text"
    then and_then (text_entry "text" v) (λ s. some (text_part s))
    else and_then (entry "image_url" v) read_image

abbrev read_part : Json → Option Part
read_part v = and_then (text_entry "type" v) λ t. part_of_type t v

abbrev read_parts : Items → Option (List Part)
read_parts nil = some []
read_parts (cons v vs) = and_then (read_part v) λ p. and_then (read_parts vs) λ ps. some (p ∷ ps)

abbrev read_content : Json → Option (Option Content)
read_content null = some none
read_content (str s) = some (some (text s))
read_content (arr vs) = and_then (read_parts vs) λ ps. some (some (parts ps))
read_content _ = none

abbrev as_object : Json → Option Fields
as_object (obj d) = some d
as_object _ = none

module _ (loads : String → Option Json) where
  abbrev read_function : String → Json → Option FunctionCall
  read_function i v = and_then (text_entry "name" v) λ name.
      and_then (text_entry "arguments" v) λ s.
        and_then (loads s)
          λ a. and_then (as_object a) λ d. some (record { id = i; name = name; arguments = d })

  abbrev read_call : Json → Option FunctionCall
  read_call v =
      and_then (text_entry "id" v) λ i. and_then (entry "function" v) λ f. read_function i f

  abbrev read_calls : Items → Option (List FunctionCall)
  read_calls nil = some []
  read_calls (cons v vs) = and_then (read_call v) λ f. and_then (read_calls vs) λ fs. some (f ∷ fs)

  abbrev calls_entry : Option Json → Option (Option (List FunctionCall))
  calls_entry none = some none
  calls_entry (some (arr vs)) = and_then (read_calls vs) λ fs. some (some fs)
  calls_entry (some _) = none

  abbrev with_role : String → Option Content → Json → Option Message
  with_role r c v =
      if r == "system"
      then some (system_message c)
      else if r == "user"
      then some (user_message c)
      else if r == "tool"
      then and_then (text_entry "tool_call_id" v) (λ i. some (function_message c i))
      else and_then (calls_entry (entry "tool_calls" v)) (λ fs. some (assistant_message c fs))

  -- A message as OpenAI's format has it.
  unfoldable pub read_message : Json → Option Message
  unfolding lookup
  read_message v =
      and_then (text_entry "role" v)
        λ r. and_then (entry "content" v) λ j. and_then (read_content j) λ c. with_role r c v

  unfoldable pub read_messages : Items → Option (List Message)
  unfolding read_message
  read_messages nil = some []
  read_messages (cons v vs) =
      and_then (read_message v) λ m. and_then (read_messages vs) λ ms. some (m ∷ ms)

-- A message that the format has a place for: a user message has a content, and a message with
-- function calls has none.
abbrev pub has_place : Message → Bool
has_place (user_message none) = false
has_place (assistant_message (some c) (some calls)) = false
has_place _ = true

abbrev calls_of : Message → List FunctionCall
calls_of (assistant_message c (some calls)) = calls
calls_of _ = []

-- Such a message, whose calls have arguments that are parsed as they were printed.
abbrev pub IsReadable : (Fields → String) → (String → Option Json) → Message → Type 0
IsReadable dumps loads m =
    (has_place m ≡ true)
    × All (λ f. loads (dumps f.arguments) ≡ some (obj f.arguments)) (calls_of m)

read-dump_parts : (ps : List Part) (vs : Items) → dump_parts ps ≡ ok vs → read_parts vs ≡ some ps
unfolding dump_parts lookup
read-dump_parts [] vs h = rw (← ok_injective nil vs h) refl
read-dump_parts (text_part s ∷ ps) vs h =
    let (ws, q, e) = ok-bind _ (dump_parts ps) h in
    rw (← ok_injective _ vs e, read-dump_parts ps ws q) refl
read-dump_parts (image_url u ∷ ps) vs h =
    let (ws, q, e) = ok-bind _ (dump_parts ps) h in
    rw (← ok_injective _ vs e, read-dump_parts ps ws q) refl
read-dump_parts (letter x ∷ ps) vs h = cc

read-plain_content :
    (c : Option Content) (v : Json) → plain_content c ≡ ok v → read_content v ≡ some c
read-plain_content none v h = rw (← ok_injective null v h) refl
read-plain_content (some (text s)) v h = rw (← ok_injective (str s) v h) refl
read-plain_content (some (parts ps)) v h = cc

module _ (dumps : Fields → String) (loads : String → Option Json) where
  read-dump_calls :
      (fs : List FunctionCall)
      → All (λ f. loads (dumps f.arguments) ≡ some (obj f.arguments)) fs
      → read_calls loads (dump_calls dumps fs) ≡ some fs
  unfolding dump_calls lookup
  read-dump_calls [] a = refl
  read-dump_calls (f ∷ fs) (q, a) = rw (q, read-dump_calls fs a) refl

  read-build_message :
      (m : Message) (v : Json)
      → IsReadable dumps loads m
      → build_message dumps m ≡ ok v
      → read_message loads v ≡ some m
  unfolding build_message read_message lookup
  read-build_message (system_message c) v p h =
      let (w, q, e) = ok-bind _ (plain_content c) h in
      rw (← ok_injective _ v e, read-plain_content c w q) refl
  read-build_message (user_message none) v (p, a) h = cc
  read-build_message (user_message (some (text s))) v p h = rw (← ok_injective _ v h) refl
  read-build_message (user_message (some (parts ps))) v p h =
      let (ws, q, e) = ok-bind _ (dump_parts ps) h in
      rw (← ok_injective _ v e, read-dump_parts ps ws q) refl
  read-build_message (function_message c i) v p h =
      let (w, q, e) = ok-bind _ (plain_content c) h in
      rw (← ok_injective _ v e, read-plain_content c w q) refl
  read-build_message (assistant_message c none) v p h =
      let (w, q, e) = ok-bind _ (plain_content c) h in
      rw (← ok_injective _ v e, read-plain_content c w q) refl
  read-build_message (assistant_message none (some fs)) v (p, a) h =
      rw (← ok_injective _ v h, read-dump_calls fs a) refl
  read-build_message (assistant_message (some c) (some fs)) v (p, a) h = cc

  -- A conversation that is built for OpenAI can be read back from what is sent, message by message,
  -- if each message has a place in the format, as a user message with a content and a message that
  -- has function calls and no content, and if `json.loads` undoes `json.dumps` on the arguments of
  -- its calls.
  pub read_messages-build_messages :
      (ms : List Message) (vs : Items)
      → All (IsReadable dumps loads) ms
      → build_messages (build_message dumps) ms ≡ ok vs
      → read_messages loads vs ≡ some ms
  unfolding build_messages read_messages
  read_messages-build_messages [] vs p h = rw (← ok_injective nil vs h) refl
  read_messages-build_messages (m ∷ ms) vs (p, ps) h =
      let (v, q, h1) = ok-bind _ (build_message dumps m) h in
      let (ws, q', e) = ok-bind _ (build_messages (build_message dumps) ms) h1 in
      rw
        (
          ← ok_injective _ vs e,
          read-build_message m v p q,
          read_messages-build_messages ms ws ps q',
        )
        refl
