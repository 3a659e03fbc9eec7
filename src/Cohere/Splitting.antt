-- ===== src/Cohere/Splitting.antt =====
-- What is sent to Cohere of a conversation that ends in a text of the user, or in the answer of a
-- function.
use rtxag.Prelude.{String, ◌≡◌, refl, some, List, [], ◌∷◌, ◌++◌}
use rtxag.Error.{ok, ok_injective}
use rtxag.Json.{Items, nil, str, lookup}
use rtxag.Json.Access.{item}
use rtxag.Message.{Message, user_message, text}
use rtxag.Payload.{build_messages}
use rtxag.Cohere.{build_cohere_message, with_last, split_messages}

with_last-append :
    (m : Message) (ms : List Message) (n : Message) → with_last m (ms ++ (n ∷ [])) ≡ (m ∷ ms, n)
with_last-append m [] n = refl
with_last-append m (k ∷ ks) n = rw (with_last-append k ks n) refl

-- A conversation that ends in a text of the user is sent with this text as the message, and with all
-- the messages before it as the history, in their order.
pub split_messages-user :
    (ms : List Message) (s : String) (vs : Items)
    → build_messages build_cohere_message ms ≡ ok vs
    → split_messages (ms ++ (user_message (some (text s)) ∷ [])) ≡ ok (str s, vs)
unfolding split_messages build_messages build_cohere_message item lookup
split_messages-user [] s vs h = rw (← ok_injective nil vs h) refl
split_messages-user (m ∷ ms) s vs h =
    rw (with_last-append m ms (user_message (some (text s)))) (rw h refl)
