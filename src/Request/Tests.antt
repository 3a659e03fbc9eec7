-- ===== src/Request/Tests.antt =====
-- The validators on small conversations, and the theorems about them at such inputs.
use rtxag.Prelude.{
  String, ◌≡◌, refl, ◌≢◌, ◌↔◌, true, false, none, some, List, [], ◌∷◌, ◌++◌, contains,
}
use rtxag.Error.{ok}
use rtxag.Json.{Fields}
use rtxag.Message.{
  text, parts, Part, Message, system_message, user_message, assistant_message, function_message,
}
use rtxag.Request.{MessageData, validate_messages}
use rtxag.Request.Calls.{called, answered, Conforms, Covered}
use rtxag.Request.Merging.{runs}
use rtxag.Request.Validation.{SystemFirst, validate_messages-Conforms, validate_messages_lem}
use rtxag.Request.Turns.{
  Alternates, validate_messages-Alternates, text_after_calls, function_message_answers,
}

abbrev says : String → Message
says s = user_message (some (text s))

abbrev replies : String → Message
replies s = assistant_message (some (text s)) none

abbrev asks : String → Message
asks i = assistant_message none (some (record { id = i; name = "f"; arguments = Fields.end } ∷ []))

abbrev answers : String → Message
answers i = function_message (some (text "42")) i

abbrev dialogue : List Message
dialogue = system_message (some (text "s")) ∷ says "a" ∷ says "b" ∷ asks "1" ∷ answers "1" ∷ []

abbrev dialogue_runs : List Message
dialogue_runs = system_message (some (text "s")) ∷ says "a\n\nb" ∷ asks "1" ∷ answers "1" ∷ []

dialogue_valid : validate_messages dialogue ≡ ok dialogue_runs
unfolding validate_messages
dialogue_valid = refl

multimodal_merge :
    validate_messages (user_message (some (parts (Part.text_part "x" ∷ []))) ∷ says "" ∷ [])
    ≡ ok (
        user_message (some (parts (Part.text_part "x" ∷ Part.letter "\n" ∷ Part.letter "\n" ∷ [])))
        ∷ [])
unfolding validate_messages
multimodal_merge = refl

abbrev assistant_data : MessageData
assistant_data = record {
  role = some "assistant";
  content = some (text "hi");
  function_calls = none;
  id = none;
}

validate_messages-Conforms_example :
    SystemFirst dialogue × Conforms [] [] dialogue × Covered (called dialogue) (answered dialogue)
validate_messages-Conforms_example =
    validate_messages-Conforms dialogue dialogue_runs dialogue_valid

validate_messages_lem_example : (validate_messages dialogue ≡ ok dialogue_runs) ↔ (
    SystemFirst dialogue
    × Conforms [] [] dialogue
    × Covered (called dialogue) (answered dialogue)
    × (dialogue_runs ≡ runs dialogue))
validate_messages_lem_example =
    validate_messages_lem dialogue (tt, (tt, (tt, (tt, (tt, tt))))) (tt, (tt, (tt, (tt, (tt, tt)))))
      dialogue_runs

validate_messages-Alternates_example : Alternates dialogue_runs
validate_messages-Alternates_example =
    validate_messages-Alternates dialogue (tt, (tt, (tt, (tt, (tt, tt)))))
      (tt, (tt, (tt, (tt, (tt, tt))))) dialogue_runs dialogue_valid

text_after_calls_example :
    validate_messages ((asks "1" ∷ answers "1" ∷ []) ++ says "thanks" ∷ []) ≢ ok []
text_after_calls_example =
    text_after_calls (asks "1" ∷ answers "1" ∷ []) (says "thanks") [] refl (λ e. cc e) []

function_message_answers_example :
    (contains "1" (called (says "a" ∷ asks "1" ∷ [])) ≡ true)
    × (contains "1" (answered (says "a" ∷ asks "1" ∷ [])) ≡ false)
unfolding validate_messages
function_message_answers_example =
    function_message_answers (says "a" ∷ asks "1" ∷ []) (some (text "42")) "1" []
      (says "a" ∷ asks "1" ∷ answers "1" ∷ []) refl
