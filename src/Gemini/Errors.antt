-- ===== src/Gemini/Errors.antt =====
-- Two kinds of requests and answers that always fail with Gemini.
use Prim.Native.String as Text
use rtxag.Prelude.{
  ℕ, String, Char, ◌≡◌, refl, Option, some, List, [], ◌∷◌, ◌++◌, Bool, true, false, inl, inr,
  if◌then◌else◌,
}
use rtxag.Error.{Exception, Result, Result-cases, Kind, raised, ok, err}
use rtxag.Json.{Json, Fields, str, arr, obj, nil, cons, field, end, lookup}
use rtxag.Json.Access.{get_key, first, item}
use rtxag.Message.{
  Message, text, parts, Part, text_part, image_url, letter, system_message, user_message,
}
use rtxag.Addresses.{check_valid_list_content, is_valid_data_uri}
use rtxag.Payload.{Prompt, build_messages}
use rtxag.Gemini.Prepare.{build_payload, merge_system, join_content, functions_map, format_message}
use rtxag.Request.{letters}
use rtxag.FunctionCall.Building.{Services}
use rtxag.Model.{started, stream_from}
use rtxag.OpenAi.{stream_check_error}
use rtxag.Gemini.{
  gemini, stream_extract_chunk_data, stream_extract_chunk, stream_handle_function_calls,
  stream_extract_finish_reason, first_part, add_function_call,
}

either_raises {ℓ} :
    {A : Type ℓ} (b : Bool) (r : Result A) (x : Exception)
    → (e : Exception) × (r ≡ err e)
    → (e : Exception) × ((if b then r else err x) ≡ err e)
either_raises true r x h = h
either_raises false r x h = (x, refl)

-- The check of a list with a letter in it raises, whatever stands before the letter.
letter_refused :
    (ps : List Part) (c : Char) (qs : List Part)
    → (e : Exception) × (check_valid_list_content (ps ++ letter c ∷ qs) ≡ err e)
unfolding check_valid_list_content
letter_refused [] c qs = (_, refl)
letter_refused (text_part s ∷ ps) c qs = letter_refused ps c qs
letter_refused (image_url u ∷ ps) c qs =
    either_raises (is_valid_data_uri u) (check_valid_list_content (ps ++ letter c ∷ qs)) _
      (letter_refused ps c qs)
letter_refused (letter d ∷ ps) c qs = (_, refl)

-- A system message with a text before a user message with a list content: the text is added to the
-- list letter by letter, and no payload is built, whatever the list is and whatever messages follow;
-- an exception is raised.
pub build_payload-letters :
    (p : Prompt) (c : Char) (s : String) (ps : List Part) (ms : List Message)
    → p.messages ≡ system_message (some (text (Text.◌∷◌ c s))) ∷ user_message (some (parts ps)) ∷ ms
    → (merge_system p.messages
        ≡ ok (user_message (some (parts (ps ++ letters (Text.◌∷◌ c s)))) ∷ ms))
      × ((e : Exception) × (build_payload p ≡ err e))
unfolding build_payload merge_system join_content build_messages format_message functions_map
build_payload-letters p c s ps ms h = (
  rw h refl,
  elim (Result-cases (functions_map ms [])) [
    | inl (e, q) ↦ (e, rw (h, q) refl)
    | inr (names, q) ↦ let (e, r) = letter_refused ps c (letters s) in (e, rw (h, q, r) refl)
  ],
)

-- An event with a function call.
abbrev pub call_event : String → Fields → Json
call_event name args = obj (
    field "candidates"
      (arr (
        cons
          (obj (
            field "content"
              (obj (
                field "parts"
                  (arr (
                    cons
                      (obj (
                        field "functionCall"
                          (obj (field "name" (str name) (field "args" (obj args) end))) end))
                      nil))
                  end))
              end))
          nil))
      end)

-- A stream in which Gemini calls two functions, one per event, ends with a TypeError at the second
-- call, before anything is sent: the arguments of the second are added to those of the first.
pub stream_from-second_call :
    (svc : Services) (dumps : Json → String) (n : ℕ) (f g : String) (a b : Fields) (ds : List Json)
    (last : Option Exception)
    → stream_from svc (gemini svc dumps) n started (call_event f a ∷ call_event g b ∷ ds) last
      ≡ record {
        yielded = [];
        ended =
            some (raised Kind.type_error "unsupported operand type(s) for +=: 'dict' and 'dict'");
      }
unfolding stream_from lookup get_key first item stream_check_error stream_extract_chunk
    stream_extract_chunk_data stream_handle_function_calls stream_extract_finish_reason first_part
    add_function_call
stream_from-second_call svc dumps n f g a b ds last = refl
