-- ===== src/Gemini/Agreement.antt =====
-- Gemini's answer in one piece and the same answer as a stream become the same completion.
use Prim.Native.String as Text
use rtxag.Prelude.{
  ℕ, suc, String, ◌≡◌, refl, ◌∙◌, none, List, [], ◌∷◌, ◌++◌, map, append, false, nonempty,
  if◌then◌else◌,
}
use rtxag.Prelude.Text.{append-nil}
use rtxag.Error.{Run, ok}
use rtxag.Json.{Json, Fields, str, arr, obj, nil, cons, field, end, lookup}
use rtxag.Json.Access.{get_key, first}
use rtxag.Message.{FinishReason}
use rtxag.Route.{Event, chunk}
use rtxag.Model.{
  Progress, started, stream_from, stream_completion, complete_from, finish, prepare_response,
  handle_response,
}
use rtxag.FunctionCall.Building.{Services, no_calls}
use rtxag.OpenAi.{stream_check_error}
use rtxag.OpenAi.Agreement.{ending, after, pieces_of}
use rtxag.Gemini.{
  gemini, extract_core_data, extract_text_content, extract_function_calls, extract_finish_reason,
  stream_extract_chunk_data, stream_extract_chunk, stream_handle_function_calls,
  stream_extract_finish_reason,
}

abbrev with_text : String → Fields → Json
with_text s rest = obj (
    field "candidates"
      (arr (
        cons
          (obj (
            field "content"
              (obj (field "parts" (arr (cons (obj (field "text" (str s) end)) nil)) end)) rest))
          nil))
      end)

-- A piece of the text, the event with the finish reason, and a response in one piece.
abbrev pub text_event : String → Json
text_event s = with_text s end

abbrev pub last_event : String → Json
last_event reason = with_text "" (field "finishReason" (str reason) end)

abbrev pub text_response : String → String → Json
text_response s reason = with_text s (field "finishReason" (str reason) end)

abbrev pub joined : String → List String → String
joined s [] = s
joined s (t ∷ ts) = joined (append s t) ts

module _ (svc : Services) (dumps : Json → String) (n : ℕ) where
  abbrev loop : Progress → List Json → Run Event
  loop p ds = stream_from svc (gemini svc dumps) n p ds none

  abbrev at_text : ℕ → String → Progress
  at_text i s = record {
    next_index = i;
    text_content = s;
    reason = FinishReason.unknown;
    calls_content = no_calls;
    empty_stream = false;
  }

  one_piece :
      (i : ℕ) (s t : String) (ds : List Json)
      → loop (at_text i s) (text_event t ∷ ds) ≡ (
          if nonempty t
          then after
              (chunk (record { index = i; delta = t; created_timestamp = svc.now }) ∷ [])
              (loop (at_text (suc i) (append s t)) ds)
          else loop (at_text i s) ds)
  unfolding stream_from lookup get_key first stream_check_error stream_extract_chunk
      stream_extract_chunk_data stream_handle_function_calls stream_extract_finish_reason
  one_piece i s Text.[] ds = rw (append-nil s) refl
  one_piece i s (Text.◌∷◌ c t) ds = refl

  abbrev answered : Json → Run Event
  answered v = ending (complete_from svc (gemini svc dumps) n 200 "" (ok v))

  last_piece :
      (i : ℕ) (s reason : String)
      → loop (at_text i s) (last_event reason ∷ []) ≡ answered (text_response s reason)
  unfolding stream_from lookup get_key first stream_check_error stream_extract_chunk
      stream_extract_chunk_data stream_handle_function_calls stream_extract_finish_reason
      complete_from handle_response extract_core_data extract_text_content extract_function_calls
      extract_finish_reason finish prepare_response
  last_piece i Text.[] Text.[] = refl
  last_piece i Text.[] (Text.◌∷◌ d reason) = refl
  last_piece i (Text.◌∷◌ c s) Text.[] = rw (append-nil s) refl
  last_piece i (Text.◌∷◌ c s) (Text.◌∷◌ d reason) = rw (append-nil s) refl

  later_pieces :
      (i : ℕ) (s : String) (ts : List String) (reason : String)
      → loop (at_text i s) (map text_event ts ++ last_event reason ∷ [])
        ≡ after (pieces_of svc.now i ts) (answered (text_response (joined s ts) reason))
  later_pieces i s [] reason = last_piece i s reason
  later_pieces i s (Text.[] ∷ ts) reason =
      one_piece i s "" (map text_event ts ++ last_event reason ∷ [])
      ∙ rw (later_pieces i s ts reason, append-nil s) refl
  later_pieces i s (Text.◌∷◌ c t ∷ ts) reason =
      one_piece i s (Text.◌∷◌ c t) (map text_event ts ++ last_event reason ∷ [])
      ∙ rw (later_pieces (suc i) (append s (Text.◌∷◌ c t)) ts reason) refl

  start_pieces :
      (ts : List String) (reason : String)
      → loop started (map text_event ts ++ last_event reason ∷ [])
        ≡ loop (at_text 0 "") (map text_event ts ++ last_event reason ∷ [])
  unfolding stream_from lookup get_key first stream_check_error stream_extract_chunk_data
  start_pieces [] reason = refl
  start_pieces (t ∷ ts) reason = refl

  -- A text of Gemini that is streamed, in any number of pieces and a last event with the finish
  -- reason, gives a chunk for each piece that is not empty, numbered from 0, and ends as the response
  -- in one piece with the joined text and the same finish reason: with the same completion, or the
  -- same exception where there is no text.
  pub stream_completion-gemini :
      (ts : List String) (reason body : String)
      → stream_completion svc
          (gemini svc dumps)
          n
          200
          body
          (record { yielded = map text_event ts ++ last_event reason ∷ []; ended = none })
        ≡ after (pieces_of svc.now 0 ts) (
            ending (
              complete_from svc
                (gemini svc dumps)
                n
                200
                body
                (ok (text_response (joined "" ts) reason))))
  unfolding stream_completion handle_response complete_from extract_core_data
  stream_completion-gemini ts reason body = start_pieces ts reason ∙ later_pieces 0 "" ts reason
