-- ===== src/Anthropic/Agreement.antt =====
-- Claude's answer in one piece and the same answer as a stream become the same completion; and a
-- call without arguments.
use Prim.Native.String as Text
use rtxag.Prelude.{ℕ, suc, String, ◌≡◌, refl, ◌∙◌, none, List, [], ◌∷◌, ◌++◌, map, append, false}
use rtxag.Prelude.Text.{append-nil}
use rtxag.Error.{Run, ok}
use rtxag.Json.{Json, str, arr, obj, nil, cons, field, end, lookup}
use rtxag.Json.Access.{get_key, item, first}
use rtxag.Message.{FinishReason}
use rtxag.Route.{Event, chunk}
use rtxag.Model.{
  Progress, started, stream_from, stream_completion, complete_from, finish, prepare_response,
  handle_response,
}
use rtxag.FunctionCall.Building.{Services, no_calls}
use rtxag.OpenAi.{stream_check_error}
use rtxag.OpenAi.Agreement.{ending, after}
use rtxag.Anthropic.{
  anthropic, extract_core_data, extract_text_content, extract_function_calls, extract_finish_reason,
  stream_extract_chunk_data, stream_extract_chunk, stream_extract_finish_reason, build_tool_uses,
}
use rtxag.Anthropic.Prepare.{text_block}

-- A piece of the text, the event with the reason why the answer stops, and a response in one piece.
abbrev pub text_delta : String → Json
text_delta s = obj (
    field "type" (str "content_block_delta")
      (field "delta" (obj (field "type" (str "text_delta") (field "text" (str s) end))) end))

abbrev pub stop_delta : String → Json
stop_delta reason = obj (
    field "type" (str "message_delta")
      (field "delta" (obj (field "stop_reason" (str reason) end)) end))

abbrev pub text_response : String → String → Json
text_response s reason =
    obj (field "content" (arr (cons (text_block s) nil)) (field "stop_reason" (str reason) end))

-- A chunk for each piece, also an empty one, numbered from an index on.
abbrev pub deltas_of : ℕ → ℕ → List String → List Event
deltas_of now i [] = []
deltas_of now i (s ∷ ss) =
    chunk (record { index = i; delta = s; created_timestamp = now }) ∷ deltas_of now (suc i) ss

abbrev pub joined : String → List String → String
joined s [] = s
joined s (t ∷ ts) = joined (append s t) ts

module _ (svc : Services) (n : ℕ) where
  abbrev loop : Progress → List Json → Run Event
  loop p ds = stream_from svc (anthropic svc) n p ds none

  abbrev at_text : ℕ → String → FinishReason → Progress
  at_text i s r = record {
    next_index = i;
    text_content = s;
    reason = r;
    calls_content = no_calls;
    empty_stream = false;
  }

  one_piece :
      (i : ℕ) (s t : String) (r : FinishReason) (ds : List Json)
      → loop (at_text i s r) (text_delta t ∷ ds)
        ≡ after
            (chunk (record { index = i; delta = t; created_timestamp = svc.now }) ∷ [])
            (loop (at_text (suc i) (append s t) FinishReason.unknown) ds)
  unfolding stream_from lookup get_key item first stream_check_error stream_extract_chunk
      stream_extract_chunk_data stream_extract_finish_reason
  one_piece i s t r ds = refl

  abbrev answered : Json → Run Event
  answered v = ending (complete_from svc (anthropic svc) n 200 "" (ok v))

  last_piece :
      (i : ℕ) (s reason : String) (r : FinishReason)
      → loop (at_text i s r) (stop_delta reason ∷ []) ≡ answered (text_response s reason)
  unfolding stream_from lookup get_key item first stream_check_error stream_extract_chunk
      stream_extract_chunk_data stream_extract_finish_reason complete_from handle_response
      extract_core_data extract_text_content extract_function_calls extract_finish_reason
      build_tool_uses finish prepare_response
  last_piece i Text.[] reason r = refl
  last_piece i (Text.◌∷◌ c s) reason r = rw (append-nil s) refl

  later_pieces :
      (i : ℕ) (s : String) (ts : List String) (reason : String) (r : FinishReason)
      → loop (at_text i s r) (map text_delta ts ++ stop_delta reason ∷ [])
        ≡ after (deltas_of svc.now i ts) (answered (text_response (joined s ts) reason))
  later_pieces i s [] reason r = last_piece i s reason r
  later_pieces i s (t ∷ ts) reason r =
      one_piece i s t r (map text_delta ts ++ stop_delta reason ∷ [])
      ∙ rw (later_pieces (suc i) (append s t) ts reason FinishReason.unknown) refl

  start_pieces :
      (ts : List String) (reason : String)
      → loop started (map text_delta ts ++ stop_delta reason ∷ [])
        ≡ loop (at_text 0 "" FinishReason.unknown) (map text_delta ts ++ stop_delta reason ∷ [])
  unfolding stream_from lookup get_key stream_check_error stream_extract_chunk_data
  start_pieces [] reason = refl
  start_pieces (t ∷ ts) reason = refl

  -- A text of Claude that is streamed, in any number of pieces and a last event with the reason why
  -- it stops, gives a chunk for each piece, numbered from 0, and ends as the response in one piece
  -- with the joined text and the same reason: with the same completion, or the same exception where
  -- there is no text.
  pub stream_completion-text_response :
      (ts : List String) (reason body : String)
      → stream_completion svc
          (anthropic svc)
          n
          200
          body
          (record { yielded = map text_delta ts ++ stop_delta reason ∷ []; ended = none })
        ≡ after (deltas_of svc.now 0 ts) (
            ending (
              complete_from svc
                (anthropic svc)
                n
                200
                body
                (ok (text_response (joined "" ts) reason))))
  unfolding stream_completion handle_response complete_from extract_core_data
  stream_completion-text_response ts reason body =
      start_pieces ts reason ∙ later_pieces 0 "" ts reason FinishReason.unknown
