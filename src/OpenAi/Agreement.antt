-- ===== src/OpenAi/Agreement.antt =====
-- An answer in one piece and the same answer as a stream become the same completion.
use Prim.Native.String as Text
use rtxag.Prelude.{
  ℕ, suc, String, ◌≡◌, refl, ◌∙◌, false, Option, none, some, List, [], ◌∷◌, ◌++◌, map, append,
  concat, nonempty, ◌⊎◌, inl, inr, Bool-cases, ◌==◌, if◌then◌else◌,
}
use rtxag.Prelude.Text.{append-nil}
use rtxag.Error.{ErrorCode, Exception, http_error, Run, Result, ok, err}
use rtxag.Json.{Json, Fields, str, arr, obj, nil, cons, field, end, lookup}
use rtxag.Json.Access.{get_key, first}
use rtxag.Message.{FinishReason, ChatCompletion}
use rtxag.Route.{Event, chunk, completion}
use rtxag.Model.{
  Progress, started, stream_from, stream_completion, complete_from, finish, prepare_response,
  handle_response,
}
use rtxag.FunctionCall.Building.{Services, no_calls}
use rtxag.OpenAi.{
  compatible, first_choice, stream_check_error, stream_extract_chunk, stream_handle_function_calls,
  stream_extract_finish_reason, extract_text_content, extract_function_calls, extract_finish_reason,
  text_reason, reason_of,
}

-- {"choices": [choice]}
abbrev pub with_choice : Fields → Json
with_choice choice = obj (field "choices" (arr (cons (obj choice) nil)) end)

-- The event with a piece of the text, the last event, and the response in one piece.
abbrev pub text_event : String → Json
text_event s = with_choice (field "delta" (obj (field "content" (str s) end)) end)

abbrev pub last_event : String → Json
last_event reason = with_choice (field "delta" (obj end) (field "finish_reason" (str reason) end))

abbrev pub text_answer : String → String → Json
text_answer s reason =
    with_choice
      (field "message" (obj (field "content" (str s) end)) (field "finish_reason" (str reason) end))

-- A run that ends as a call does.
abbrev pub ending : Result ChatCompletion → Run Event
ending (ok c) = record { yielded = completion c ∷ []; ended = none }
ending (err e) = record { yielded = []; ended = some e }

abbrev pub after : List Event → Run Event → Run Event
after es run = record { yielded = es ++ run.yielded; ended = run.ended }

-- The chunks for the pieces, numbered from an index on; an empty piece gives none.
abbrev pub pieces_of : ℕ → ℕ → List String → List Event
pieces_of now i [] = []
pieces_of now i (s ∷ ss) =
    let rest = pieces_of now i ss in
    let later = pieces_of now (suc i) ss in
    if nonempty s
    then chunk (record { index = i; delta = s; created_timestamp = now }) ∷ later
    else rest

reason_read :
    (filtered : Option String) (reason : String)
    → ((e : Exception) × (text_reason filtered reason ≡ err e))
      ⊎ ((r : FinishReason) × (text_reason filtered reason ≡ ok (some r)))
reason_read none reason = inr (reason_of reason, refl)
reason_read (some said) reason = elim (Bool-cases (reason == "content_filter")) [
  | inl q ↦ inl (
    http_error ErrorCode.provider_error
        (concat ("Error on calling provider model API: " ∷ said ∷ [])),
    rw q refl,
  )
  | inr q ↦ inr (reason_of reason, rw q refl)
]

no_reason : (filtered : Option String) → text_reason filtered "" ≡ ok (some FinishReason.unknown)
no_reason none = refl
no_reason (some said) = refl

module _ (svc : Services) (filtered : Option String) (n : ℕ) where
  abbrev loop : Progress → List Json → Run Event
  loop p ds = stream_from svc (compatible svc filtered) n p ds none

  abbrev at_text : ℕ → String → Progress
  at_text i s = record {
    next_index = i;
    text_content = s;
    reason = FinishReason.unknown;
    calls_content = no_calls;
    empty_stream = false;
  }

  one_piece :
      (i : ℕ) (s t : String) (ds : List Json)
      → loop (at_text i s) (text_event t ∷ ds) ≡ (
          if nonempty t
          then after
              (chunk (record { index = i; delta = t; created_timestamp = svc.now }) ∷ [])
              (loop (at_text (suc i) (append s t)) ds)
          else loop (at_text i s) ds)
  unfolding stream_from lookup get_key first first_choice stream_check_error stream_extract_chunk
      stream_handle_function_calls stream_extract_finish_reason
  one_piece i s Text.[] ds = rw (append-nil s) refl
  one_piece i s (Text.◌∷◌ c t) ds = refl

  abbrev answered : Json → Run Event
  answered v = ending (complete_from svc (compatible svc filtered) n 200 "" (ok v))

  last_piece :
      (i : ℕ) (s reason : String)
      → loop (at_text i s) (last_event reason ∷ []) ≡ answered (text_answer s reason)
  unfolding stream_from lookup get_key first first_choice stream_check_error stream_extract_chunk
      stream_handle_function_calls stream_extract_finish_reason complete_from handle_response
      extract_text_content extract_function_calls extract_finish_reason finish prepare_response
  last_piece i Text.[] Text.[] = rw (no_reason filtered) refl
  last_piece i (Text.◌∷◌ c s) Text.[] = rw (no_reason filtered, append-nil s) refl
  last_piece i Text.[] (Text.◌∷◌ d r) = elim (reason_read filtered (Text.◌∷◌ d r)) [
    | inl (e, q) ↦ rw q refl
    | inr (o, q) ↦ rw q refl
  ]
  last_piece i (Text.◌∷◌ c s) (Text.◌∷◌ d r) = elim (reason_read filtered (Text.◌∷◌ d r)) [
    | inl (e, q) ↦ rw q refl
    | inr (o, q) ↦ rw (q, append-nil s) refl
  ]

  abbrev joined : String → List String → String
  joined s [] = s
  joined s (t ∷ ts) = joined (append s t) ts

  later_pieces :
      (i : ℕ) (s : String) (ts : List String) (reason : String)
      → loop (at_text i s) (map text_event ts ++ last_event reason ∷ [])
        ≡ after (pieces_of svc.now i ts) (answered (text_answer (joined s ts) reason))
  later_pieces i s [] reason = last_piece i s reason
  later_pieces i s (Text.[] ∷ ts) reason =
      one_piece i s "" (map text_event ts ++ last_event reason ∷ [])
      ∙ rw (later_pieces i s ts reason, append-nil s) refl
  later_pieces i s (Text.◌∷◌ c t ∷ ts) reason =
      one_piece i s (Text.◌∷◌ c t) (map text_event ts ++ last_event reason ∷ [])
      ∙ rw (later_pieces (suc i) (append s (Text.◌∷◌ c t)) ts reason) refl

  -- the first event finds an empty stream
  first_event :
      (d : Fields) (ds : List Json)
      → loop started (with_choice d ∷ ds) ≡ loop (at_text 0 "") (with_choice d ∷ ds)
  unfolding stream_from lookup get_key first first_choice stream_check_error
  first_event d ds = refl

  start_pieces :
      (ts : List String) (reason : String)
      → loop started (map text_event ts ++ last_event reason ∷ [])
        ≡ loop (at_text 0 "") (map text_event ts ++ last_event reason ∷ [])
  start_pieces [] reason = first_event _ []
  start_pieces (t ∷ ts) reason = first_event _ (map text_event ts ++ last_event reason ∷ [])

  -- For every provider with OpenAI's responses: an answer that is streamed, in any number of pieces
  -- and a last event with the finish reason, gives a chunk for each piece that is not empty, numbered
  -- from 0, and ends as the answer in one piece with the joined text and the same finish reason: with
  -- the same completion, or the same exception where there is no text or the filter was triggered.
  pub stream_completion-complete_from :
      (ts : List String) (reason body : String)
      → stream_completion svc
          (compatible svc filtered)
          n
          200
          body
          (record { yielded = map text_event ts ++ last_event reason ∷ []; ended = none })
        ≡ after (pieces_of svc.now 0 ts) (
            ending (
              complete_from svc
                (compatible svc filtered)
                n
                200
                body
                (ok (text_answer (joined "" ts) reason))))
  unfolding stream_completion handle_response complete_from first_choice
  stream_completion-complete_from ts reason body =
      start_pieces ts reason ∙ later_pieces 0 "" ts reason
