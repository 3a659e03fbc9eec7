-- ===== src/OpenAi/Calls.antt =====
-- Function calls in one piece and the same calls as a stream become the same completion.
use rtxag.Prelude.{
  ℕ, suc, String, ◌≡◌, refl, ◌∙◌, sym, Option, none, some, List, [], ◌∷◌, ◌++◌, map, length, All,
  false, ap, append_assoc,
}
use mathlib.Core.Path.{subst}
use rtxag.Error.{Run, Result, err, ok, ◌>>=◌, ok-bind, ok_injective}
use rtxag.Json.{Json, Items, str, arr, obj, nil, cons, field, end, lookup}
use rtxag.Json.Access.{get_key, item, first}
use rtxag.Message.{FinishReason, FunctionCall, ChatCompletion}
use rtxag.Route.{Event, completion}
use rtxag.Model.{
  Progress, started, stream_from, stream_completion, complete_from, finish, prepare_response,
  handle_response, calls_response, unless_raised,
}
use rtxag.FunctionCall.Building.{
  CallsContent, Services, no_calls, build_calls, build_function_call, item_if_any, nth,
}
use rtxag.OpenAi.{
  compatible, first_choice, stream_check_error, stream_extract_chunk, stream_handle_function_calls,
  stream_extract_finish_reason, extract_text_content, extract_function_calls, extract_finish_reason,
  build_tool_calls, read_tool_calls, text_reason,
}
use rtxag.OpenAi.Assembly.{
  SentCall, delta, piece_chunk, all_chunks, read_chunks, arguments_of, name_of, before, one_more,
  read_chunks-all_chunks,
}
use rtxag.OpenAi.Agreement.{last_event, ending}

abbrev pub event_of : Json → Json
event_of d = obj (field "choices" (arr (cons d nil)) end)

-- A call as it stands in a response in one piece.
abbrev pub whole_call : SentCall → Json
whole_call c = obj (
    field "function"
      (obj (field "name" (str (name_of c)) (field "arguments" (str (arguments_of c)) end))) end)

abbrev pub whole_calls : List SentCall → Items
whole_calls [] = nil
whole_calls (c ∷ cs) = cons (whole_call c) (whole_calls cs)

abbrev calls_choice : List SentCall → Json
calls_choice cs = obj (
    field "message" (obj (field "tool_calls" (arr (whole_calls cs)) end))
      (field "finish_reason" (str "tool_calls") end))

abbrev pub calls_answer : List SentCall → Json
calls_answer cs = event_of (calls_choice cs)

abbrev content_after : List SentCall → CallsContent
content_after cs = record {
  index = before (length cs);
  arguments_strs = map arguments_of cs;
  arguments_dicts = [];
  names = map name_of cs;
}

abbrev IsCall : Json → Type 0
IsCall d = (call : Json) × (d ≡ delta call)

pieces-IsCall :
    (i : ℕ) (ss : List String) (ds : List Json)
    → All IsCall ds
    → All IsCall (map (piece_chunk i) ss ++ ds)
pieces-IsCall i [] ds a = a
pieces-IsCall i (s ∷ ss) ds a = ((_, refl), pieces-IsCall i ss ds a)

all_chunks-IsCall : (i : ℕ) (cs : List SentCall) → All IsCall (all_chunks i cs)
all_chunks-IsCall i [] = tt
all_chunks-IsCall i (c ∷ cs) =
    ((_, refl), pieces-IsCall i c.pieces (all_chunks (suc i) cs) (all_chunks-IsCall (suc i) cs))

reason_calls :
    (filtered : Option String)
    → text_reason filtered "tool_calls" ≡ ok (some FinishReason.function_calls)
reason_calls none = refl
reason_calls (some said) = refl

module _ (svc : Services) (filtered : Option String) (n : ℕ) where
  abbrev loop : Progress → List Json → Run Event
  loop p ds = stream_from svc (compatible svc filtered) n p ds none

  abbrev at_calls : CallsContent → Progress
  at_calls c = record {
    next_index = 0;
    text_content = "";
    reason = FinishReason.unknown;
    calls_content = c;
    empty_stream = false;
  }

  one_chunk :
      (c c' : CallsContent) (o : Option CallsContent) (call : Json) (ds : List Json)
      → stream_handle_function_calls (delta call) c ≡ ok (o, c')
      → loop (at_calls c) (event_of (delta call) ∷ ds) ≡ loop (at_calls c') ds
  unfolding stream_from lookup get_key first first_choice stream_check_error stream_extract_chunk
      stream_handle_function_calls stream_extract_finish_reason read_tool_calls
  one_chunk c c' o call ds h =
      let (d, q, e) = ok-bind _ (read_tool_calls c (arr (cons call nil))) h in
      rw (q, ap (λ x. x.1) (ok_injective (some d, d) (o, c') e)) refl

  read_loop :
      (c c' : CallsContent) (ds rest : List Json)
      → All IsCall ds
      → read_chunks c ds ≡ ok c'
      → loop (at_calls c) (map event_of ds ++ rest) ≡ loop (at_calls c') rest
  unfolding read_chunks
  read_loop c c' [] rest a h = rw (ok_injective c c' h) refl
  read_loop c c' (d ∷ ds) rest ((call, q), a) h =
      let ((o, c1), e, later) =
        ok-bind _ (stream_handle_function_calls (delta call) c)
          (subst (λ x. read_chunks c (x ∷ ds) ≡ ok c') q h) in
      rw q (one_chunk c c1 o call (map event_of ds ++ rest) e) ∙ read_loop c1 c' ds rest a later

  nth-append :
      (xs : List String) (s : String) (ys : List String)
      → nth svc (length xs) (xs ++ s ∷ ys) ≡ some s
  nth-append [] s ys = refl
  nth-append (x ∷ xs) s ys = nth-append xs s ys

  item-append :
      (xs : List String) (s : String) (ys : List String)
      → item_if_any svc (length xs) (xs ++ s ∷ ys) ≡ ok (some s)
  item-append [] s ys = refl
  item-append (x ∷ xs) s ys = rw (nth-append xs s ys) refl

  item_at :
      (zs xs : List String) (s : String) (ys : List String) (i : ℕ)
      → zs ≡ xs ++ s ∷ ys
      → length xs ≡ i
      → item_if_any svc i zs ≡ ok (some s)
  item_at zs xs s ys i q p = rw (q, sym p) (item-append xs s ys)

  build_same :
      (c : CallsContent) (xs : List String) (cs : List SentCall) (i : ℕ)
      → length xs ≡ i
      → c.arguments_strs ≡ xs ++ map arguments_of cs
      → c.arguments_dicts ≡ []
      → build_calls svc c i (map name_of cs) ≡ build_tool_calls svc i (whole_calls cs)
  unfolding build_calls build_tool_calls item lookup
  build_same c xs [] i p q r = refl
  build_same c xs (x ∷ cs) i p q r =
      rw
        (
          item_at c.arguments_strs xs (arguments_of x) (map arguments_of cs) i q p,
          r,
          build_same c (xs ++ arguments_of x ∷ []) cs (suc i) (one_more xs (arguments_of x) i p)
              (q ∙ sym (append_assoc xs (arguments_of x ∷ []) (map arguments_of cs))) r,
        )
        refl

  abbrev by_calls : List FunctionCall → Result ChatCompletion
  by_calls fs = calls_response svc fs n

  abbrev by_answer : Option (List FunctionCall) → Result ChatCompletion
  by_answer fs = prepare_response svc FinishReason.function_calls none none fs n

  both_end :
      (b : Result FunctionCall) (bs : Result (List FunctionCall))
      → unless_raised svc
          ((b >>= λ f. bs >>= λ fs. ok (f ∷ fs)) >>= by_calls)
          (λ c. record { yielded = completion c ∷ []; ended = none })
        ≡ ending (((b >>= λ f. bs >>= λ fs. ok (f ∷ fs)) >>= λ fs. ok (some fs)) >>= by_answer)
  unfolding prepare_response
  both_end (err e) bs = refl
  both_end (ok f) (err e) = refl
  both_end (ok f) (ok fs) = refl

  last_call :
      (c : CallsContent) (x : SentCall) (cs : List SentCall)
      → c.names ≡ map name_of (x ∷ cs)
      → c.arguments_strs ≡ map arguments_of (x ∷ cs)
      → c.arguments_dicts ≡ []
      → loop (at_calls c) (last_event "tool_calls" ∷ [])
        ≡ ending (complete_from svc (compatible svc filtered) n 200 "" (ok (calls_answer (x ∷ cs))))
  unfolding stream_from lookup get_key first first_choice stream_check_error stream_extract_chunk
      stream_handle_function_calls stream_extract_finish_reason complete_from handle_response
      extract_text_content extract_function_calls extract_finish_reason finish prepare_response
  last_call c x cs p q r =
      rw (reason_calls filtered, p, build_same c [] (x ∷ cs) 0 refl q r)
        (both_end (build_function_call svc 0 (name_of x) (some (arguments_of x)) none)
          (build_tool_calls svc 1 (whole_calls cs)))

  last_calls :
      (cs : List SentCall)
      → loop (at_calls (content_after cs)) (last_event "tool_calls" ∷ [])
        ≡ ending (complete_from svc (compatible svc filtered) n 200 "" (ok (calls_answer cs)))
  unfolding stream_from lookup get_key first first_choice stream_check_error stream_extract_chunk
      stream_handle_function_calls stream_extract_finish_reason complete_from handle_response
      extract_text_content extract_function_calls extract_finish_reason finish prepare_response
  last_calls [] = rw (reason_calls filtered) refl
  last_calls (x ∷ cs) = last_call (content_after (x ∷ cs)) x cs refl refl refl

  abbrev call_events : List SentCall → List Json
  call_events cs = map event_of (all_chunks 0 cs) ++ last_event "tool_calls" ∷ []

  from_started :
      (cs : List SentCall)
      → loop started (call_events cs) ≡ loop (at_calls no_calls) (call_events cs)
  unfolding stream_from lookup get_key first first_choice stream_check_error
  from_started [] = refl
  from_started (c ∷ cs) = refl

  -- For every provider with OpenAI's responses: function calls that are streamed one after the
  -- other, each in any number of pieces, and followed by the finish reason "tool_calls", end as the
  -- response with the same calls in one piece: with the same completion, or with the same exception,
  -- for instance where the arguments of a call do not parse or there is no call. Nothing is sent
  -- before that.
  pub stream_completion_calls :
      (cs : List SentCall) (body : String)
      → stream_completion svc
          (compatible svc filtered)
          n
          200
          body
          (record { yielded = call_events cs; ended = none })
        ≡ ending (complete_from svc (compatible svc filtered) n 200 body (ok (calls_answer cs)))
  unfolding stream_completion handle_response complete_from first_choice
  stream_completion_calls cs body =
      from_started cs
      ∙ read_loop no_calls (content_after cs) (all_chunks 0 cs) (last_event "tool_calls" ∷ [])
          (all_chunks-IsCall 0 cs) (read_chunks-all_chunks cs)
      ∙ last_calls cs
