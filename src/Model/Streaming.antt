-- ===== src/Model/Streaming.antt =====
-- What a stream of chunks yields: chunks, and at its end either one completion, whose text is that of
-- the chunks, or an exception.
use Prim.Native.String as Text
use rtxag.Prelude.{
  ℕ, String, ◌≡◌, ◌⊎◌, inl, inr, refl, ap, Option, none, some, List, [], ◌∷◌, ◌++◌, map, append,
  Bool-cases,
}
use rtxag.Prelude.Text.{append-nil}
use rtxag.Error.{Exception, Result, ok, err, Run}
use rtxag.Json.{Json}
use rtxag.Message.{ChatCompletion, ChatCompletionChunk}
use rtxag.Route.{Event, chunk, completion}
use rtxag.Model.{
  ChatModel, Progress, started, unless_raised, yielding, delta_of, with_data, finish, stream_from,
  stream_completion, prepare_response, handle_response,
}
use rtxag.FunctionCall.Building.{Services}
use rtxag.Model.Response.{Answers, prepare_response-Answers}

append_text_assoc : (s t u : String) → append (append s t) u ≡ append s (append t u)
append_text_assoc Text.[] t u = refl
append_text_assoc (Text.◌∷◌ c s) t u = ap (Text.◌∷◌ c) (append_text_assoc s t u)

-- The texts of the chunks, one after the other.
abbrev pub deltas : List ChatCompletionChunk → String
deltas [] = ""
deltas (c ∷ cs) = append c.delta (deltas cs)

-- How a run ends that has read a text so far: it yields chunks, and then it raises, or yields one
-- completion for the whole text.
abbrev pub Ends : String → Run Event → Type 0
Ends t run =
    (chunks : List ChatCompletionChunk) × (((e : Exception) × (run
          ≡ record { yielded = map chunk chunks; ended = some e }))
      ⊎ ((r : ChatCompletion) × (run
            ≡ record { yielded = map chunk chunks ++ completion r ∷ []; ended = none })
          × Answers (some (append t (deltas chunks))) r))

module _ (svc : Services) where
  Ends-raise :
      {A : Type 0} (t : String) (r : Result A) (next : A → Run Event)
      → ((a : A) → Ends t (next a))
      → Ends t (unless_raised svc r next)
  Ends-raise t (err e) next h = ([], inl (e, refl))
  Ends-raise t (ok a) next h = h a

  Ends-yield :
      (t : String) (o : Option ChatCompletionChunk) (run : Run Event)
      → Ends (append t (delta_of svc o)) run
      → Ends t (yielding svc o run)
  Ends-yield t none run (chunks, inl (e, q)) = (chunks, inl (e, q))
  Ends-yield t none run (chunks, inr (r, q, a)) = (chunks, inr (r, q, rw (append-nil t) at a))
  Ends-yield t (some c) run (chunks, inl (e, q)) = (c ∷ chunks, inl (e, rw q refl))
  Ends-yield t (some c) run (chunks, inr (r, q, a)) =
      (c ∷ chunks, inr (r, rw q refl, rw (append_text_assoc t c.delta (deltas chunks)) at a))

  Ends-finish : (n : ℕ) (p : Progress) → Ends p.text_content (finish svc n p)
  unfolding finish
  Ends-finish n p = elim (Bool-cases p.empty_stream) [
    | inl k ↦ rw k ([], inl (_, refl))
    | inr k ↦ rw k (
        prepared n p
          (prepare_response svc p.reason (some p.text_content) (some p.calls_content) none n) refl)
  ]
    where
      prepared :
          (n : ℕ) (p : Progress) (o : Result ChatCompletion)
          → prepare_response svc p.reason (some p.text_content) (some p.calls_content) none n ≡ o
          → Ends p.text_content
              (unless_raised svc o (λ r. record { yielded = completion r ∷ []; ended = none }))
      prepared n p (err e) q = ([], inl (e, refl))
      prepared n p (ok r) q = (
        [],
        inr (
          r,
          refl,
          rw (append-nil p.text_content) (
              prepare_response-Answers svc p.reason (some p.text_content) (some p.calls_content)
                none n r q),
        ),
      )

  Ends-data :
      (t : String) (o : Option Json) (skipped : Unit {0} → Run Event) (next : Json → Run Event)
      → Ends t (skipped tt)
      → ((c : Json) → Ends t (next c))
      → Ends t (with_data svc o skipped next)
  Ends-data t none skipped next h k = h
  Ends-data t (some c) skipped next h k = k c

  stream_from-Ends :
      (m : ChatModel) (n : ℕ) (p : Progress) (ds : List Json) (last : Option Exception)
      → Ends p.text_content (stream_from svc m n p ds last)
  unfolding stream_from
  stream_from-Ends m n p [] none = Ends-finish n p
  stream_from-Ends m n p [] (some e) = ([], inl (e, refl))
  stream_from-Ends m n p (d ∷ ds) last =
      let t = p.text_content in
      Ends-raise t (m.stream_check_error d) _ (λ _.
        Ends-raise t (m.stream_extract_chunk_data d) _ (λ data_.
          Ends-data t data_ _ _ (stream_from-Ends m n p ds last) (λ c.
            Ends-raise t (m.stream_extract_chunk p.next_index c t) _ (λ (i, o). Ends-yield t o _ (
              Ends-raise (append t (delta_of svc o))
                (m.stream_handle_function_calls c p.calls_content) _
                (λ calls.
                  Ends-raise (append t (delta_of svc o)) (m.stream_extract_finish_reason c) _
                    (λ r. stream_from-Ends m n _ ds last)))))))

  -- Whatever a provider streams, and whatever its methods return or raise, the client gets chunks,
  -- and then either an exception or, as the last item, exactly one completion. The text of the
  -- completion is that of all chunks in order, and is not empty, or else the completion holds at
  -- least one function call.
  pub stream_completion-Ends :
      (m : ChatModel) (n status : ℕ) (body : String) (events : Run Json)
      → Ends "" (stream_completion svc m n status body events)
  unfolding stream_completion
  stream_completion-Ends m n status body events =
      Ends-raise "" (handle_response svc status body) _
        (λ _. stream_from-Ends m n started events.yielded events.ended)
