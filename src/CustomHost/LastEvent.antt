-- ===== src/CustomHost/LastEvent.antt =====
-- The streaming loop keeps the finish reason of the last event only.
use rtxag.Prelude.{
  ℕ, ◌≡◌, refl, ap, ◌∙◌, append, if◌then◌else◌, Bool, true, false, Option, none, some, List, [],
  ◌∷◌, ◌++◌, All,
}
use rtxag.Error.{Exception, Kind, raised, Run, Result, ok, err, ◌>>=◌, ok_injective}
use rtxag.Json.{Json}
use rtxag.Message.{
  FinishReason, ChatCompletion, ChatCompletionChunk, is_assistant_function_calls_message,
}
use rtxag.Route.{Event, chunk, completion}
use rtxag.FunctionCall.Building.{Services}
use rtxag.Model.{ChatModel, prepare_response, unless_raised, yielding, delta_of, returned_or}
use rtxag.CustomHost.{Progress, stream_from, end_response, finish, or_none, without_reason}

-- An event of the stream that is no completion, or a completion with function calls.
abbrev pub HasCalls : Event → Type 0
HasCalls (chunk c) = Unit
HasCalls (completion r) = is_assistant_function_calls_message r.message ≡ true

-- An event in which the methods of a model find no finish reason, or none at all.
abbrev pub NoReason : ChatModel → Json → Type 0
NoReason m d =
    (data_ : Option Json) (r : FinishReason)
    → m.stream_extract_chunk_data d ≡ ok data_
    → m.stream_extract_finish_reason (or_none data_) ≡ ok (some r)
    → ⊥

no_reason : (o : Option FinishReason) → ((r : FinishReason) → o ≡ some r → ⊥) → o ≡ none
no_reason none h = refl
no_reason (some r) h = absurd (h r refl)

module _ (svc : Services) where
  abbrev CallsOnly : Run Event → Type 0
  CallsOnly run = All HasCalls run.yielded

  unless_raised-CallsOnly {ℓ} :
      {A : Type ℓ} (r : Result A) (next : A → Run Event)
      → ((a : A) → r ≡ ok a → CallsOnly (next a))
      → CallsOnly (unless_raised svc r next)
  unless_raised-CallsOnly (err e) next h = tt
  unless_raised-CallsOnly (ok a) next h = h a refl

  yielding-CallsOnly :
      (o : Option ChatCompletionChunk) (run : Run Event)
      → CallsOnly run
      → CallsOnly (yielding svc o run)
  yielding-CallsOnly none run h = h
  yielding-CallsOnly (some c) run h = (tt, h)

  without_reason-HasCalls :
      (r : Result ChatCompletion) (c : ChatCompletion)
      → (r >>= without_reason) ≡ ok c
      → is_assistant_function_calls_message c.message ≡ true
  without_reason-HasCalls (err e) c h = cc h
  without_reason-HasCalls (ok a) c h = kept (is_assistant_function_calls_message a.message) refl h
    where
      kept :
          (b : Bool)
          → is_assistant_function_calls_message a.message ≡ b
          → (if b then ok a else err (raised Kind.validation_error "finish_reason")) ≡ ok c
          → is_assistant_function_calls_message c.message ≡ true
      kept true q k = rw (← ok_injective a c k) q
      kept false q k = cc k

  finish-CallsOnly : (n : ℕ) (p : Progress) → p.reason ≡ none → CallsOnly (finish svc n p)
  unfolding end_response
  finish-CallsOnly n p h =
      unless_raised-CallsOnly (end_response svc n p p.reason)
        (λ c. record { yielded = completion c ∷ []; ended = none })
        (λ c q. (
          without_reason-HasCalls
              (prepare_response svc FinishReason.unknown (some p.text_content)
                (some p.calls_content) none n)
              c (rw h at q),
          tt,
        ))

  -- What is left once the last event is read without a finish reason.
  ended-CallsOnly :
      (m : ChatModel) (n : ℕ) (p : Progress) (last : Option Exception)
      → ((r : FinishReason) → p.reason ≡ some r → ⊥)
      → CallsOnly (stream_from svc m n p [] last)
  unfolding stream_from
  ended-CallsOnly m n p (some e) h = tt
  ended-CallsOnly m n p none h = finish-CallsOnly n p (no_reason p.reason h)

  -- What an event leaves as the finish reason is what the methods find in it.
  abbrev LeftBy : ChatModel → Json → Progress → Type 0
  LeftBy m d p =
      (data_ : Option Json) × (m.stream_extract_chunk_data d ≡ ok data_)
      × (m.stream_extract_finish_reason (or_none data_) ≡ ok p.reason)

  -- One round of the loop, however it goes on after it.
  round-CallsOnly :
      (m : ChatModel) (n : ℕ) (p : Progress) (d : Json) (ds : List Json) (last : Option Exception)
      → ((p' : Progress) → LeftBy m d p' → CallsOnly (stream_from svc m n p' ds last))
      → CallsOnly (stream_from svc m n p (d ∷ ds) last)
  unfolding stream_from
  round-CallsOnly m n p d ds last h = unless_raised-CallsOnly (m.stream_check_error d) _ (λ _ _.
      unless_raised-CallsOnly (m.stream_extract_chunk_data d) _ (λ data_ q.
        unless_raised-CallsOnly (m.stream_extract_chunk p.next_index (or_none data_) p.text_content)
          _
          (λ (i, o) _. yielding-CallsOnly o _ (
            unless_raised-CallsOnly (m.stream_handle_function_calls (or_none data_) p.calls_content)
              _
              (λ calls _.
                unless_raised-CallsOnly (m.stream_extract_finish_reason (or_none data_)) _ (λ r k.
                  h
                    (record {
                      next_index = i;
                      text_content = append p.text_content (delta_of svc o);
                      reason = r;
                      calls_content = returned_or svc calls;
                    })
                    (data_, q, k)))))))

  -- Whichever the format of the host, and whatever its events before: a stream of a custom host whose
  -- last event carries no finish reason does not end in a completion with a text. If it ends in a
  -- completion, this has function calls.
  pub stream_from-NoReason :
      (m : ChatModel) (n : ℕ) (p : Progress) (ds : List Json) (d : Json) (last : Option Exception)
      → NoReason m d
      → All HasCalls (stream_from svc m n p (ds ++ d ∷ []) last).yielded
  stream_from-NoReason m n p [] d last h =
      round-CallsOnly m n p d [] last
        (λ p' (data_, q, k). ended-CallsOnly m n p' last (λ r e. h data_ r q (k ∙ ap ok e)))
  stream_from-NoReason m n p (c ∷ cs) d last h =
      round-CallsOnly m n p c (cs ++ d ∷ []) last (λ p' _. stream_from-NoReason m n p' cs d last h)
