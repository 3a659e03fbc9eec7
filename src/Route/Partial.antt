-- ===== src/Route/Partial.antt =====
-- What a client sees of a stream whose models fail on the way.
use rtxag.Prelude.{
  ℕ, suc, ◌+◌, ◌≡◌, refl, sym, ap, ◌∙◌, Option, none, some, List, [], ◌∷◌, ◌++◌, map, length, arith,
  append_assoc, append-nil,
}
use rtxag.Error.{Exception, ok, Run}
use rtxag.Schema.{ModelInfo}
use rtxag.Route.{Models, Call, Event, mark_event, try_streams, chat_completion_stream}

shift : (n k : ℕ) → suc n + k ≡ n + suc k
shift n k = omega arith

module _ (ms : Models) (call : Call) where
  open ms use {Model, get_model, stream}

  -- The n-th attempt, on a model that is there.
  abbrev pub attempt : ℕ → ModelInfo × Model → Run Event
  attempt n (info, m) = stream call n m info.provider_model_id

  abbrev pub Loaded : ModelInfo × Model → Type 0
  Loaded (info, m) = get_model info.model_schema.provider_id ≡ ok (some m)

  -- Attempts from the n-th on that all break off.
  abbrev pub BreakOff : ℕ → List (ModelInfo × Model) → Type 0
  BreakOff n [] = Unit
  BreakOff n (x ∷ xs) =
      Loaded x × ((e : Exception) × ((attempt n x).ended ≡ some e)) × BreakOff (suc n) xs

  abbrev pub sent_by : ℕ → ModelInfo × Model → List Event
  sent_by n x = map (mark_event n) (attempt n x).yielded

  -- All that the attempts from the n-th on yield, one after the other.
  abbrev pub transcript : ℕ → List (ModelInfo × Model) → List Event
  transcript n [] = []
  transcript n (x ∷ xs) = sent_by n x ++ transcript (suc n) xs

  abbrev pub infos : List (ModelInfo × Model) → List ModelInfo
  infos xs = map (λ x. x.0) xs

  breaks_off :
      (n : ℕ) (last : Option Exception) (x : ModelInfo × Model) (rest : List ModelInfo)
      (e : Exception)
      → Loaded x
      → (attempt n x).ended ≡ some e
      → try_streams ms call n last (x.0 ∷ rest) ≡ record {
        yielded = sent_by n x ++ (try_streams ms call (suc n) (some e) rest).yielded;
        ended = (try_streams ms call (suc n) (some e) rest).ended;
      }
  unfolding try_streams
  breaks_off n last (info, m) rest e loaded broke = rw loaded (rw broke refl)

  succeeds :
      (n k : ℕ) (last : Option Exception) (xs : List (ModelInfo × Model)) (x : ModelInfo × Model)
      (rest : List ModelInfo)
      → n + length xs ≡ k
      → BreakOff n xs
      → Loaded x
      → (attempt k x).ended ≡ none
      → try_streams ms call n last (infos xs ++ x.0 ∷ rest)
        ≡ record { yielded = transcript n xs ++ sent_by k x; ended = none }
  succeeds n k last [] (info, m) rest p h loaded fine =
      let q : n ≡ k = omega (arith, p) in rw q (unfold try_streams in rw loaded (rw fine refl))
  succeeds n k last (y ∷ ys) x rest p (l, (e, broke), h) loaded fine =
      breaks_off n last y (infos ys ++ x.0 ∷ rest) e l broke
      ∙ ap (λ r. record { yielded = sent_by n y ++ r.yielded; ended = r.ended })
          (succeeds (suc n) k (some e) ys x rest (shift n (length ys) ∙ p) h loaded fine)
      ∙ ap (λ es. record { yielded = es; ended = none })
          (sym (append_assoc (sent_by n y) (transcript (suc n) ys) (sent_by k x)))

  last_breaks_off :
      (n k : ℕ) (last : Option Exception) (xs : List (ModelInfo × Model)) (x : ModelInfo × Model)
      (e : Exception)
      → n + length xs ≡ k
      → BreakOff n xs
      → Loaded x
      → (attempt k x).ended ≡ some e
      → try_streams ms call n last (infos xs ++ x.0 ∷ [])
        ≡ record { yielded = transcript n xs ++ sent_by k x; ended = some e }
  last_breaks_off n k last [] x e p h loaded broke =
      let q : n ≡ k = omega (arith, p) in
      breaks_off n last x [] e loaded (rw q broke)
      ∙ rw q (unfold try_streams in rw (append-nil (sent_by k x)) refl)
  last_breaks_off n k last (y ∷ ys) x e p (l, (d, broken), h) loaded broke =
      breaks_off n last y (infos ys ++ x.0 ∷ []) d l broken
      ∙ ap (λ r. record { yielded = sent_by n y ++ r.yielded; ended = r.ended })
          (last_breaks_off (suc n) k (some d) ys x e (shift n (length ys) ∙ p) h loaded broke)
      ∙ ap (λ es. record { yielded = es; ended = some e })
          (sym (append_assoc (sent_by n y) (transcript (suc n) ys) (sent_by k x)))

  -- Where all models break off, the client gets all that they had yielded, and the exception of the
  -- last one.
  pub chat_completion_stream-broken :
      (xs : List (ModelInfo × Model)) (x : ModelInfo × Model) (e : Exception)
      → BreakOff 0 xs
      → Loaded x
      → (attempt (length xs) x).ended ≡ some e
      → chat_completion_stream ms call (infos xs ++ x.0 ∷ [])
        ≡ record { yielded = transcript 0 xs ++ sent_by (length xs) x; ended = some e }
  unfolding chat_completion_stream
  chat_completion_stream-broken [] x e h loaded broke =
      last_breaks_off 0 0 none [] x e (omega arith) h loaded broke
  chat_completion_stream-broken (y ∷ ys) x e h loaded broke =
      last_breaks_off 0 (length (y ∷ ys)) none (y ∷ ys) x e (omega arith) h loaded broke

  -- Where models break off and a later one does not, the client gets all that the broken ones had
  -- yielded, followed by the stream of the one that succeeds, and no exception; the models behind
  -- it are not asked. So the text of a broken attempt and the whole text of the next one stand in
  -- one stream.
  pub chat_completion_stream-partial :
      (xs : List (ModelInfo × Model)) (x : ModelInfo × Model) (rest : List ModelInfo)
      → BreakOff 0 xs
      → Loaded x
      → (attempt (length xs) x).ended ≡ none
      → chat_completion_stream ms call (infos xs ++ x.0 ∷ rest)
        ≡ record { yielded = transcript 0 xs ++ sent_by (length xs) x; ended = none }
  unfolding chat_completion_stream
  chat_completion_stream-partial [] x rest h loaded fine =
      succeeds 0 0 none [] x rest (omega arith) h loaded fine
  chat_completion_stream-partial (y ∷ ys) x rest h loaded fine =
      succeeds 0 (length (y ∷ ys)) none (y ∷ ys) x rest (omega arith) h loaded fine
