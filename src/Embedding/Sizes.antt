-- ===== src/Embedding/Sizes.antt =====
-- Which model an embedding comes from, and the size of its vectors.
use rtxag.Prelude.{
  ℕ, suc, String, ◌≡◌, ◌⊎◌, inl, inr, sym, ap, Option, none, some, List, [], ◌∷◌, eqb,
  if◌then◌else◌, arith,
}
use rtxag.Error.{Exception, Result, ok, err, ok-bind}
use rtxag.Schema.{ModelInfo, bad_request}
use rtxag.Properties.{EmbeddingProperties}
use rtxag.Embedding.{
  Embedder, Embedded, Output, embedding_of, embed_text, try_embeddings, embed_with, attempted, kept,
  fallback_number,
}

module _ (em : Embedder) where
  open em use {Vector}

  -- The model info that an answer comes from: the models before it and itself have the size of the
  -- primary model, its number is the fallback's, and its outputs are the answer.
  abbrev pub AnsweredBy : ℕ → ℕ → List String → List ModelInfo → Embedded em → Type 0
  AnsweredBy i default input [] r = ⊥
  AnsweredBy i default input (info ∷ infos) r =
      (p : EmbeddingProperties) × (embedding_of em info.properties ≡ ok p)
      × (p.embedding_size ≡ default)
      × (((r.fallback_index ≡ fallback_number em i)
            × (embed_text em info.model_schema.provider_id info.provider_model_id p.max_batch_size
                  input
                ≡ ok r.outputs))
          ⊎ AnsweredBy (suc i) default input infos r)

  attempted-cases :
      (i : ℕ) (o : Result (List (Output Vector)))
      (later : Exception → Result (Option (Embedded em))) (r : Embedded em)
      → attempted em i o later ≡ ok (some r)
      → ((r.fallback_index ≡ fallback_number em i) × (o ≡ ok r.outputs))
        ⊎ ((e : Exception) × (later e ≡ ok (some r)))
  attempted-cases i (ok os) later r h =
      let e : record { outputs = os; fallback_index = fallback_number em i } ≡ r = cc h in
      inl (ap (λ x. x.fallback_index) (sym e), ap (λ x. ok x.outputs) e)
  attempted-cases i (err e) later r h = inr (kept em e, h)

  same_size :
      (default size : ℕ) (message : String) (next : Result (Option (Embedded em))) (r : Embedded em)
      → (if eqb default size then next else bad_request message) ≡ ok (some r)
      → (size ≡ default) × (next ≡ ok (some r))
  same_size default size message next r h = ground arith

  try_embeddings-AnsweredBy :
      (default : ℕ) (primary : String) (input : List String) (i : ℕ) (last : Option Exception)
      (infos : List ModelInfo) (r : Embedded em)
      → try_embeddings em default primary input i last infos ≡ ok (some r)
      → AnsweredBy i default input infos r
  unfolding try_embeddings
  try_embeddings-AnsweredBy default primary input i none [] r h = cc h
  try_embeddings-AnsweredBy default primary input i (some e) [] r h = cc h
  try_embeddings-AnsweredBy default primary input i last (info ∷ infos) r h =
      let (p, q, h₁) = ok-bind _ (embedding_of em info.properties) h in
      let (size, h₂) = same_size default p.embedding_size _ _ r h₁ in
      (
        p,
        q,
        size,
        elim (attempted-cases i
            (embed_text em info.model_schema.provider_id info.provider_model_id p.max_batch_size
              input)
            (λ e. try_embeddings em default primary input (suc i) (some e) infos) r h₂) [
              | inl (f, os) ↦ inl (f, os)
              | inr (e, k) ↦
                  inr (try_embeddings-AnsweredBy default primary input (suc i) (some e) infos r k)
            ],
      )

  -- An answer of the route is the embedding by one of the models that the request names, with the
  -- number of the fallback if it is not the primary one, and this model, as all the models tried
  -- before it, has the embedding size of the primary model.
  pub embed_with-AnsweredBy :
      (input : List String) (info : ModelInfo) (infos : List ModelInfo) (r : Embedded em)
      → embed_with em input (info ∷ infos) ≡ ok (some r)
      → (p : EmbeddingProperties) × (embedding_of em info.properties ≡ ok p)
        × AnsweredBy 0 p.embedding_size input (info ∷ infos) r
  unfolding embed_with
  embed_with-AnsweredBy input info infos r h =
      let (p, q, h₁) = ok-bind _ (embedding_of em info.properties) h in
      (
        p,
        q,
        try_embeddings-AnsweredBy p.embedding_size info.provider_model_id input 0 none
            (info ∷ infos) r h₁,
      )
