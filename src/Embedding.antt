-- ===== src/Embedding.antt =====
-- codebase/llmhub/app/routes/text_embedding/route.py: texts are embedded in batches, twenty at a time,
-- by the primary model or a fallback. Vectors, their normalisation, a provider's answers and the
-- order in which parallel tasks fail are the interface `Embedder`.
pub mod Batches
pub mod Merged
pub mod Sizes
mod Tests
use rtxag.Prelude.{
  ℕ, zero, suc, ◌-◌, String, Bool, true, false, Option, none, some, List, [], ◌∷◌, ◌++◌, map,
  length, take, drop, concat, eqb, if◌then◌else◌,
}
use rtxag.Error.{
  ErrorCode, Exception, http, raised, Kind, Result, ok, err, ◌>>=◌, ◌>>◌, http_error,
  raise_http_error, traverse,
}
use rtxag.Schema.{ModelInfo, bad_request}
use rtxag.Properties.{Properties, embedding, chat, EmbeddingProperties}

-- `TextEmbeddingOutput`
pub record Output (V : Type 0) : Type 0 where
  pub index : ℕ
  pub vector : V

-- What is used of a provider, of numpy and of asyncio; a provider without a model is none. The
-- number given to `embed` is that of the batch.
pub record Embedder : Type 1 where
  pub Vector : Type 0
  pub Model : Type 0
  pub get_model : String → Result (Option Model)
  pub embed : Model → String → ℕ → List String → Result (List (Output Vector))
  pub unit_vectors : List Vector → Result (List Vector)
  pub fails_first : List Exception → ℕ
  pub show : ℕ → String

-- `[xs[i : i + size] for i in range(0, len(xs), size)]`, with the length as fuel.
unfoldable pub slices {ℓ} : {A : Type ℓ} → ℕ → ℕ → List A → List (List A)
slices zero size xs = []
slices (suc fuel) size [] = []
slices (suc fuel) size (x ∷ xs) = take size (x ∷ xs) ∷ slices fuel size (drop size (x ∷ xs))

unfoldable pub batches {ℓ} : {A : Type ℓ} → ℕ → List A → List (List A)
unfolding slices
batches size xs = slices (length xs) size xs

-- Lists of batches that keep their numbers.
abbrev pub numbered {ℓ} : {A : Type ℓ} → ℕ → List A → List (ℕ × A)
numbered n [] = []
numbered n (x ∷ xs) = (n, x) ∷ numbered (suc n) xs

abbrev pub joined {ℓ} : {A : Type ℓ} → List (List A) → List A
joined [] = []
joined (xs ∷ xss) = xs ++ joined xss

abbrev pub exceptions {ℓ} : {A : Type ℓ} → List (Result A) → List Exception
exceptions [] = []
exceptions (err e ∷ rs) = e ∷ exceptions rs
exceptions (ok a ∷ rs) = exceptions rs

abbrev pub values {ℓ} : {A : Type ℓ} → List (Result A) → List A
values [] = []
values (err e ∷ rs) = values rs
values (ok a ∷ rs) = a ∷ values rs

-- The n-th of the exceptions; one beyond the end stands for the first.
abbrev pub chosen : Exception → List Exception → ℕ → Exception
chosen e [] n = e
chosen e (x ∷ xs) zero = e
chosen e (x ∷ xs) (suc n) = chosen x xs n

abbrev pub gathered {ℓ} :
    {A : Type ℓ} → (List Exception → ℕ) → List Exception → List A → Result (List A)
gathered order [] as' = ok as'
gathered order (e ∷ es) as' = err (chosen e es (order (e ∷ es)))

-- `asyncio.gather`: all the values in order, or the exception that is raised first.
unfoldable pub gather {ℓ} : {A : Type ℓ} → (List Exception → ℕ) → List (Result A) → Result (List A)
gather order rs = gathered order (exceptions rs) (values rs)

module _ (em : Embedder) where
  open em use {Vector, Model, get_model, embed, unit_vectors, fails_first, show}

  -- `output.embedding = embeddings_array[i].tolist()` for every output.
  unfoldable pub with_vectors : List (Output Vector) → List Vector → Result (List (Output Vector))
  with_vectors [] vs = ok []
  with_vectors (o ∷ os) [] = err (raised Kind.index_error "index is out of bounds for axis 0")
  with_vectors (o ∷ os) (v ∷ vs) = do rest ← with_vectors os vs; ok (record o { vector = v } ∷ rest)

  -- `embed_batch`, of a batch with its number.
  unfoldable pub embed_batch : Model → String → ℕ × List String → Result (List (Output Vector))
  unfolding with_vectors
  embed_batch m id (n, batch) = do
    outputs ← embed m id n batch
    vectors ← unit_vectors (map (λ o. o.vector) outputs)
    with_vectors outputs vectors

  -- The loop over groups of batches that run in parallel.
  unfoldable pub embed_groups :
      Model → String → List (List (ℕ × List String)) → Result (List (Output Vector))
  unfolding gather embed_batch
  embed_groups m id [] = ok []
  embed_groups m id (group ∷ groups) = do
    results ← gather fails_first (map (embed_batch m id) group)
    later ← embed_groups m id groups
    ok (joined results ++ later)

  abbrev max_parallel_tasks : ℕ
  max_parallel_tasks = 20

  abbrev with_embedder :
      String
      → Option Model
      → (Model → Result (List (Output Vector)))
      → Result (List (Output Vector))
  with_embedder provider_id none next = bad_request (
      concat ("Provider " ∷ provider_id ∷ " is not supported through the text_embedding API." ∷ []))
  with_embedder provider_id (some m) next = next m

  -- `embed_text`, without the count of tokens.
  unfoldable pub embed_text : String → String → ℕ → List String → Result (List (Output Vector))
  unfolding embed_groups batches
  embed_text provider_id id batch_size input = get_model provider_id >>= λ found.
      with_embedder provider_id found (λ m.
        embed_groups m id (batches max_parallel_tasks (numbered 0 (batches batch_size input))))

  -- What the route answers: the outputs, and the number of the fallback if one was used.
  pub record Embedded : Type 0 where
    pub outputs : List (Output Vector)
    pub fallback_index : Option ℕ

  -- `properties.embedding_size` and `properties.max_batch_size`
  abbrev pub embedding_of : Option Properties → Result EmbeddingProperties
  embedding_of (some (embedding p)) = ok p
  embedding_of (some (chat p)) = err (raised Kind.attribute_error "embedding_size")
  embedding_of none = err (raised Kind.attribute_error "embedding_size")

  abbrev pub fallback_number : ℕ → Option ℕ
  fallback_number zero = none
  fallback_number (suc n) = some n

  -- The handlers of the loop.
  abbrev kept : Exception → Exception
  kept (http e) = http e
  kept (raised k s) = http_error ErrorCode.internal_server_error s

  abbrev attempted :
      ℕ
      → Result (List (Output Vector))
      → (Exception → Result (Option Embedded))
      → Result (Option Embedded)
  attempted i (ok os) later =
      ok (some (record { outputs = os; fallback_index = fallback_number i }))
  attempted i (err e) later = later (kept e)

  abbrev pub mismatch : String → ℕ → String → ℕ → String
  mismatch id size primary default = concat (
      "The embedding size of the fallback model '"
      ∷ id
      ∷ "': "
      ∷ show size
      ∷ " is different from the primary model '"
      ∷ primary
      ∷ "': "
      ∷ show default
      ∷ "."
      ∷ [])

  abbrev last_or_none : Option Exception → Result (Option Embedded)
  last_or_none none = ok none
  last_or_none (some e) = err e

  -- The loop over the models; the size of the first model and its name are given.
  unfoldable pub try_embeddings :
      ℕ → String → List String → ℕ → Option Exception → List ModelInfo → Result (Option Embedded)
  unfolding embed_text
  try_embeddings default primary input i last [] = last_or_none last
  try_embeddings default primary input i last (info ∷ infos) = embedding_of info.properties >>= λ p.
      if eqb default p.embedding_size
      then attempted i
          (embed_text info.model_schema.provider_id info.provider_model_id p.max_batch_size input)
          (λ e. try_embeddings default primary input (suc i) (some e) infos)
      else bad_request (mismatch info.provider_model_id p.embedding_size primary default)

  -- The end of `api_text_embedding`, once the models and the credentials are validated.
  unfoldable pub embed_with : List String → List ModelInfo → Result (Option Embedded)
  unfolding try_embeddings
  embed_with input [] = err (raised Kind.index_error "list index out of range")
  embed_with input (info ∷ infos) = embedding_of info.properties >>= λ p.
      try_embeddings p.embedding_size info.provider_model_id input 0 none (info ∷ infos)
