-- ===== src/Vectors/Counting.antt =====
-- What the adapters answer that send texts one by one, and what the route for embeddings answers with
-- them: one output for each text.
use rtxag.Prelude.{ℕ, suc, ◌≤◌, String, ◌≡◌, refl, ap, none, some, List, [], ◌∷◌, length}
use rtxag.Error.{Exception, Result, ok, ◌>>=◌, ok-bind}
use rtxag.Json.{Json}
use rtxag.Json.Access.{item}
use rtxag.Credentials.{Values}
use rtxag.Addresses.{build_url}
use rtxag.Payload.{credential}
use rtxag.CustomHost.Formats.{HostRequest}
use rtxag.Embedding.{Embedder, Output, embed_text}
use rtxag.Embedding.Merged.{length-embed_text}
use rtxag.Vectors.{Batch}
use rtxag.Vectors.Reading.{Client, answer_of}
use rtxag.Vectors.Single.{embed_each, ollama_embed, ollama_request}

module _ (client : Client) where
  open client use {Vector, vector_of, post}

  module _ (request : String → HostRequest) (embedding_in : Json → Result Json) where
    -- Each output has the position of its text for an index, and the vector of the answer to it.
    abbrev pub AnswersEach : ℕ → List String → List (Output Vector) → Type 0
    AnswersEach i [] [] = Unit
    AnswersEach i [] (o ∷ os) = ⊥
    AnswersEach i (s ∷ ss) [] = ⊥
    AnswersEach i (s ∷ ss) (o ∷ os) =
        (o.index ≡ i)
        × ((json : Json) × ((post (request s) >>= answer_of client) ≡ ok json)
            × ((embedding_in json >>= vector_of) ≡ ok o.vector))
        × AnswersEach (suc i) ss os

    pub embed_each-AnswersEach :
        (i : ℕ) (ss : List String) (os : List (Output Vector))
        → embed_each client request embedding_in i ss ≡ ok os
        → AnswersEach i ss os
    unfolding embed_each
    embed_each-AnswersEach i [] os h = let e : [] ≡ os = cc h in rw (← e) tt
    embed_each-AnswersEach i (s ∷ ss) os h =
        let (json, a, h₁) = ok-bind _ (post (request s) >>= answer_of client) h in
        let (v, b, h₂) = ok-bind _ (embedding_in json >>= vector_of) h₁ in
        let (rest, c, h₃) = ok-bind _ (embed_each client request embedding_in (suc i) ss) h₂ in
        let e : record { index = i; vector = v } ∷ rest ≡ os = cc h₃ in
        rw (← e) (refl, (json, a, b), embed_each-AnswersEach (suc i) ss rest c)

    length-AnswersEach :
        (i : ℕ) (ss : List String) (os : List (Output Vector))
        → AnswersEach i ss os
        → length os ≡ length ss
    length-AnswersEach i [] [] h = refl
    length-AnswersEach i [] (o ∷ os) h = absurd h
    length-AnswersEach i (s ∷ ss) [] h = absurd h
    length-AnswersEach i (s ∷ ss) (o ∷ os) (_, _, h) = ap suc (length-AnswersEach (suc i) ss os h)

  -- From Ollama, the output at each position has this position for its index, and the vector of the
  -- answer to the request with the text there.
  pub ollama_embed-AnswersEach :
      (b : Batch) (os : List (Output Vector))
      → ollama_embed client b ≡ ok os
      → (url : String) × (build_url (credential "OLLAMA_HOST" b.credentials) "/api/embeddings"
          ≡ ok url)
        × AnswersEach
            (ollama_request client url b.provider_model_id)
            (item "embedding")
            0
            b.input
            os
  unfolding ollama_embed
  ollama_embed-AnswersEach b os h =
      let (url, e, h₁) =
        ok-bind _ (build_url (credential "OLLAMA_HOST" b.credentials) "/api/embeddings") h in
      (
        url,
        e,
        embed_each-AnswersEach (ollama_request client url b.provider_model_id) (item "embedding") 0
            b.input os h₁,
      )

  -- Ollama as the provider of the route; numpy and the rest are as given.
  abbrev pub ollama_embedder :
      Values → (List Vector → Result (List Vector)) → (List Exception → ℕ) → (ℕ → String) → Embedder
  ollama_embedder credentials unit_vectors fails_first show = record {
    Vector = Vector;
    Model = Unit {0};
    get_model = λ provider_id. ok (some tt);
    embed = λ m id n texts. ollama_embed client (record {
      provider_model_id = id;
      input = texts;
      credentials = credentials;
      is_query = none;
    });
    unit_vectors = unit_vectors;
    fails_first = fails_first;
    show = show;
  }

  -- With Ollama as the provider and batches of at least one text, an embedding that the route answers
  -- has one output for each text of the input.
  pub length-embed_text-ollama_embedder :
      (credentials : Values) (unit_vectors : List Vector → Result (List Vector))
      (fails_first : List Exception → ℕ) (show : ℕ → String) (provider_id id : String) (size : ℕ)
      (input : List String) (os : List (Output Vector))
      → 1 ≤ size
      → embed_text
          (ollama_embedder credentials unit_vectors fails_first show)
          provider_id
          id
          size
          input
        ≡ ok os
      → length os ≡ length input
  length-embed_text-ollama_embedder credentials unit_vectors fails_first show provider_id id size
        input os p h =
      length-embed_text (ollama_embedder credentials unit_vectors fails_first show) provider_id id
        size input os
        (λ m i n b rs q.
          let (url, _, each) =
            ollama_embed-AnswersEach
              (record {
                provider_model_id = i;
                input = b;
                credentials = credentials;
                is_query = none;
              })
              rs q in
          length-AnswersEach (ollama_request client url i) (item "embedding") 0 b rs each)
        p h
