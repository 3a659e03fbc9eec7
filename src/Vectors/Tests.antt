-- ===== src/Vectors/Tests.antt =====
-- Two texts for Ollama, with the theorems on them.
use rtxag.Prelude.{String, ◌≡◌, refl, none, some, List, [], ◌∷◌, length, arith, get}
use rtxag.Error.{ok}
use rtxag.Json.{Json, str, obj, field, end, lookup}
use rtxag.Json.Access.{item}
use rtxag.Credentials.{Values}
use rtxag.Model.{handle_response}
use rtxag.Addresses.{build_url}
use rtxag.Payload.{credential}
use rtxag.Embedding.{
  Output, embed_text, embed_groups, embed_batch, gather, with_vectors, batches, slices,
}
use rtxag.Vectors.{Batch}
use rtxag.Vectors.Reading.{Client, answer_of}
use rtxag.Vectors.Single.{embed_each, ollama_embed, ollama_request}
use rtxag.Vectors.Counting.{
  AnswersEach, ollama_embed-AnswersEach, length-embed_text-ollama_embedder,
}

-- Ollama echoes what it was asked.
abbrev client : Client
client = record {
  Vector = Json;
  services = record { loads = λ s. none; now = 0; random_id = λ n. "x"; response_tokens = λ m. 1 };
  vector_of = λ v. ok v;
  index_of = λ v. ok 0;
  post = λ r. ok (200, "{}", ok (obj (field "embedding" (obj r.payload) end)));
}

abbrev credentials : Values
credentials = ("OLLAMA_HOST", some "http://h/") ∷ []

abbrev vector : String → Json
vector s = obj (field "model" (str "m") (field "prompt" (str s) end))

abbrev batch : Batch
batch = record {
  provider_model_id = "m";
  input = "a" ∷ "b" ∷ [];
  credentials = credentials;
  is_query = none;
}

abbrev outputs : List (Output Json)
outputs = record { index = 0; vector = vector "a" } ∷ record { index = 1; vector = vector "b" } ∷ []

ollama_embed-AnswersEach_example :
    (url : String) × (build_url (credential "OLLAMA_HOST" credentials) "/api/embeddings" ≡ ok url)
    × AnswersEach client
        (ollama_request client url "m")
        (item "embedding")
        0
        ("a" ∷ "b" ∷ [])
        outputs
unfolding ollama_embed embed_each answer_of handle_response item lookup build_url get
ollama_embed-AnswersEach_example = ollama_embed-AnswersEach client batch outputs refl

length-embed_text-ollama_embedder_example : length outputs ≡ 2
unfolding embed_text embed_groups embed_batch gather with_vectors batches slices ollama_embed
    embed_each answer_of handle_response item lookup build_url get
length-embed_text-ollama_embedder_example =
    length-embed_text-ollama_embedder client credentials (λ vs. ok vs) (λ es. 0) (λ n. "n") "ollama"
      "m" 2 ("a" ∷ "b" ∷ []) outputs (omega arith) refl
