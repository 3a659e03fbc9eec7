-- ===== src/Vectors/Single.antt =====
-- The adapters of ollama and zhipu for embeddings, which send the texts of a batch one by one.
use rtxag.Prelude.{ℕ, suc, String, some, List, [], ◌∷◌}
use rtxag.Error.{Result, ok, ◌>>=◌}
use rtxag.Json.{Json, Fields, str, field, end}
use rtxag.Json.Access.{item, first}
use rtxag.Addresses.{build_url}
use rtxag.Payload.{credential, json_header}
use rtxag.CustomHost.Formats.{HostRequest}
use rtxag.Variants.Zhipu.{build_zhipu_header}
use rtxag.Embedding.{Output}
use rtxag.Vectors.{Batch}
use rtxag.Vectors.Reading.{Client, answer_of}

module _ (client : Client) where
  open client use {Vector, vector_of, post}

  -- The loop over `enumerate(input)`, from a position on.
  unfoldable pub embed_each :
      (String → HostRequest)
      → (Json → Result Json)
      → ℕ
      → List String
      → Result (List (Output Vector))
  unfolding answer_of
  embed_each request embedding_in i [] = ok []
  embed_each request embedding_in i (s ∷ ss) = do
    json ← post (request s) >>= answer_of client
    v ← embedding_in json >>= vector_of
    rest ← embed_each request embedding_in (suc i) ss
    ok (record { index = i; vector = v } ∷ rest)

  abbrev pub ollama_request : String → String → String → HostRequest
  ollama_request url id s = record {
    api_url = some url;
    headers = json_header;
    payload = field "model" (str id) (field "prompt" (str s) end);
  }

  unfoldable pub ollama_embed : Batch → Result (List (Output Vector))
  unfolding embed_each build_url item
  ollama_embed b = do
    url ← build_url (credential "OLLAMA_HOST" b.credentials) "/api/embeddings"
    embed_each (ollama_request url b.provider_model_id) (item "embedding") 0 b.input

  abbrev zhipu_request : Fields → String → String → HostRequest
  zhipu_request headers id s = record {
    api_url = some "https://open.bigmodel.cn/api/paas/v4/embeddings";
    headers = headers;
    payload = field "model" (str id) (field "input" (str s) end);
  }

  -- `response_json["data"][0]["embedding"]`
  abbrev zhipu_embedding : Json → Result Json
  zhipu_embedding json = item "data" json >>= first >>= item "embedding"

  unfoldable pub zhipu_embed : (String → String → String) → Batch → Result (List (Output Vector))
  unfolding embed_each build_zhipu_header item first
  zhipu_embed encode b = do
    headers ← build_zhipu_header encode b.credentials
    embed_each (zhipu_request headers b.provider_model_id) zhipu_embedding 0 b.input
