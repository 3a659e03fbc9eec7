-- ===== src/Vectors/Reading.antt =====
-- How the adapters for embeddings read an answer: with the indices that the provider gives, or with
-- positions.
use rtxag.Prelude.{ℕ, suc, String, List, [], ◌∷◌, ◌==◌, eqb, concat, if◌then◌else◌}
use rtxag.Error.{ErrorCode, Result, ok, ◌>>=◌, ◌>>◌, raise_http_error}
use rtxag.Json.{Json, Items, str, nil, cons}
use rtxag.Json.Access.{item}
use rtxag.FunctionCall.Building.{Services}
use rtxag.Model.{handle_response}
use rtxag.CustomHost.Formats.{HostRequest}
use rtxag.Embedding.{Output}
use rtxag.Vectors.{
  Batch, rows, openai_request, togetherai_request, mistralai_request, jina_request,
  lm_studio_request, localai_request, cohere_request, azure_openai_request, custom_host_request,
}

-- The network, and pydantic's conversions.
pub record Client : Type 1 where
  pub Vector : Type 0
  pub services : Services
  pub vector_of : Json → Result Vector
  pub index_of : Json → Result ℕ
  pub post : HostRequest → Result (ℕ × String × Result Json)

module _ (client : Client) where
  open client use {Vector, services, vector_of, index_of, post}

  -- `handle_response` and `response.json()`
  unfoldable pub answer_of : ℕ × String × Result Json → Result Json
  unfolding handle_response
  answer_of (status, body, json) = handle_response services status body >> json

  -- `[TextEmbeddingOutput(embedding=output["embedding"], index=output["index"]) for output in rows]`
  unfoldable pub indexed_outputs : Items → Result (List (Output Vector))
  unfolding item
  indexed_outputs nil = ok []
  indexed_outputs (cons o os) = do
    embedding ← item "embedding" o
    index ← item "index" o
    v ← vector_of embedding
    i ← index_of index
    rest ← indexed_outputs os
    ok (record { index = i; vector = v } ∷ rest)

  -- The same with positions for indices, over `enumerate(rows)`; the vector is read from a row by
  -- `embedding_in`.
  unfoldable pub numbered_outputs : (Json → Result Json) → ℕ → Items → Result (List (Output Vector))
  numbered_outputs embedding_in n nil = ok []
  numbered_outputs embedding_in n (cons o os) = do
    v ← embedding_in o >>= vector_of
    rest ← numbered_outputs embedding_in (suc n) os
    ok (record { index = n; vector = v } ∷ rest)

  -- `response_json["data"]`, with the provider's indices.
  unfoldable pub read_indexed : Json → Result (List (Output Vector))
  unfolding indexed_outputs item
  read_indexed json = item "data" json >>= rows >>= indexed_outputs

  -- One request for all texts.
  unfoldable pub embed_at_once : HostRequest → Result (List (Output Vector))
  unfolding answer_of read_indexed
  embed_at_once request = post request >>= answer_of >>= read_indexed

  abbrev pub openai_embed : Batch → Result (List (Output Vector))
  openai_embed b = embed_at_once (openai_request b)

  abbrev pub togetherai_embed : Batch → Result (List (Output Vector))
  togetherai_embed b = embed_at_once (togetherai_request b)

  abbrev pub mistralai_embed : Batch → Result (List (Output Vector))
  mistralai_embed b = embed_at_once (mistralai_request b)

  abbrev pub lm_studio_embed : Batch → Result (List (Output Vector))
  lm_studio_embed b = embed_at_once (lm_studio_request b)

  abbrev pub localai_embed : Batch → Result (List (Output Vector))
  localai_embed b = embed_at_once (localai_request b)

  unfoldable pub custom_host_embed : List String → Batch → Result (List (Output Vector))
  unfolding custom_host_request embed_at_once
  custom_host_embed black_list b = custom_host_request black_list b >>= embed_at_once

  unfoldable pub jina_embed : Batch → Result (List (Output Vector))
  unfolding answer_of numbered_outputs item
  jina_embed b = do
    json ← post (jina_request b) >>= answer_of
    os ← item "data" json >>= rows
    numbered_outputs (item "embedding") 0 os

  unfoldable pub cohere_embed : Batch → Result (List (Output Vector))
  unfolding answer_of numbered_outputs item
  cohere_embed b = do
    json ← post (cohere_request b) >>= answer_of
    os ← item "embeddings" json >>= rows
    numbered_outputs (λ o. ok o) 0 os

  -- `response_json["model"] != provider_model_id`
  abbrev check_model : String → Json → Result (Unit {0})
  check_model id (str s) =
      if s == id
      then ok tt
      else raise_http_error ErrorCode.request_validation_error "Provider model id error."
  check_model id _ = raise_http_error ErrorCode.request_validation_error "Provider model id error."

  abbrev check_status : ℕ → String → Result (Unit {0})
  check_status status body =
      if eqb status 200
      then ok tt
      else raise_http_error ErrorCode.provider_error
          (concat ("Error on calling provider model API: " ∷ body ∷ []))

  -- The answer is parsed before the status is looked at.
  unfoldable pub azure_openai_embed : Batch → Result (List (Output Vector))
  unfolding read_indexed item
  azure_openai_embed b = do
    (status, body, answer) ← post (azure_openai_request b)
    json ← answer
    check_status status body
    name ← item "model" json
    check_model b.provider_model_id name
    read_indexed json
