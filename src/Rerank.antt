-- ===== src/Rerank.antt =====
-- codebase/llmhub/app/routes/rerank/route.py, and providers/cohere/rerank.py and providers/jina/rerank.py.
-- Scores, their conversion and that of whole results are pydantic's; the count of tokens of a text is
-- a parameter.

pub mod Documents
pub mod Usage
pub mod Api
mod Tests
use rtxag.Prelude.{
  ℕ, zero, suc, ◌+◌, ◌-◌, String, Bool, true, false, Option, none, some, List, [], ◌∷◌, length,
  concat, if◌then◌else◌,
}
use rtxag.Error.{
  ErrorCode, Exception, http, raised, Kind, Result, ok, err, ◌>>=◌, ◌>>◌, http_error,
  raise_http_error,
}
use rtxag.Json.{Json, Items, Fields, int, str, nil, cons, field, end, arr}
use rtxag.Json.Int.{ℤ, pos, negsuc, leb_ℤ}
use rtxag.Json.Access.{item}
use rtxag.Credentials.{Values}
use rtxag.Schema.{ModelInfo, bad_request}
use rtxag.Properties.{ModelType, type_value}
use rtxag.OpenAi.{as_index}
use rtxag.OpenAi.Prepare.{bearer_header}
use rtxag.CustomHost.Formats.{HostRequest}
use rtxag.Vectors.{rows, texts_of}
use rtxag.Vectors.Reading.{Client, answer_of}

-- `RerankDocument`, with the text of its `Document`; the score is a vector of the client.
pub record RerankDocument (S : Type 0) : Type 0 where
  pub index : ℤ
  pub document : String
  pub relevance_score : S

-- The arguments of a provider's `rerank`.
pub record Query : Type 0 where
  pub provider_model_id : String
  pub credentials : Values
  pub query : String
  pub documents : List String
  pub top_n : ℤ

-- The item of a list at a position from the front.
abbrev pub nth : List String → ℕ → Option String
nth [] n = none
nth (s ∷ ss) zero = some s
nth (s ∷ ss) (suc n) = nth ss n

abbrev pub from_end : List String → ℕ → ℕ → Option String
from_end ss n zero = none
from_end ss zero (suc left) = nth ss left
from_end ss (suc n) (suc left) = from_end ss n left

-- The item of a list at a Python index, which counts from the end if it is negative.
abbrev pub at : List String → ℤ → Option String
at ss (pos n) = nth ss n
at ss (negsuc n) = from_end ss n (length ss)

abbrev pub or_index_error : Option String → Result String
or_index_error none = err (raised Kind.index_error "list index out of range")
or_index_error (some s) = ok s

-- `{"model": ..., "query": ..., "documents": ..., "top_n": ...}`
abbrev rerank_payload : Query → Fields
rerank_payload q = field "model" (str q.provider_model_id) (
    field "query" (str q.query)
      (field "documents" (arr (texts_of q.documents)) (field "top_n" (int q.top_n) end)))

abbrev cohere_request : Query → HostRequest
cohere_request q = record {
  api_url = some "https://api.cohere.ai/v1/rerank";
  headers = bearer_header "COHERE_API_KEY" q.credentials;
  payload = rerank_payload q;
}

abbrev jina_request : Query → HostRequest
jina_request q = record {
  api_url = some "https://api.jina.ai/v1/rerank";
  headers = bearer_header "JINA_API_KEY" q.credentials;
  payload = rerank_payload q;
}

module _ (client : Client) (show : ℤ → String) where
  open client use {Vector, vector_of, post}

  abbrev out_of_bounds {ℓ} : {A : Type ℓ} → ℤ → List String → Result A
  out_of_bounds i documents = raise_http_error ErrorCode.provider_error (
      concat (
        "Index "
        ∷ show i
        ∷ " is out of bounds for documents of length "
        ∷ show (pos (length documents))
        ∷ "."
        ∷ []))

  -- `documents[item["index"]]`, where the index is below the length.
  abbrev document_at : List String → ℤ → Result String
  document_at documents i =
      if leb_ℤ (pos (length documents)) i
      then out_of_bounds i documents
      else or_index_error (at documents i)

  -- The loop over the results of Cohere. An index that is no integer is a TypeError.
  unfoldable pub read_results : List String → Items → Result (List (RerankDocument Vector))
  unfolding item
  read_results documents nil = ok []
  read_results documents (cons v vs) = do
    i ← item "index" v >>= as_index
    s ← document_at documents i
    score ← item "relevance_score" v >>= vector_of
    rest ← read_results documents vs
    ok (record { index = i; document = s; relevance_score = score } ∷ rest)

  -- `rerank` of Cohere
  unfoldable pub cohere_rerank : Query → Result (List (RerankDocument Vector))
  unfolding answer_of read_results item
  cohere_rerank q = do
    json ← post (cohere_request q) >>= answer_of client
    vs ← item "results" json >>= rows
    read_results q.documents vs

  -- `rerank` of Jina, with pydantic's conversion of the results.
  unfoldable pub jina_rerank :
      (Json → Result (List (RerankDocument Vector))) → Query → Result (List (RerankDocument Vector))
  unfolding answer_of item
  jina_rerank results_of q = do
    json ← post (jina_request q) >>= answer_of client
    item "results" json >>= results_of

-- What the route answers: the results and the number of tokens, which is given as input and output.
pub record RerankResponse (S : Type 0) : Type 0 where
  pub data_ : List (RerankDocument S)
  pub input_tokens : ℕ
  pub output_tokens : ℕ

-- The handlers of the route.
abbrev internal : Exception → Exception
internal (http e) = http e
internal (raised k s) = http_error ErrorCode.internal_server_error s

abbrev pub handled {ℓ} : {A : Type ℓ} → Result A → Result A
handled (err e) = err (internal e)
handled (ok a) = ok a

abbrev is_rerank : ModelType → Bool
is_rerank ModelType.rerank = true
is_rerank ModelType.wildcard = true
is_rerank _ = false

abbrev check_type : ModelType → Result (Unit {0})
check_type t =
    if is_rerank t
    then ok tt
    else bad_request (concat ("Model type should be rerank, but got " ∷ type_value t ∷ []))

abbrev query_for : ModelInfo → Values → String → List String → ℤ → Query
query_for info credentials query documents top_n = record {
  provider_model_id = info.provider_model_id;
  credentials = credentials;
  query = query;
  documents = documents;
  top_n = top_n;
}

module _ (string_tokens : String → ℕ) where
  -- The loop over the documents of the request.
  abbrev pub add_documents : ℕ → List String → ℕ
  add_documents tokens [] = tokens
  add_documents tokens (d ∷ ds) = add_documents (tokens + string_tokens d) ds

module _ {S : Type 0} (string_tokens : String → ℕ) where
  -- The loop over the results.
  abbrev pub add_results : ℕ → List (RerankDocument S) → ℕ
  add_results tokens [] = tokens
  add_results tokens (r ∷ rs) = add_results (tokens + (string_tokens r.document + 1)) rs

  abbrev respond : Query → List (RerankDocument S) → RerankResponse S
  respond q rs =
      let tokens =
        add_results (add_documents string_tokens (string_tokens q.query) q.documents) rs in
      record { data_ = rs; input_tokens = tokens; output_tokens = tokens }

  -- `if not model`; then the call.
  abbrev with_model :
      String
      → Option (Query → Result (List (RerankDocument S)))
      → Query
      → Result (List (RerankDocument S))
  with_model provider_id none q =
      bad_request
        (concat ("Provider " ∷ provider_id ∷ " is not supported through the rerank API." ∷ []))
  with_model provider_id (some rerank) q = rerank q

  -- The end of `api_rerank`, once the model and the credentials are validated: `get_rerank_model` may
  -- raise, and a provider without a model is none.
  unfoldable pub rerank_with :
      (String → Result (Option (Query → Result (List (RerankDocument S)))))
      → ModelInfo
      → Values
      → String
      → List String
      → ℤ
      → Result (RerankResponse S)
  rerank_with get_rerank_model info credentials query documents top_n =
      let provider_id = info.model_schema.provider_id in
      let q = query_for info credentials query documents top_n in
      check_type info.model_type
      >> handled (do
        found ← get_rerank_model provider_id
        results ← with_model provider_id found q
        ok (respond q results))
