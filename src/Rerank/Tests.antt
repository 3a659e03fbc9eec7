-- ===== src/Rerank/Tests.antt =====
-- A query over two documents that Cohere answers, the last document first, with the theorems on it.
use rtxag.Prelude.{get, put, String, ◌≡◌, refl, false, Option, none, some, List, [], ◌∷◌, All}
use rtxag.Error.{Result, ok}
use rtxag.Json.{Json, int, arr, obj, nil, cons, field, end, lookup}
use rtxag.Json.Int.{ℤ, pos, negsuc}
use rtxag.Json.Access.{item}
use rtxag.Model.{handle_response}
use rtxag.Properties.{ModelType, Coercion}
use rtxag.Schema.{ModelInfo}
use rtxag.Vectors.Reading.{Client, answer_of}
use rtxag.Rerank.{RerankDocument, RerankResponse, Query, cohere_rerank, read_results}
use rtxag.Rerank.Documents.{IsFrom, cohere_rerank-IsFrom}
use rtxag.Rerank.Api.{RerankRequest, api_rerank, Admitted, api_rerank-Admitted}
use rtxag.Credentials.Validate.{Sources}

abbrev result : ℤ → Json
result i = obj (field "index" (int i) (field "relevance_score" (int (pos 1)) end))

abbrev client : Client
client = record {
  Vector = Json;
  services = record { loads = λ s. none; now = 0; random_id = λ n. "x"; response_tokens = λ m. 1 };
  vector_of = λ v. ok v;
  index_of = λ v. ok 0;
  post = λ r. ok (
    200,
    "{}",
    ok (obj (field "results" (arr (cons (result (negsuc 0)) (cons (result (pos 0)) nil))) end)),
  );
}

abbrev query : Query
query = record {
  provider_model_id = "m";
  credentials = [];
  query = "q";
  documents = "a" ∷ "b" ∷ [];
  top_n = pos 2;
}

abbrev ranked : List (RerankDocument Json)
ranked =
    record { index = negsuc 0; document = "b"; relevance_score = int (pos 1) }
    ∷ record { index = pos 0; document = "a"; relevance_score = int (pos 1) }
    ∷ []

-- The index -1 is accepted.
ranked_lem : cohere_rerank client (λ i. "n") query ≡ ok ranked
unfolding cohere_rerank read_results answer_of handle_response item lookup
ranked_lem = refl

cohere_rerank-IsFrom_example : All (IsFrom ("a" ∷ "b" ∷ [])) ranked
cohere_rerank-IsFrom_example = cohere_rerank-IsFrom client (λ i. "n") query ranked ranked_lem

abbrev info : ModelInfo
info = record {
  model_schema = record {
    model_schema_id = "cohere/m";
    name = "m";
    description = "";
    deprecated = false;
    provider_id = "cohere";
    provider_model_id = some "m";
    type = ModelType.rerank;
    properties = none;
    config_schemas = [];
  };
  provider_model_id = "m";
  properties = none;
  model_type = ModelType.rerank;
}

abbrev find : String → Result (Option (Query → Result (List (RerankDocument Json))))
find id = ok (some (λ q. ok ranked))

abbrev response : RerankResponse Json
response = record { data_ = ranked; input_tokens = 7; output_tokens = 7 }

abbrev untyped : Coercion
untyped = record { as_int = λ v. none; as_bool = λ v. none }

abbrev service : Sources
service = record {
  suite = record {
    Bytes = String;
    cbc_encrypt = λ iv s. s;
    cbc_decrypt = λ iv s. ok s;
    b64encode = λ s. s;
    b64decode = λ s. ok s;
  };
  str = λ n. "1";
  get_provider = λ id. some (record { allowed = "KEY" ∷ []; required = "KEY" ∷ [] });
  env = record { environ = []; defaults = [] };
  fuel = 2;
  draws = λ n. 0;
}

abbrev request : RerankRequest
request = record {
  model_schema_id = "cohere/m";
  provider_model_id = none;
  query = "q";
  documents = "a" ∷ "b" ∷ [];
  top_n = pos 2;
  credentials = some (("KEY", "k") ∷ []);
  encrypted_credentials = none;
}

request_answered :
    api_rerank untyped (λ id. some info.model_schema) service (λ s. 1) find request
    ≡ some (ok response)
unfolding api_rerank get put lookup
request_answered = refl

api_rerank-Admitted_example :
    Admitted untyped (λ id. some info.model_schema) service (λ s. 1) find request response
api_rerank-Admitted_example =
    api_rerank-Admitted untyped (λ id. some info.model_schema) service (λ s. 1) find request
      response request_answered
