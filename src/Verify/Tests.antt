-- ===== src/Verify/Tests.antt =====
-- An embedding model behind a host that does not answer, and the theorems on verification there.
use rtxag.Prelude.{String, ◌≡◌, ◌⊎◌, refl, Bool, true, false, none, some, List, [], ◌∷◌}
use rtxag.Error.{TkHttpException, http, raised, Kind, Result, ok, err}
use rtxag.Schema.{ModelInfo}
use rtxag.Properties.{ModelType, embedding}
use rtxag.Credentials.{Values, encrypt}
use rtxag.Credentials.Plain.{plain_suite}
use rtxag.Route.{Models}
use rtxag.Embedding.{Embedder, Output}
use rtxag.Verify.{Services, probe, probe_embedding, verify}
use rtxag.Verify.Outcome.{Passed, verify_lem}

abbrev no_models : Models
no_models = record {
  Model = Bool;
  get_model = λ id. ok none;
  complete = λ call n m id. err (raised Kind.other_error "");
  stream = λ call n m id. record { yielded = []; ended = none };
}

abbrev embedding_result : Bool → Result (List (Output String))
embedding_result true = ok (record { index = 0; vector = "v" } ∷ [])
embedding_result false = err (raised Kind.connection_error "Cannot connect to host")

abbrev embedder : Bool → Embedder
embedder up = record {
  Vector = String;
  Model = Bool;
  get_model = λ id. ok (some true);
  embed = λ m id n batch. embedding_result up;
  unit_vectors = λ vs. ok vs;
  fails_first = λ es. 0;
  show = λ n. "n";
}

abbrev services : Bool → Services
services up = record {
  models = no_models;
  embedder = embedder up;
  vector_length = λ v. 1;
  rerank = λ info values. ok tt;
  suite = plain_suite;
  ivs = λ n. "iv";
}

abbrev model : ModelInfo
model = record {
  model_schema = record {
    model_schema_id = "p/m";
    name = "m";
    description = "";
    deprecated = false;
    provider_id = "p";
    provider_model_id = none;
    type = ModelType.text_embedding;
    properties = none;
    config_schemas = [];
  };
  provider_model_id = "m";
  properties =
      some (embedding (record { embedding_size = 1; input_token_limit = 9; max_batch_size = 2 }));
  model_type = ModelType.text_embedding;
}

abbrev key : Values
key = ("KEY", some "k") ∷ []

down_unreachable :
    probe (services false) ModelType.text_embedding model key []
    ≡ err (raised Kind.connection_error "Cannot connect to host")
unfolding probe
down_unreachable = refl

up_probed : probe_embedding (services true) model ≡ ok tt
unfolding probe_embedding
up_probed = refl

-- A provider that is up: the credentials are accepted.
up_verified : verify (services true) model key [] ≡ ok (encrypt plain_suite (λ n. "iv") key)
unfolding verify
up_verified = refl

verify_lem_example :
    (Passed (services true) model key []
      × (verify (services true) model key [] ≡ ok (encrypt plain_suite (λ n. "iv") key)))
    ⊎ ((Passed (services true) model key [] → ⊥)
        × ((x : TkHttpException) × (verify (services true) model key [] ≡ err (http x))))
verify_lem_example = verify_lem (services true) model key []
