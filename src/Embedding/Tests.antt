-- ===== src/Embedding/Tests.antt =====
-- Five texts in batches of two, and the theorems on embeddings there.
use rtxag.Prelude.{ℕ, suc, String, ◌≡◌, refl, Bool, true, false, none, some, List, [], ◌∷◌}
use rtxag.Error.{ok}
use rtxag.Schema.{ModelInfo}
use rtxag.Properties.{ModelType, embedding, EmbeddingProperties}
use rtxag.Embedding.{Embedder, Output, Embedded, embed_text, embed_with, embedding_of}
use rtxag.Embedding.Merged.{InOrder, embed_text-InOrder}
use rtxag.Embedding.Sizes.{AnsweredBy, embed_with-AnsweredBy}

abbrev outputs_of : ℕ → List String → List (Output String)
outputs_of n [] = []
outputs_of n (s ∷ ss) = record { index = n; vector = s } ∷ outputs_of (suc n) ss

abbrev echo : Embedder
echo = record {
  Vector = String;
  Model = Bool;
  get_model = λ id. ok (some true);
  embed = λ m id n batch. ok (outputs_of 0 batch);
  unit_vectors = λ vs. ok vs;
  fails_first = λ es. 0;
  show = λ n. "n";
}

abbrev five : List String
five = "a" ∷ "b" ∷ "c" ∷ "d" ∷ "e" ∷ []

abbrev embedded : List (Output String)
embedded =
    record { index = 0; vector = "a" }
    ∷ record { index = 1; vector = "b" }
    ∷ record { index = 0; vector = "c" }
    ∷ record { index = 1; vector = "d" }
    ∷ record { index = 0; vector = "e" }
    ∷ []

-- The indices start again in every batch.
five_in_batches : embed_text echo "p" "m" 2 five ≡ ok embedded
unfolding embed_text
five_in_batches = refl

embed_text-InOrder_example :
    (m : Bool) × (ok (some true) ≡ ok (some m)) × InOrder echo m "m" 2 five embedded
embed_text-InOrder_example = embed_text-InOrder echo "p" "m" 2 five embedded five_in_batches

abbrev small : ModelInfo
small = record {
  model_schema = record {
    model_schema_id = "p/m";
    name = "m";
    description = "";
    deprecated = false;
    provider_id = "p";
    provider_model_id = none;
    type = ModelType.text_embedding;
    properties = none;
    config_schemas = [];
  };
  provider_model_id = "m";
  properties =
      some (embedding (record { embedding_size = 3; input_token_limit = 9; max_batch_size = 2 }));
  model_type = ModelType.text_embedding;
}

abbrev answer : Embedded echo
answer = record { outputs = embedded; fallback_index = none }

five_answered : embed_with echo five (small ∷ []) ≡ ok (some answer)
unfolding embed_with
five_answered = refl

embed_with-AnsweredBy_example :
    (p : EmbeddingProperties) × (embedding_of echo small.properties ≡ ok p)
    × AnsweredBy echo 0 p.embedding_size five (small ∷ []) answer
embed_with-AnsweredBy_example = embed_with-AnsweredBy echo five small [] answer five_answered
