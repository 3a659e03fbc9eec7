-- ===== src/Properties.antt =====
-- The types of models, of codebase/llmhub/app/models/model_schema.py, and the model properties of
-- chat_completion/model_config.py and text_embedding/model_config.py beside it. How pydantic turns
-- a value of a dictionary into an integer or a Boolean is a parameter.
use rtxag.Prelude.{ℕ, String, Bool, true, false, ◌&&◌, Option, none, some, leb, if◌then◌else◌}
use rtxag.Error.{Result, ok, err, raised, Kind, ◌>>=◌}
use rtxag.Json.{Json, Fields, lookup}
use rtxag.Json.Int.{ℤ}

pub data ModelType : Type 0 where
  chat_completion text_embedding rerank wildcard : ModelType

abbrev pub type_value : ModelType → String
type_value chat_completion = "chat_completion"
type_value text_embedding = "text_embedding"
type_value rerank = "rerank"
type_value wildcard = "wildcard"

abbrev pub same_type : ModelType → ModelType → Bool
same_type chat_completion chat_completion = true
same_type text_embedding text_embedding = true
same_type rerank rerank = true
same_type wildcard wildcard = true
same_type _ _ = false

pub record ChatProperties : Type 0 where
  pub function_call : Bool
  pub streaming : Bool
  pub vision : Bool
  pub input_token_limit : Option ℤ
  pub output_token_limit : Option ℤ

pub record EmbeddingProperties : Type 0 where
  pub embedding_size : ℕ
  pub input_token_limit : ℕ
  pub max_batch_size : ℕ

pub data Properties : Type 0 where
  chat : ChatProperties → Properties
  embedding : EmbeddingProperties → Properties

-- What pydantic makes of a value that is declared `int` or `bool`.
pub record Coercion : Type 0 where
  pub as_int : Json → Option ℤ
  pub as_bool : Json → Option Bool

abbrev invalid {ℓ} : {A : Type ℓ} → String → Result A
invalid field = err (raised Kind.validation_error field)

-- An integer between two bounds, the upper one optional.
abbrev bounded : String → ℕ → Option ℕ → Option ℤ → Result ℕ
bounded field low high none = invalid field
bounded field low high (some (ℤ.negsuc n)) = invalid field
bounded field low none (some (ℤ.pos n)) = if leb low n then ok n else invalid field
bounded field low (some high) (some (ℤ.pos n)) =
    if leb low n && leb n high then ok n else invalid field

module _ (c : Coercion) where
  required_size : Fields → Result ℕ
  required_size d = elim (lookup "embedding_size" d) [
    | none ↦ invalid "embedding_size"
    | some v ↦ bounded "embedding_size" 1 (some 2000) (c.as_int v)
  ]

  limit_or : String → ℕ → Fields → Result ℕ
  limit_or field default d = elim (lookup field d) [
    | none ↦ ok default
    | some v ↦ bounded field 1 none (c.as_int v)
  ]

  -- `TextEmbeddingModelProperties(**d)`
  unfoldable pub embedding_properties : Fields → Result EmbeddingProperties
  unfolding required_size limit_or
  embedding_properties d = do
    size ← required_size d
    tokens ← limit_or "input_token_limit" 512 d
    batch ← limit_or "max_batch_size" 512 d
    ok (record { embedding_size = size; input_token_limit = tokens; max_batch_size = batch })

  some_flag : String → Option Bool → Result Bool
  some_flag field none = invalid field
  some_flag field (some b) = ok b

  flag_or_false : String → Fields → Result Bool
  unfolding some_flag
  flag_or_false field d = elim (lookup field d) [
    | none ↦ ok false
    | some v ↦ some_flag field (c.as_bool v)
  ]

  some_limit : String → Option ℤ → Result (Option ℤ)
  some_limit field none = invalid field
  some_limit field (some n) = ok (some n)

  optional_limit : String → Fields → Result (Option ℤ)
  unfolding some_limit
  optional_limit field d = elim (lookup field d) [
    | none ↦ ok none
    | some Json.null ↦ ok none
    | some v ↦ some_limit field (c.as_int v)
  ]

  -- `ChatCompletionModelProperties(**d)`
  unfoldable pub chat_properties : Fields → Result ChatProperties
  unfolding flag_or_false optional_limit
  chat_properties d = do
    f ← flag_or_false "function_call" d
    s ← flag_or_false "streaming" d
    v ← flag_or_false "vision" d
    i ← optional_limit "input_token_limit" d
    o ← optional_limit "output_token_limit" d
    ok (record {
      function_call = f;
      streaming = s;
      vision = v;
      input_token_limit = i;
      output_token_limit = o;
    })
