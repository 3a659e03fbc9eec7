-- ===== src/Schema.antt =====
-- codebase/llmhub/app/models/model_schema.py: the schema of a model, the features that it allows, and
-- the model info of a request.
pub mod Info
mod Tests
use rtxag.Prelude.{
  ℕ, String, Bool, true, false, not, ◌&&◌, ◌||◌, Option, none, some, List, [], ◌∷◌, concat,
  nonempty, leb, ltb, if◌then◌else◌,
}
use rtxag.Error.{ErrorCode, Result, ok, err, raised, Kind, ◌>>=◌, ◌>>◌, raise_http_error, Exception}
use rtxag.Json.{Json, Fields, lookup}
use rtxag.Properties.{
  ModelType, chat_completion, text_embedding, rerank, wildcard, type_value, same_type,
  ChatProperties, EmbeddingProperties, Properties, chat, embedding, Coercion, embedding_properties,
  chat_properties,
}
use rtxag.Json.Int.{ℤ}

-- A configuration schema of a model: its id, and the constraints under its key "schema".
pub record ConfigSchema : Type 0 where
  pub config_id : String
  pub schema : Fields

pub record ModelSchema : Type 0 where
  pub model_schema_id : String
  pub name : String
  pub description : String
  pub deprecated : Bool
  pub provider_id : String
  pub provider_model_id : Option String
  pub type : ModelType
  pub properties : Option Properties
  pub config_schemas : List ConfigSchema

-- The common shape of `allow_stream`, `allow_function_call` and `allow_vision_input`.
abbrev allows : (ChatProperties → Bool) → Option Properties → Result Bool
allows flag none = ok true
allows flag (some (chat p)) = ok (flag p)
allows flag (some (embedding p)) =
    err (raised Kind.attribute_error "'TextEmbeddingModelProperties' object has no such attribute")

abbrev converses : ModelType → Bool
converses t = same_type t chat_completion || same_type t wildcard

unfoldable pub allow_stream : ModelSchema → Result Bool
allow_stream m = if converses m.type then allows (λ p. p.streaming) m.properties else ok false

unfoldable pub allow_function_call : ModelSchema → Result Bool
allow_function_call m =
    if converses m.type then allows (λ p. p.function_call) m.properties else ok false

unfoldable pub allow_vision_input : ModelSchema → Result Bool
allow_vision_input m = if converses m.type then allows (λ p. p.vision) m.properties else ok false

-- The tuple that `validate_model_info` returns.
pub record ModelInfo : Type 0 where
  pub model_schema : ModelSchema
  pub provider_model_id : String
  pub properties : Option Properties
  pub model_type : ModelType

abbrev pub bad_request {ℓ} : {A : Type ℓ} → String → Result A
bad_request message = raise_http_error ErrorCode.request_validation_error message

-- `a or b` of optional texts, where the empty text is false.
abbrev pub or_else : Option String → Option String → Option String
or_else none b = b
or_else (some s) b = if nonempty s then some s else b

abbrev require_id : Option String → Result String
require_id none = bad_request "provider_model_id is required."
require_id (some s) = if nonempty s then ok s else bad_request "provider_model_id is required."

-- `_model_type`: a wildcard takes the type that is asked for.
abbrev pub resolve_type : ModelType → Option ModelType → ModelType
resolve_type wildcard (some t) = t
resolve_type t _ = t

-- Whether a request for a type, if there is one, is for this type.
abbrev pub agrees : Option ModelType → ModelType → Bool
agrees none t = true
agrees (some r) t = same_type r t

unfoldable pub check_type : ModelType → Option ModelType → Result (Unit {0})
check_type t requested =
    if same_type t wildcard
    then bad_request "model_type is required."
    else if agrees requested t
    then ok tt
    else bad_request (concat ("model_type " ∷ type_value t ∷ " is invalid" ∷ []))

-- `except ValidationError as e`
abbrev pub on_validation_error {ℓ} : {A : Type ℓ} → (String → String) → Result A → Result A
on_validation_error message (err (raised Kind.validation_error e)) = bad_request (message e)
on_validation_error message r = r

abbrev given_fields : Option Fields → Fields
given_fields none = Fields.end
given_fields (some d) = d

abbrev has_fields : Fields → Bool
has_fields Fields.end = false
has_fields (Fields.field k v fs) = true

abbrev lift_embedding : Result EmbeddingProperties → Result (Option Properties)
lift_embedding r = do p ← r; ok (some (embedding p))

abbrev lift_chat : Result ChatProperties → Result (Option Properties)
lift_chat r = do p ← r; ok (some (chat p))

module _ (c : Coercion) where
  -- The properties of a model whose schema has none.
  unfoldable pub custom_properties : ModelType → Option Fields → Result (Option Properties)
  custom_properties text_embedding d =
      if has_fields (given_fields d)
      then on_validation_error
          (λ e. concat ("properties is invalid for a text_embedding model. " ∷ e ∷ []))
          (lift_embedding (embedding_properties c (given_fields d)))
      else bad_request "property embedding_size is required for a text_embedding model."
  custom_properties chat_completion d =
      on_validation_error (λ e. "properties is invalid for a chat_completion model.")
        (lift_chat (chat_properties c (given_fields d)))
  custom_properties rerank d = ok none
  custom_properties wildcard d = bad_request "model type wildcard is not supported."

  unfoldable pub choose_properties :
      Option Properties → ModelType → Option Fields → Result (Option Properties)
  choose_properties (some p) t d = ok (some p)
  choose_properties none t d = custom_properties t d

  abbrev found : String → Option ModelSchema → Result ModelSchema
  found id none =
      raise_http_error ErrorCode.object_not_found
        (concat ("model schema " ∷ id ∷ " not found." ∷ []))
  found id (some m) = ok m

  -- The checks that follow once the model's id is known.
  complete_info : ModelSchema → Option Fields → Option ModelType → String → Result ModelInfo
  complete_info schema d requested model =
      let t = resolve_type schema.type requested in
      check_type t requested
      >> (choose_properties schema.properties t d >>= λ properties. ok (record {
        model_schema = schema;
        provider_model_id = model;
        properties = properties;
        model_type = t;
      }))

  schema_info : Option String → Option Fields → Option ModelType → ModelSchema → Result ModelInfo
  schema_info pmid d requested schema = do
    model ← require_id (or_else schema.provider_model_id pmid)
    complete_info schema d requested model

  -- `validate_model_info`, over the lookup `get_model_schema` of the cache.
  unfoldable pub validate_model_info :
      (String → Option ModelSchema)
      → String
      → Option String
      → Option Fields
      → Option ModelType
      → Result ModelInfo
  unfolding check_type choose_properties custom_properties complete_info schema_info
  validate_model_info get_model_schema id pmid d requested = do
    schema ← found id (get_model_schema id)
    schema_info pmid d requested schema
