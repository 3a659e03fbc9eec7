-- ===== src/Rerank/Api.antt =====
-- codebase/llmhub/app/routes/rerank/route.py, `api_rerank` as a whole: the model and the credentials are
-- validated, and then the provider's model is asked.
use rtxag.Prelude.{ℕ, ◌+◌, String, ◌≡◌, refl, true, Option, none, some, List, [], ◌∷◌, Dict, length}
use rtxag.Error.{Result, ok, err, ◌>>=◌}
use rtxag.Json.{end}
use rtxag.Json.Int.{ℤ}
use rtxag.Credentials.{Values}
use rtxag.Credentials.Validate.{Sources, validate_credentials}
use rtxag.Schema.{ModelSchema, ModelInfo, validate_model_info}
use rtxag.Schema.Info.{validate_model_info_lem}
use rtxag.Properties.{
  ModelType, chat_completion, text_embedding, rerank, wildcard, same_type, Coercion,
}
use rtxag.Rerank.{RerankDocument, RerankResponse, Query, rerank_with}
use rtxag.Rerank.Usage.{Answered, total, texts, rerank_with-Answered}

-- `RerankRequest`
pub record RerankRequest : Type 0 where
  pub model_schema_id : String
  pub provider_model_id : Option String
  pub query : String
  pub documents : List String
  pub top_n : ℤ
  pub credentials : Option (Dict String)
  pub encrypted_credentials : Option (Dict String)

is_rerank_type : (t : ModelType) → same_type rerank t ≡ true → t ≡ rerank
is_rerank_type chat_completion h = cc h
is_rerank_type text_embedding h = cc h
is_rerank_type rerank h = refl
is_rerank_type wildcard h = cc h

module _ {S : Type 0} (c : Coercion) (get_model_schema : String → Option ModelSchema)
    (sources : Sources) (string_tokens : String → ℕ)
    (get_rerank_model : String → Result (Option (Query → Result (List (RerankDocument S))))) where
  abbrev info_for : RerankRequest → Result ModelInfo
  info_for r =
      validate_model_info c get_model_schema r.model_schema_id r.provider_model_id (some end)
        (some rerank)

  abbrev loaded_for : RerankRequest → ModelInfo → Option (Result Values)
  loaded_for r info = validate_credentials sources r.credentials r.encrypted_credentials (info ∷ [])

  abbrev ask : RerankRequest → ModelInfo → Values → Result (RerankResponse S)
  ask r info values =
      rerank_with string_tokens get_rerank_model info values r.query r.documents r.top_n

  abbrev with_values :
      RerankRequest → ModelInfo → Option (Result Values) → Option (Result (RerankResponse S))
  with_values r info none = none
  with_values r info (some values) = some (values >>= ask r info)

  abbrev with_info : RerankRequest → Result ModelInfo → Option (Result (RerankResponse S))
  with_info r (err e) = some (err e)
  with_info r (ok info) = with_values r info (loaded_for r info)

  -- `api_rerank`; none where the search for sets of credentials does not end.
  unfoldable pub api_rerank : RerankRequest → Option (Result (RerankResponse S))
  unfolding validate_model_info validate_credentials rerank_with
  api_rerank r = with_info r (info_for r)

  -- What an answer rests on.
  abbrev pub Admitted : RerankRequest → RerankResponse S → Type 0
  Admitted r a =
      (info : ModelInfo) × (values : Values) × (get_model_schema r.model_schema_id
        ≡ some info.model_schema)
      × (info.model_type ≡ rerank)
      × (loaded_for r info ≡ some (ok values))
      × Answered string_tokens get_rerank_model info values r.query r.documents r.top_n a.data_
      × (a.input_tokens
          ≡ total string_tokens (texts string_tokens r.query r.documents a.data_) + length a.data_)
      × (a.output_tokens ≡ a.input_tokens)

  values_loaded :
      (r : RerankRequest) (info : ModelInfo) (o : Option (Result Values)) (a : RerankResponse S)
      → with_values r info o ≡ some (ok a)
      → (values : Values) × (o ≡ some (ok values)) × (ask r info values ≡ ok a)
  values_loaded r info none a h = cc h
  values_loaded r info (some (err e)) a h = cc h
  values_loaded r info (some (ok values)) a h = (values, refl, cc h)

  info_found :
      (r : RerankRequest) (i : Result ModelInfo) (a : RerankResponse S)
      → with_info r i ≡ some (ok a)
      → (info : ModelInfo) × (i ≡ ok info) × (with_values r info (loaded_for r info) ≡ some (ok a))
  info_found r (err e) a h = cc h
  info_found r (ok info) a h = (info, refl, h)

  -- A request for reranking is answered only by a model whose schema is that of the request and
  -- whose type is rerank, with credentials that were loaded for it: the data are what this model
  -- answers to the query, and both numbers of tokens are those of the query, the documents and the
  -- texts of the results, with one more for each result.
  pub api_rerank-Admitted :
      (r : RerankRequest) (a : RerankResponse S) → api_rerank r ≡ some (ok a) → Admitted r a
  unfolding api_rerank
  api_rerank-Admitted r a h =
      let (info, v, h₁) = info_found r (info_for r) a h in
      let (values, l, h₂) = values_loaded r info (loaded_for r info) a h₁ in
      let (schema, _, _, _, t, _, _) =
        validate_model_info_lem c get_model_schema r.model_schema_id r.provider_model_id (some end)
          (some rerank) info v in
      let (answered, input, output) =
        rerank_with-Answered string_tokens get_rerank_model info values r.query r.documents r.top_n
          a h₂ in
      (info, values, schema, is_rerank_type info.model_type t, l, answered, input, output)
