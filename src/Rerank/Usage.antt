-- ===== src/Rerank/Usage.antt =====
-- What the route for reranking counts, and what it raises.
use rtxag.Prelude.{
  ℕ, ◌+◌, String, ◌≡◌, refl, sym, ◌∙◌, Option, none, some, List, [], ◌∷◌, ◌++◌, map, length, arith,
}
use rtxag.Error.{Exception, TkHttpException, http, raised, Result, ok, err, ◌>>◌, ok-bind}
use rtxag.Json.Int.{ℤ}
use rtxag.Credentials.{Values}
use rtxag.Schema.{ModelInfo}
use rtxag.Properties.{ModelType}
use rtxag.Rerank.{
  RerankDocument, RerankResponse, Query, rerank_with, handled, add_documents, add_results, respond,
  with_model, check_type, query_for, internal,
}

abbrev IsHttp : Exception → Type 0
IsHttp e = (x : TkHttpException) × (e ≡ http x)

handled-ok {ℓ} : {A : Type ℓ} (r : Result A) (a : A) → handled r ≡ ok a → r ≡ ok a
handled-ok (err e) a h = cc h
handled-ok (ok b) a h = h

internal-IsHttp : (e : Exception) → IsHttp (internal e)
internal-IsHttp (http x) = (x, refl)
internal-IsHttp (raised k s) = (_, refl)

handled-IsHttp {ℓ} : {A : Type ℓ} (r : Result A) (e : Exception) → handled r ≡ err e → IsHttp e
handled-IsHttp (err d) e h =
    let (x, q) = internal-IsHttp d in let s : internal d ≡ e = cc h in (x, sym s ∙ q)
handled-IsHttp (ok a) e h = cc h

http-IsHttp {ℓ} :
    {A : Type ℓ} (x : TkHttpException) (e : Exception)
    → ◌≡◌ {A = Result A} (err (http x)) (err e)
    → IsHttp e
http-IsHttp x e h = (x, cc h)

-- The tokens of texts, counted one by one.
abbrev pub total : (String → ℕ) → List String → ℕ
total string_tokens [] = 0
total string_tokens (s ∷ ss) = string_tokens s + total string_tokens ss

module _ {S : Type 0} (string_tokens : String → ℕ) where
  -- The texts of the request and of its results.
  abbrev pub texts : String → List String → List (RerankDocument S) → List String
  texts query documents rs = query ∷ (documents ++ map (λ r. r.document) rs)

  add_results_lem :
      (n : ℕ) (rs : List (RerankDocument S))
      → add_results string_tokens n rs
        ≡ n + (total string_tokens (map (λ r. r.document) rs) + length rs)
  add_results_lem n [] = omega arith
  add_results_lem n (r ∷ rs) =
      omega (arith, add_results_lem (n + (string_tokens r.document + 1)) rs)

  add_documents_lem :
      (n : ℕ) (ds : List String) (rs : List (RerankDocument S))
      → add_results string_tokens (add_documents string_tokens n ds) rs
        ≡ n + (total string_tokens (ds ++ map (λ r. r.document) rs) + length rs)
  add_documents_lem n [] rs = add_results_lem n rs
  add_documents_lem n (d ∷ ds) rs = omega (arith, add_documents_lem (n + string_tokens d) ds rs)

  module _ (get_rerank_model : String → Result (Option (Query → Result (List (RerankDocument S)))))
      (info : ModelInfo) (credentials : Values) (query : String) (documents : List String)
      (top_n : ℤ) where
    abbrev asked : Query
    asked = query_for info credentials query documents top_n

    -- The provider has a model, and the data are what it answers to the query.
    abbrev pub Answered : List (RerankDocument S) → Type 0
    Answered rs =
        (rerank : Query → Result (List (RerankDocument S))) × (get_rerank_model
            info.model_schema.provider_id
          ≡ ok (some rerank))
        × (rerank asked ≡ ok rs)

    model_found :
        (found : Option (Query → Result (List (RerankDocument S)))) (rs : List (RerankDocument S))
        → get_rerank_model info.model_schema.provider_id ≡ ok found
        → with_model string_tokens info.model_schema.provider_id found asked ≡ ok rs
        → Answered rs
    model_found none rs g h = cc h
    model_found (some rerank) rs g h = (rerank, g, h)

    -- When the route answers, the data are the answer of the provider's model, and both numbers of
    -- tokens are those of the query, the documents and the texts of the results, with one more for
    -- each result.
    pub rerank_with-Answered :
        (r : RerankResponse S)
        → rerank_with string_tokens get_rerank_model info credentials query documents top_n ≡ ok r
        → Answered r.data_
          × (r.input_tokens ≡ total string_tokens (texts query documents r.data_) + length r.data_)
          × (r.output_tokens ≡ r.input_tokens)
    unfolding rerank_with
    rerank_with-Answered r h =
        let (_, _, h₀) = ok-bind _ (check_type info.model_type) h in
        let h₁ = handled-ok _ r h₀ in
        let (found, g, h₂) = ok-bind _ (get_rerank_model info.model_schema.provider_id) h₁ in
        let (rs, m, h₃) =
          ok-bind _ (with_model string_tokens info.model_schema.provider_id found asked) h₂ in
        let e : respond string_tokens asked rs ≡ r = cc h₃ in
        rw (← e) (
          model_found found rs g m,
          add_documents_lem (string_tokens query) documents rs ∙ omega arith,
          refl,
        )

    type_checked :
        (t : ModelType) (next : Result (RerankResponse S)) (e : Exception)
        → (check_type t >> handled next) ≡ err e
        → IsHttp e
    type_checked ModelType.rerank next e h = handled-IsHttp next e h
    type_checked ModelType.wildcard next e h = handled-IsHttp next e h
    type_checked ModelType.chat_completion next e h = http-IsHttp _ e h
    type_checked ModelType.text_embedding next e h = http-IsHttp _ e h

    -- Whatever a provider's model or the lookup of it raises, the route raises an HTTP exception.
    pub rerank_with-IsHttp :
        (e : Exception)
        → rerank_with string_tokens get_rerank_model info credentials query documents top_n ≡ err e
        → (x : TkHttpException) × (e ≡ http x)
    unfolding rerank_with
    rerank_with-IsHttp e h = type_checked info.model_type _ e h
