-- ===== src/Verify/Outcome.antt =====
-- What it means that credentials are verified, and when they are accepted without an answer.
use rtxag.Prelude.{String, ◌≡◌, ◌⊎◌, inl, inr, refl, ap, ◌∙◌, List, [], ◌∷◌, arith}
use rtxag.Error.{
  Exception, TkHttpException, raised, http, Kind, Result, ok, err, ok-bind, Result-cases,
}
use rtxag.Schema.{ModelInfo}
use rtxag.Properties.{EmbeddingProperties}
use rtxag.Config.{Configuration}
use rtxag.Credentials.{Values, encrypt}
use rtxag.Embedding.{Output, embed_text, embedding_of}
use rtxag.Verify.{Services, probe, probe_embedding, first_output, handle, verify}

-- No connection to the provider: a wrong URL, or no answer at its address.
abbrev pub Unreachable : Result (Unit {0}) → Type 0
Unreachable r =
    ((s : String) × (r ≡ err (raised Kind.invalid_url s)))
    ⊎ ((s : String) × (r ≡ err (raised Kind.connection_error s)))

passes : (r : Result (Unit {0})) → handle r ≡ ok tt → (r ≡ ok tt) ⊎ Unreachable r
unfolding handle
passes (ok u) h = inl refl
passes (err (http e)) h = cc h
passes (err (raised Kind.invalid_url s)) h = inr (inl (s, refl))
passes (err (raised Kind.connection_error s)) h = inr (inr (s, refl))
passes (err (raised Kind.value_error s)) h = cc h
passes (err (raised Kind.key_error s)) h = cc h
passes (err (raised Kind.index_error s)) h = cc h
passes (err (raised Kind.type_error s)) h = cc h
passes (err (raised Kind.attribute_error s)) h = cc h
passes (err (raised Kind.validation_error s)) h = cc h
passes (err (raised Kind.other_error s)) h = cc h

goes_on : (r : Result (Unit {0})) → Unreachable r → handle r ≡ ok tt
unfolding handle
goes_on r (inl (s, q)) = rw q refl
goes_on r (inr (s, q)) = rw q refl

accepted : (r : Result (Unit {0})) → (r ≡ ok tt) ⊎ Unreachable r → handle r ≡ ok tt
unfolding handle
accepted r (inl q) = rw q refl
accepted r (inr u) = goes_on r u

abbrev IsHttp : Exception → Type 0
IsHttp e = (x : TkHttpException) × (e ≡ http x)

http-IsHttp {ℓ} :
    {A : Type ℓ} (x : TkHttpException) (e : Exception)
    → ◌≡◌ {A = Result A} (err (http x)) (err e)
    → IsHttp e
http-IsHttp x e h = (x, cc h)

handle-IsHttp : (r : Result (Unit {0})) (e : Exception) → handle r ≡ err e → IsHttp e
unfolding handle
handle-IsHttp (ok u) e h = cc h
handle-IsHttp (err (http x)) e h = http-IsHttp _ e h
handle-IsHttp (err (raised Kind.invalid_url s)) e h = cc h
handle-IsHttp (err (raised Kind.connection_error s)) e h = cc h
handle-IsHttp (err (raised Kind.value_error s)) e h = http-IsHttp _ e h
handle-IsHttp (err (raised Kind.key_error s)) e h = http-IsHttp _ e h
handle-IsHttp (err (raised Kind.index_error s)) e h = http-IsHttp _ e h
handle-IsHttp (err (raised Kind.type_error s)) e h = http-IsHttp _ e h
handle-IsHttp (err (raised Kind.attribute_error s)) e h = http-IsHttp _ e h
handle-IsHttp (err (raised Kind.validation_error s)) e h = http-IsHttp _ e h
handle-IsHttp (err (raised Kind.other_error s)) e h = http-IsHttp _ e h

module _ (svc : Services) where
  -- A probe that passed, or that did not reach the provider.
  abbrev pub Passed : ModelInfo → Values → Configuration → Type 0
  Passed info credentials configs =
      (probe svc info.model_type info credentials configs ≡ ok tt)
      ⊎ Unreachable (probe svc info.model_type info credentials configs)

  -- Either the probe passes or the provider cannot be reached, and the credentials are accepted and
  -- returned encrypted; or neither is so, and an HTTP exception is raised.
  pub verify_lem :
      (info : ModelInfo) (credentials : Values) (configs : Configuration)
      → (Passed info credentials configs
          × (verify svc info credentials configs ≡ ok (encrypt svc.suite svc.ivs credentials)))
        ⊎ ((Passed info credentials configs → ⊥)
            × ((x : TkHttpException) × (verify svc info credentials configs ≡ err (http x))))
  unfolding verify
  verify_lem info credentials configs =
      let r = probe svc info.model_type info credentials configs in
      elim (Result-cases (handle r)) [
        | inl (e, q) ↦
            let (x, same) = handle-IsHttp r e q in
            inr ((λ p. let good = accepted r p in cc), (x, rw (q, same) refl))
        | inr (u, q) ↦ inl (passes r q, rw q refl)
      ]

  -- Where the probe raises InvalidURL or ClientConnectionError, the credentials are accepted and
  -- returned encrypted.
  pub verify-Unreachable :
      (info : ModelInfo) (credentials : Values) (configs : Configuration)
      → Unreachable (probe svc info.model_type info credentials configs)
      → verify svc info credentials configs ≡ ok (encrypt svc.suite svc.ivs credentials)
  unfolding verify
  verify-Unreachable info credentials configs h =
      rw (goes_on (probe svc info.model_type info credentials configs) h) refl

  output_found :
      (os : List (Output svc.embedder.Vector)) (o : Output svc.embedder.Vector)
      → first_output svc os ≡ ok o
      → (rest : List (Output svc.embedder.Vector)) × (os ≡ o ∷ rest)
  output_found [] o h = cc h
  output_found (x ∷ xs) o h = let e : x ≡ o = cc h in (xs, ap (λ y. y ∷ xs) e)

  -- The probe of an embedding model passes only if the model embeds "Hello" in a vector of the size
  -- that the properties state.
  pub probe_embedding_lem :
      (info : ModelInfo)
      → probe_embedding svc info ≡ ok tt
      → (p : EmbeddingProperties) × (o : Output svc.embedder.Vector) × (rest : List
          (Output svc.embedder.Vector))
        × (embedding_of svc.embedder info.properties ≡ ok p)
        × (embed_text svc.embedder info.model_schema.provider_id info.provider_model_id
              p.max_batch_size
              ("Hello" ∷ [])
            ≡ ok (o ∷ rest))
        × (svc.vector_length o.vector ≡ p.embedding_size)
  unfolding probe_embedding
  probe_embedding_lem info h =
      let (p, q, h₁) = ok-bind _ (embedding_of svc.embedder info.properties) h in
      let (os, e, h₂) =
        ok-bind _
          (embed_text svc.embedder info.model_schema.provider_id info.provider_model_id
            p.max_batch_size ("Hello" ∷ []))
          h₁ in
      let (o, f, h₃) = ok-bind _ (first_output svc os) h₂ in
      let (rest, g) = output_found os o f in (p, o, rest, q, e ∙ ap ok g, ground arith)
