-- ===== src/Route/Fallback.antt =====
-- Which model answers a request, and what is raised where none does.
use rtxag.Prelude.{
  ℕ, suc, ◌+◌, String, ◌≡◌, refl, sym, ◌∙◌, ◌⊎◌, inl, inr, Option, none, some, List, [], ◌∷◌, ◌++◌,
  length, concat, arith,
}
use rtxag.Error.{
  TkHttpException, Exception, http, raised, Kind, status_code, request_validation_error, ok, err,
}
use rtxag.Message.{ChatCompletion}
use rtxag.Schema.{ModelInfo}
use rtxag.Route.{Models, Call, convert, mark, try_models, chat_completion}

shift : (n k : ℕ) → n + suc k ≡ suc n + k
shift n k = omega arith

abbrev unsupported_error : String → TkHttpException
unsupported_error id = record {
  status = status_code request_validation_error;
  error_code = request_validation_error;
  message = concat ("Provider " ∷ id ∷ " is not supported through the chat_completion API." ∷ []);
}

convert_http : (e : Exception) → (t : TkHttpException) × (convert e ≡ http t)
unfolding convert
convert_http (http t) = (t, refl)
convert_http (raised Kind.invalid_url s) = (_, refl)
convert_http (raised Kind.connection_error s) = (_, refl)
convert_http (raised _ s) = (_, refl)

module _ (ms : Models) (call : Call) where
  open ms use {Model, get_model, complete}

  -- The n-th attempt reaches a model and fails, or the provider has no model.
  abbrev pub Fails : ℕ → ModelInfo → Type 0
  Fails n info =
      (get_model info.model_schema.provider_id ≡ ok none)
      ⊎ ((m : Model) × (e : Exception) × (get_model info.model_schema.provider_id ≡ ok (some m))
          × (complete call n m info.provider_model_id ≡ err e))

  abbrev pub AllFail : ℕ → List ModelInfo → Type 0
  AllFail n [] = Unit
  AllFail n (info ∷ infos) = Fails n info × AllFail (suc n) infos

  -- After a failure the loop goes on with some last exception, which is an HTTP one.
  step-Fails :
      (n : ℕ) (last : Option Exception) (info : ModelInfo) (infos : List ModelInfo)
      → Fails n info
      → (e : TkHttpException) × (try_models ms call n last (info ∷ infos)
          ≡ try_models ms call (suc n) (some (http e)) infos)
  unfolding try_models
  step-Fails n last info infos (inl absent) =
      (unsupported_error info.model_schema.provider_id, rw absent)
  step-Fails n last info infos (inr (m, e, found, failed)) =
      let (t, q) = convert_http e in (t, rw found (rw failed (rw q)))

  -- A model that answers, after models that fail, gives the result; the later ones are not asked.
  first_success :
      (n k : ℕ) (last : Option Exception) (xs : List ModelInfo) (info : ModelInfo)
      (ys : List ModelInfo) (m : Model) (r : ChatCompletion)
      → n + length xs ≡ k
      → AllFail n xs
      → get_model info.model_schema.provider_id ≡ ok (some m)
      → complete call k m info.provider_model_id ≡ ok r
      → try_models ms call n last (xs ++ info ∷ ys) ≡ ok (some (mark k r))
  first_success n k last [] info ys m r p f g h =
      let e : n ≡ k = omega (arith, p) in unfold try_models in rw e (rw g (rw h))
  first_success n k last (x ∷ xs) info ys m r p (f, fs) g h =
      let (t, step) = step-Fails n last x (xs ++ info ∷ ys) f in
      step
      ∙ first_success (suc n) k (some (http t)) xs info ys m r (sym (shift n (length xs)) ∙ p) fs g
          h

  all_fail :
      (n : ℕ) (e : TkHttpException) (xs : List ModelInfo)
      → AllFail n xs
      → (t : TkHttpException) × (try_models ms call n (some (http e)) xs ≡ err (http t))
  all_fail n e [] f = (e, unfold try_models in refl)
  all_fail n e (x ∷ xs) (f, fs) =
      let (t, step) = step-Fails n (some (http e)) x xs f in
      let (t', rest) = all_fail (suc n) t xs fs in (t', step ∙ rest)

  unloadable :
      (n : ℕ) (last : Option Exception) (xs : List ModelInfo) (info : ModelInfo)
      (ys : List ModelInfo) (e : Exception)
      → AllFail n xs
      → get_model info.model_schema.provider_id ≡ err e
      → try_models ms call n last (xs ++ info ∷ ys) ≡ err e
  unloadable n last [] info ys e f g = unfold try_models in rw g
  unloadable n last (x ∷ xs) info ys e (f, fs) g =
      let (t, step) = step-Fails n last x (xs ++ info ∷ ys) f in
      step ∙ unloadable (suc n) (some (http t)) xs info ys e fs g

  -- Where the models before it fail and a model answers, the route returns its answer, with the
  -- number of the fallback, counted from 0, if it is not the primary model; what the later models
  -- would answer has no influence.
  pub chat_completion-first_success :
      (xs : List ModelInfo) (info : ModelInfo) (ys : List ModelInfo) (m : Model)
      (r : ChatCompletion)
      → AllFail 0 xs
      → get_model info.model_schema.provider_id ≡ ok (some m)
      → complete call (length xs) m info.provider_model_id ≡ ok r
      → chat_completion ms call (xs ++ info ∷ ys) ≡ ok (some (mark (length xs) r))
  unfolding chat_completion
  chat_completion-first_success [] info ys m r f g h = rw g (rw h)
  chat_completion-first_success (x ∷ xs) info ys m r f g h =
      first_success 0 (length (x ∷ xs)) none (x ∷ xs) info ys m r (omega arith) f g h

  -- Where every model fails, the route raises an HTTP exception.
  pub chat_completion_all_fail :
      (info : ModelInfo) (infos : List ModelInfo)
      → AllFail 0 (info ∷ infos)
      → (t : TkHttpException) × (chat_completion ms call (info ∷ infos) ≡ err (http t))
  unfolding chat_completion
  chat_completion_all_fail info infos (f, fs) =
      let (t, step) = step-Fails 0 none info infos f in
      let (t', rest) = all_fail 1 t infos fs in (t', step ∙ rest)

  -- Where the models before it fail and the module of a provider cannot be loaded, the route raises
  -- what the loading raised, whatever the fallbacks behind it would answer.
  pub chat_completion_unloadable :
      (xs : List ModelInfo) (info : ModelInfo) (ys : List ModelInfo) (e : Exception)
      → AllFail 0 xs
      → get_model info.model_schema.provider_id ≡ err e
      → chat_completion ms call (xs ++ info ∷ ys) ≡ err e
  unfolding chat_completion
  chat_completion_unloadable [] info ys e f g = rw g
  chat_completion_unloadable (x ∷ xs) info ys e f g = unloadable 0 none (x ∷ xs) info ys e f g
