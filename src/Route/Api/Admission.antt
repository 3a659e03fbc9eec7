-- ===== src/Route/Api/Admission.antt =====
-- What has been checked when a request for a chat completion is answered.
use rtxag.Prelude.{
  String, ◌≡◌, refl, Bool, true, false, not, Option, none, some, List, [], ◌∷◌, Dict, get, All,
  is_empty,
}
use rtxag.Error.{Result, ok, err, ◌>>=◌, ok-bind}
use rtxag.Json.{Json, Fields}
use rtxag.Request.{has_multimodal_user_message}
use rtxag.Schema.{ModelSchema, ModelInfo, allow_stream, allow_function_call, allow_vision_input}
use rtxag.Properties.{Coercion}
use rtxag.Config.{Configuration, constraints_from, validate_chat_completion_model}
use rtxag.Config.Checks.{
  CheckedBy, Checked, drop_unknown, unless_unknown, validate_chat_completion_model_lem,
}
use rtxag.Credentials.{Values}
use rtxag.Credentials.Validate.{Sources, validate_credentials}
use rtxag.Route.{Models}
use rtxag.Route.Generator.{Printer}
use rtxag.Route.Api.{
  ChatRequest, Reply, listed, check_models, check_chat_type, model_infos, checked, infer,
  with_models, with_credentials, api_chat_completion,
}

abbrev pub known : ModelInfo → Dict Fields
known info = constraints_from [] info.model_schema.config_schemas

-- A configuration that conforms to what a model demands of the values that it has.
abbrev pub Conforming : Configuration → ModelInfo → Type 0
Conforming cs info = All (Checked (known info)) cs

-- The features that are asked of a model are ones that it allows.
abbrev pub Capable : Bool → Bool → Bool → ModelInfo → Type 0
Capable stream functions vision info =
    (stream ≡ true → allow_stream info.model_schema ≡ ok true)
    × (functions ≡ true → allow_function_call info.model_schema ≡ ok true)
    × (vision ≡ true → allow_vision_input info.model_schema ≡ ok true)

dropped_value :
    (o : Option Fields) (p : Option Fields) (v : Option Json)
    → CheckedBy o v
    → CheckedBy o (unless_unknown p v)
dropped_value o none v h = tt
dropped_value o (some s) v h = h

-- To drop values keeps a configuration conforming.
dropped :
    (info : ModelInfo) (d : Dict Fields) (cs : Configuration)
    → Conforming cs info
    → Conforming (drop_unknown false d cs) info
dropped info d [] h = tt
dropped info d ((key, v) ∷ cs) (h, hs) =
    (dropped_value (get key (known info)) (get key d) v h, dropped info d cs hs)

still :
    (stream functions vision : Bool) (infos : List ModelInfo) (cs cs' : Configuration)
    (info : ModelInfo)
    → check_models stream functions vision infos cs ≡ ok cs'
    → Conforming cs info
    → Conforming cs' info
unfolding check_models
still stream functions vision [] cs cs' info h c = let e : cs ≡ cs' = cc in rw (← e) c
still stream functions vision (x ∷ xs) cs cs' info h c =
    let (cs₁, v, h₁) =
      ok-bind _ (validate_chat_completion_model x.model_schema stream functions vision cs false)
        h in
    let (_, t, h₂) =
      ok-bind (λ _. check_models stream functions vision xs cs₁) (check_chat_type x.model_type)
        h₁ in
    let (_, _, _, _, e) =
      validate_chat_completion_model_lem x.model_schema stream functions vision false cs cs₁ v in
    still stream functions vision xs cs₁ cs' info h₂ (rw e (dropped info (known x) cs c))

check_models_lem :
    (stream functions vision : Bool) (infos : List ModelInfo) (cs cs' : Configuration)
    → check_models stream functions vision infos cs ≡ ok cs'
    → All (Capable stream functions vision) infos × All (Conforming cs') infos
unfolding check_models
check_models_lem stream functions vision [] cs cs' h = (tt, tt)
check_models_lem stream functions vision (x ∷ xs) cs cs' h =
    let (cs₁, v, h₁) =
      ok-bind _ (validate_chat_completion_model x.model_schema stream functions vision cs false)
        h in
    let (_, t, h₂) =
      ok-bind (λ _. check_models stream functions vision xs cs₁) (check_chat_type x.model_type)
        h₁ in
    let (s, f, w, c, _) =
      validate_chat_completion_model_lem x.model_schema stream functions vision false cs cs₁ v in
    let (capable, conforming) = check_models_lem stream functions vision xs cs₁ cs' h₂ in
    (((s, f, w), capable), (still stream functions vision xs cs₁ cs' x h₂ c, conforming))

module _ (c : Coercion) (get_model_schema : String → Option ModelSchema) (sources : Sources)
    (models : Models) (printer : Printer) where
  -- What the answer to a request went through.
  abbrev pub Admitted : ChatRequest → Reply → Type 0
  Admitted r reply =
      (infos : List ModelInfo) × (values : Values) × (configs : Configuration) × (model_infos c
          get_model_schema r
        ≡ ok infos)
      × (validate_credentials sources r.credentials r.encrypted_credentials infos
          ≡ some (ok values))
      × All
          (Capable r.stream (not (is_empty (listed r.functions)))
            (has_multimodal_user_message r.messages))
          infos
      × All (Conforming configs) infos
      × (infer c get_model_schema sources models printer r infos values configs ≡ ok reply)

  credentials_lem :
      (r : ChatRequest) (infos : List ModelInfo) (reply : Reply) (o : Option (Result Values))
      → with_credentials
          (λ values.
            checked c get_model_schema sources models printer r infos
            >>= infer c get_model_schema sources models printer r infos values)
          o
        ≡ some (ok reply)
      → (values : Values) × (configs : Configuration) × (o ≡ some (ok values))
        × (checked c get_model_schema sources models printer r infos ≡ ok configs)
        × (infer c get_model_schema sources models printer r infos values configs ≡ ok reply)
  credentials_lem r infos reply none h = cc h
  credentials_lem r infos reply (some (err e)) h = cc h
  credentials_lem r infos reply (some (ok values)) h =
      let g : (checked c get_model_schema sources models printer r infos
            >>= infer c get_model_schema sources models printer r infos values)
          ≡ ok reply =
        cc h in
      let (configs, a, b) =
        ok-bind (infer c get_model_schema sources models printer r infos values)
          (checked c get_model_schema sources models printer r infos) g in
      (values, configs, refl, a, b)

  with_models_lem :
      (r : ChatRequest) (reply : Reply) (m : Result (List ModelInfo))
      → model_infos c get_model_schema r ≡ m
      → with_models c get_model_schema sources models printer r m ≡ some (ok reply)
      → Admitted r reply
  with_models_lem r reply (err e) q h = cc h
  with_models_lem r reply (ok infos) q h =
      let (values, configs, v, ch, i) =
        credentials_lem r infos reply
          (validate_credentials sources r.credentials r.encrypted_credentials infos) h in
      let (capable, conforming) =
        check_models_lem r.stream (not (is_empty (listed r.functions)))
          (has_multimodal_user_message r.messages) infos r.configs configs ch in
      (infos, values, configs, q, v, capable, conforming, i)

  -- A request is answered only by an inference over all the models that it names, the primary one
  -- and every fallback, each of which allows streaming, functions and images where the request has
  -- them, with credentials that were loaded for all of them, and with one configuration whose
  -- values conform to what every one of these models demands under the same name.
  pub api_chat_completion-Admitted :
      (r : ChatRequest) (reply : Reply)
      → api_chat_completion c get_model_schema sources models printer r ≡ some (ok reply)
      → Admitted r reply
  unfolding api_chat_completion
  api_chat_completion-Admitted r reply h =
      with_models_lem r reply (model_infos c get_model_schema r) refl h
