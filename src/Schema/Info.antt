-- ===== src/Schema/Info.antt =====
-- What `validate_model_info` guarantees of the model info that it returns.
use rtxag.Prelude.{String, ◌≡◌, ◌≢◌, ◌⊎◌, refl, true, Option, none, some, nonempty, arith}
use rtxag.Error.{ok, ok-bind}
use rtxag.Json.{Fields}
use rtxag.Schema.{
  ModelSchema, ModelInfo, validate_model_info, check_type, choose_properties, custom_properties,
  complete_info, schema_info, require_id, or_else, resolve_type, agrees, found,
}
use rtxag.Properties.{
  ModelType, chat_completion, text_embedding, rerank, wildcard, Properties, chat, embedding,
  Coercion,
}

-- The properties have the class that belongs to the type.
abbrev pub Fits : ModelType → Option Properties → Type 0
Fits chat_completion (some (chat p)) = Unit
Fits text_embedding (some (embedding p)) = Unit
Fits rerank p = Unit
Fits _ _ = ⊥

abbrev Typed : ModelType → Option Properties → Type 0
Typed t none = Unit
Typed chat_completion (some (chat p)) = Unit
Typed text_embedding (some (embedding p)) = Unit
Typed _ _ = ⊥

-- A schema as the loader builds it: properties, where it has them, of the class of its type.
abbrev pub IsBuilt : ModelSchema → Type 0
IsBuilt m = Typed m.type m.properties

Typed-Fits :
    (t : ModelType) (r : Option ModelType) (p : Properties)
    → Typed t (some p)
    → Fits (resolve_type t r) (some p)
Typed-Fits chat_completion r (chat p) h = tt
Typed-Fits chat_completion r (embedding p) h = absurd h
Typed-Fits text_embedding r (chat p) h = absurd h
Typed-Fits text_embedding r (embedding p) h = tt
Typed-Fits rerank r p h = tt
Typed-Fits wildcard r p h = absurd h

ends_in_type :
    (t : ModelType) (r : Option ModelType)
    → check_type (resolve_type t r) r ≡ ok tt
    → (resolve_type t r ≢ wildcard)
      × (agrees r (resolve_type t r) ≡ true)
      × ((t ≡ wildcard) ⊎ (resolve_type t r ≡ t))
unfolding check_type
ends_in_type t r h = ((λ e. ground arith), ground arith, ground arith)

module _ (c : Coercion) where
  custom-Fits :
      (t : ModelType) (d : Option Fields) (p : Option Properties)
      → custom_properties c t d ≡ ok p
      → Fits t p
  unfolding custom_properties
  custom-Fits chat_completion d p h = ground (arith)
  custom-Fits text_embedding d p h = ground arith
  custom-Fits rerank d p h = tt
  custom-Fits wildcard d p h = cc

  choose-Fits :
      (t : ModelType) (r : Option ModelType) (o : Option Properties) (d : Option Fields)
      (p : Option Properties)
      → Typed t o
      → choose_properties c o (resolve_type t r) d ≡ ok p
      → Fits (resolve_type t r) p
  unfolding choose_properties
  choose-Fits t r none d p w h = custom-Fits (resolve_type t r) d p h
  choose-Fits t r (some q) d p w h = let e : some q ≡ p = cc in rw (← e) (Typed-Fits t r q w)

  complete_info_lem :
      (s : ModelSchema) (d : Option Fields) (r : Option ModelType) (m : String) (info : ModelInfo)
      → complete_info c s d r m ≡ ok info
      → (info.model_schema ≡ s)
        × (info.provider_model_id ≡ m)
        × (info.model_type ≢ wildcard)
        × (agrees r info.model_type ≡ true)
        × ((s.type ≡ wildcard) ⊎ (info.model_type ≡ s.type))
        × (IsBuilt s → Fits info.model_type info.properties)
  unfolding complete_info
  complete_info_lem s d r m info h =
      let (_, checked, h') = ok-bind _ (check_type (resolve_type s.type r) r) h in
      let (p, chosen, h'') =
        ok-bind _ (choose_properties c s.properties (resolve_type s.type r) d) h' in
      let (w, a, o) = ends_in_type s.type r checked in
      let e : info ≡ record {
        model_schema = s;
        provider_model_id = m;
        properties = p;
        model_type = resolve_type s.type r;
      } =
        cc h'' in
      rw e (refl, refl, w, a, o, (λ b. choose-Fits s.type r s.properties d p b chosen))

required :
    (o : Option String) (m : String) → require_id o ≡ ok m → (o ≡ some m) × (nonempty m ≡ true)
required none m h = cc
required (some s) m h = ground arith

the_found :
    (c : Coercion) (id : String) (o : Option ModelSchema) (s : ModelSchema)
    → found c id o ≡ ok s
    → o ≡ some s
the_found c id none s h = cc
the_found c id (some t) s h = cc

-- A model info names the schema under the requested id, a non-empty provider model id, and a type
-- that is no wildcard, agrees with the requested type if there is one, and is the schema's own
-- unless that is a wildcard. From a schema as the loader builds it, the properties have the class
-- that belongs to this type.
pub validate_model_info_lem :
    (c : Coercion) (get_model_schema : String → Option ModelSchema) (id : String)
    (pmid : Option String) (d : Option Fields) (r : Option ModelType) (info : ModelInfo)
    → validate_model_info c get_model_schema id pmid d r ≡ ok info
    → (get_model_schema id ≡ some info.model_schema)
      × (nonempty info.provider_model_id ≡ true)
      × (or_else info.model_schema.provider_model_id pmid ≡ some info.provider_model_id)
      × (info.model_type ≢ wildcard)
      × (agrees r info.model_type ≡ true)
      × ((info.model_schema.type ≡ wildcard) ⊎ (info.model_type ≡ info.model_schema.type))
      × (IsBuilt info.model_schema → Fits info.model_type info.properties)
unfolding validate_model_info
validate_model_info_lem c get id pmid d r info h =
    let (s, at, h') = ok-bind (schema_info c pmid d r) (found c id (get id)) h in
    let (m, model, h'') =
      ok-bind (complete_info c s d r) (require_id (or_else s.provider_model_id pmid)) h' in
    let (es, em, w, a, o, f) = complete_info_lem c s d r m info h'' in
    let (chosen, non) = required (or_else s.provider_model_id pmid) m model in
    rw es (the_found c id (get id) s at, rw em non, rw em chosen, w, a, o, f)
