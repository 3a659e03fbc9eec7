-- ===== src/Cache/Registered.antt =====
-- A registry creates a model once, and loading registers every model that can be created.
use rtxag.Prelude.{
  String, ◌≡◌, ◌⊎◌, inl, inr, refl, ap, ◌∙◌, Bool, true, false, none, some, List, [], ◌∷◌, Dict,
  get, put, get-put, get-put_self, ◌==◌, eq_iff, contains, arith, Bool-cases, Option-cases,
}
use rtxag.Error.{Result, ok, err}
use rtxag.Cache.{get_provider_model, load_all_models, stored, found_or}

module _ {ℓ} {M : Type ℓ} (load_class : String → Result M) where
  -- A registered model stays what it is.
  kept :
      (id j : String) (models : Dict M) (m : M)
      → get j models ≡ some m
      → get j (get_provider_model load_class id models).1 ≡ some m
  unfolding get_provider_model
  kept id j models m h = elim (Option-cases (get id models)) [
    | inl absent ↦ rw absent (created (load_class id) absent)
    | inr (n, there) ↦ rw there h
  ]
    where
      created :
          (r : Result M) → get id models ≡ none → get j (stored load_class id models r).1 ≡ some m
      created (err e) absent = h
      created (ok n) absent = ground (arith, get-put id j n models, eq_iff id j)

  loaded_stays :
      (has_module : String → Bool) (ids : List String) (j : String) (models : Dict M) (m : M)
      → get j models ≡ some m
      → get j (load_all_models load_class has_module ids models) ≡ some m
  unfolding load_all_models
  loaded_stays has_module [] j models m h = h
  loaded_stays has_module (id ∷ ids) j models m h = elim (Bool-cases (has_module id)) [
    | inl k ↦ rw k (
        loaded_stays has_module ids j (get_provider_model load_class id models).1 m
          (kept id j models m h))
    | inr k ↦ rw k (loaded_stays has_module ids j models m h)
  ]

  -- Once a model was created, it is what every later call returns, and the class is not loaded again.
  pub get_provider_model-again :
      (id : String) (models models' : Dict M) (m : M) (other : String → Result M)
      → get_provider_model load_class id models ≡ (ok m, models')
      → get_provider_model other id models' ≡ (ok m, models')
  unfolding get_provider_model
  get_provider_model-again id models models' m other h = elim (Option-cases (get id models)) [
    | inl absent ↦ fresh (load_class id) (rw absent at h)
    | inr (n, there) ↦
        let e : (ok n, models) ≡ (ok m, models') = rw there at h in
        let q : models ≡ models' = ap (λ p. p.1) e in
        rw (← q) (rw there (ap (λ p. (p.0, models)) e))
  ]
    where
      fresh :
          (r : Result M)
          → stored load_class id models r ≡ (ok m, models')
          → found_or other (get id models') models' (stored other id models' (other id))
            ≡ (ok m, models')
      fresh (err e) q = cc q
      fresh (ok n) q =
          let same : put id n models ≡ models' = ap (λ p. p.1) q in
          rw (← same) (rw (get-put_self id n models) (ap (λ p. (p.0, put id n models)) q))

  -- What a registry holds of a provider: nothing, or the model of its class.
  abbrev Fresh : String → M → Dict M → Type ℓ
  Fresh id m models = (get id models ≡ none) ⊎ (get id models ≡ some m)

  own :
      (id : String) (m : M) (models : Dict M)
      → load_class id ≡ ok m
      → Fresh id m models
      → get id (get_provider_model load_class id models).1 ≡ some m
  unfolding get_provider_model
  own id m models l (inl absent) = rw absent (rw l (get-put_self id m models))
  own id m models l (inr there) = rw there there

  others :
      (x id : String) (models : Dict M)
      → (x == id) ≡ false
      → get id (get_provider_model load_class x models).1 ≡ get id models
  unfolding get_provider_model
  others x id models n = elim (Option-cases (get x models)) [
    | inl absent ↦ rw absent (created (load_class x))
    | inr (m, there) ↦ rw there refl
  ]
    where
      created : (r : Result M) → get id (stored load_class x models r).1 ≡ get id models
      created (err e) = refl
      created (ok m) = get-put x id m models ∙ rw n refl

  registers :
      (has_module : String → Bool) (ids : List String) (id : String) (m : M) (models : Dict M)
      → contains id ids ≡ true
      → has_module id ≡ true
      → load_class id ≡ ok m
      → Fresh id m models
      → get id (load_all_models load_class has_module ids models) ≡ some m
  unfolding load_all_models
  registers has_module [] id m models c h l f = cc c
  registers has_module (x ∷ ids) id m models c h l f = elim (Bool-cases (x == id)) [
    | inl e ↦
        let same : x ≡ id = (eq_iff x id).0 e in
        rw same (
          rw h (
            loaded_stays has_module ids id (get_provider_model load_class id models).1 m
              (own id m models l f)))
    | inr n ↦
        let c' : contains id ids ≡ true = rw n at c in
        elim (Bool-cases (has_module x)) [
          | inl k ↦ rw k (
              registers has_module ids id m (get_provider_model load_class x models).1 c' h l
                (rw (← others x id models n) at f))
          | inr k ↦ rw k (registers has_module ids id m models c' h l f)
        ]
  ]

  -- After all models are loaded, every listed provider that has the module and whose class can be
  -- created is registered with the model of its class, whatever the other providers raise.
  pub get-load_all_models :
      (has_module : String → Bool) (ids : List String) (id : String) (m : M)
      → contains id ids ≡ true
      → has_module id ≡ true
      → load_class id ≡ ok m
      → get id (load_all_models load_class has_module ids []) ≡ some m
  get-load_all_models has_module ids id m c h l =
      registers has_module ids id m [] c h l (inl (unfold get in refl))
