-- ===== src/Cache/Catalog/Lookup.antt =====
-- What is in the catalog, and what is found there.
use rtxag.Prelude.{
  String, ◌≡◌, ◌⊎◌, inl, inr, ◌↔◌, sym, ap, ◌∙◌, Bool, true, some, List, [], ◌∷◌, Dict, get, put,
  get-put, keep, ◌==◌, eq_iff, if◌then◌else◌, Bool-cases,
}
use rtxag.Error.{ok, ok-bind}
use rtxag.Schema.{ModelSchema}
use rtxag.Cache.Catalog.{
  File, Catalog, load_providers, is_allowed, sort, dict_by, load_model_schema_data,
  get_model_schema,
}
use rtxag.Cache.Catalog.Order.{IsSorted, Member, sort-IsSorted, sort-Member}

keep-Member :
    (p : ModelSchema → Bool) (x : ModelSchema) (ms : List ModelSchema)
    → Member x (keep p ms) ↔ (Member x ms × (p x ≡ true))
keep-Member p x [] = (λ h. absurd h, λ (h, k). h)
keep-Member p x (m ∷ ms) =
    let (f, g) = keep-Member p x ms in
    elim (Bool-cases (p m)) [
      | inl k ↦ rw k (
        (λ h. elim h [ inl e ↦ (inl e, rw e at k) | inr t ↦ (inr (f t).0, (f t).1) ]),
        (λ (h, q). elim h [ inl e ↦ inl e | inr t ↦ inr (g (t, q)) ]),
      )
      | inr k ↦ rw k (
        (λ h. (inr (f h).0, (f h).1)),
        (λ (h, q). elim h [ inl e ↦ cc (ap p e) | inr t ↦ g (t, q) ]),
      )
    ]

module _ (key : ModelSchema → String) where
  found_in :
      (k : String) (m : ModelSchema) (d : Dict ModelSchema) (ms : List ModelSchema)
      → get k (dict_by key d ms) ≡ some m
      → (get k d ≡ some m) ⊎ (Member m ms × (key m ≡ k))
  unfolding dict_by
  found_in k m d [] h = inl h
  found_in k m d (x ∷ ms) h = elim (found_in k m (put (key x) x d) ms h) [
    | inl q ↦
        let tested : (if key x == k then some x else get k d) ≡ some m =
          sym (get-put (key x) k x d) ∙ q in
        elim (Bool-cases (key x == k)) [
          | inl e ↦
              let same : x ≡ m = cc (rw e at tested) in
              inr (inl same, ap key (sym same) ∙ (eq_iff (key x) k).0 e)
          | inr n ↦ inl (rw n at tested)
        ]
    | inr (t, e) ↦ inr (inr t, e)
  ]

-- The catalog is sorted by the ids of the schemas, and it holds a schema exactly if that was loaded
-- from a file of a provider and the provider is allowed.
pub load_model_schema_data_lem :
    (allowed : List String) (providers : List (String × List File)) (c : Catalog) (m : ModelSchema)
    → load_model_schema_data allowed providers ≡ ok c
    → (ms : List ModelSchema) × (load_providers providers ≡ ok ms)
      × IsSorted c.model_schemas
      × (Member m c.model_schemas ↔ (Member m ms × (is_allowed allowed m ≡ true)))
unfolding load_model_schema_data
load_model_schema_data_lem allowed providers c m h =
    let (ms, q, h₁) = ok-bind _ (load_providers providers) h in
    let e : sort (keep (is_allowed allowed) ms) ≡ c.model_schemas =
      ap (λ x. x.model_schemas) (the_catalog h₁) in
    let (f, g) = sort-Member m (keep (is_allowed allowed) ms) in
    let (i, j) = keep-Member (is_allowed allowed) m ms in
    (
      ms,
      q,
      rw (← e) (sort-IsSorted (keep (is_allowed allowed) ms)),
      rw (← e) (λ t. i (f t), λ t. g (j t)),
    )
  where
    the_catalog : {b : Catalog} → ok b ≡ ok c → b ≡ c
    the_catalog q = cc q

nothing : (id : String) (m : ModelSchema) → get id [] ≡ some m → ⊥
unfolding get
nothing id m q = cc q

-- A schema that is found under an id in a loaded catalog has this id, is in the catalog, and its
-- provider is allowed.
pub get_model_schema_lem :
    (allowed : List String) (providers : List (String × List File)) (c : Catalog) (id : String)
    (m : ModelSchema)
    → load_model_schema_data allowed providers ≡ ok c
    → get_model_schema c id ≡ some m
    → (m.model_schema_id ≡ id) × Member m c.model_schemas × (is_allowed allowed m ≡ true)
unfolding load_model_schema_data get_model_schema
get_model_schema_lem allowed providers c id m h g =
    let (ms, q, h₁) = ok-bind _ (load_providers providers) h in
    let sorted = sort (keep (is_allowed allowed) ms) in
    let e = the_catalog h₁ in
    let in_dict : get id (dict_by (λ x. x.model_schema_id) [] sorted) ≡ some m =
      ap (λ x. get id x.model_schema_dict) e ∙ g in
    elim (found_in (λ x. x.model_schema_id) id m [] sorted in_dict) [
      | inl none' ↦ absurd (nothing id m none')
      | inr (t, same) ↦
          let s : sorted ≡ c.model_schemas = ap (λ x. x.model_schemas) e in
          (
            same,
            rw (← s) t,
            ((keep-Member (is_allowed allowed) m ms).0
                ((sort-Member m (keep (is_allowed allowed) ms)).0 t)).1,
          )
    ]
  where
    the_catalog : {b : Catalog} → ok b ≡ ok c → b ≡ c
    the_catalog q = cc q
