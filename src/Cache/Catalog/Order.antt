-- ===== src/Cache/Catalog/Order.antt =====
-- The catalog is sorted by the ids, and sorting loses and adds nothing.
use Prim.Native.String as Text
use rtxag.Prelude.{
  String, ◌≡◌, ◌⊎◌, inl, inr, ◌↔◌, refl, true, false, List, [], ◌∷◌, All, arith, Bool-cases,
}
use rtxag.Schema.{ModelSchema}
use rtxag.Cache.Catalog.{le_text, le_schema, insert, sort}

le_text_total : (s t : String) → le_text s t ≡ false → le_text t s ≡ true
unfolding le_text
le_text_total Text.[] t h = cc h
le_text_total (Text.◌∷◌ c s) Text.[] h = refl
le_text_total (Text.◌∷◌ c s) (Text.◌∷◌ d t) h = ground (arith, le_text_total s t)

le_text_trans : (s t u : String) → le_text s t ≡ true → le_text t u ≡ true → le_text s u ≡ true
unfolding le_text
le_text_trans Text.[] t u h k = refl
le_text_trans (Text.◌∷◌ c s) Text.[] u h k = cc h
le_text_trans (Text.◌∷◌ c s) (Text.◌∷◌ d t) Text.[] h k = cc k
le_text_trans (Text.◌∷◌ c s) (Text.◌∷◌ d t) (Text.◌∷◌ e u) h k = ground (arith, le_text_trans s t u)

-- Every schema is before all that follow it.
abbrev pub IsSorted : List ModelSchema → Type 0
IsSorted [] = Unit
IsSorted (m ∷ ms) = All (λ n. le_schema m n ≡ true) ms × IsSorted ms

abbrev pub Member : ModelSchema → List ModelSchema → Type 0
Member m [] = ⊥
Member m (x ∷ xs) = (x ≡ m) ⊎ Member m xs

below-All :
    (m n : ModelSchema) (ns : List ModelSchema)
    → le_schema m n ≡ true
    → All (λ k. le_schema n k ≡ true) ns
    → All (λ k. le_schema m k ≡ true) ns
below-All m n [] h a = tt
below-All m n (k ∷ ks) h (a, as') = (
  le_text_trans m.model_schema_id n.model_schema_id k.model_schema_id h a,
  below-All m n ks h as',
)

below_insert :
    (x m : ModelSchema) (ns : List ModelSchema)
    → le_schema x m ≡ true
    → All (λ k. le_schema x k ≡ true) ns
    → All (λ k. le_schema x k ≡ true) (insert m ns)
unfolding insert
below_insert x m [] h a = (h, tt)
below_insert x m (n ∷ ns) h (a, as') = elim (Bool-cases (le_schema m n)) [
  | inl k ↦ rw k (h, (a, as'))
  | inr k ↦ rw k (a, below_insert x m ns h as')
]

insert-IsSorted : (m : ModelSchema) (ns : List ModelSchema) → IsSorted ns → IsSorted (insert m ns)
unfolding insert
insert-IsSorted m [] s = (tt, tt)
insert-IsSorted m (n ∷ ns) (a, s) = elim (Bool-cases (le_schema m n)) [
  | inl k ↦ rw k ((k, below-All m n ns k a), (a, s))
  | inr k ↦ rw k (
    below_insert n m ns (le_text_total m.model_schema_id n.model_schema_id k) a,
    insert-IsSorted m ns s,
  )
]

pub sort-IsSorted : (ms : List ModelSchema) → IsSorted (sort ms)
unfolding sort
sort-IsSorted [] = tt
sort-IsSorted (m ∷ ms) = insert-IsSorted m (sort ms) (sort-IsSorted ms)

insert-Member :
    (x m : ModelSchema) (ns : List ModelSchema) → Member x (insert m ns) ↔ Member x (m ∷ ns)
unfolding insert
insert-Member x m [] = (λ h. h, λ h. h)
insert-Member x m (n ∷ ns) = elim (Bool-cases (le_schema m n)) [
  | inl k ↦ rw k (λ h. h, λ h. h)
  | inr k ↦
      let (f, g) = insert-Member x m ns in
      rw k (
        (λ h. elim h [
          | inl e ↦ inr (inl e)
          | inr r ↦ elim (f r) [ inl e ↦ inl e | inr t ↦ inr (inr t) ]
        ]),
        (λ h. elim h [
          | inl e ↦ inr (g (inl e))
          | inr r ↦ elim r [ inl e ↦ inl e | inr t ↦ inr (g (inr t)) ]
        ]),
      )
]

pub sort-Member : (x : ModelSchema) (ms : List ModelSchema) → Member x (sort ms) ↔ Member x ms
unfolding sort
sort-Member x [] = (λ h. h, λ h. h)
sort-Member x (m ∷ ms) =
    let (f, g) = sort-Member x ms in
    let (i, j) = insert-Member x m (sort ms) in
    (
      (λ h. elim (i h) [ inl e ↦ inl e | inr t ↦ inr (f t) ]),
      (λ h. j (elim h [ inl e ↦ inl e | inr t ↦ inr (g t) ])),
    )
