-- ===== src/Config/Merge.antt =====
-- What `deep_merge_dicts` puts under each key.
use rtxag.Prelude.{
  String, ◌≡◌, refl, ◌∙◌, inl, inr, Option, none, some, ◌==◌, eq_iff, eq_refl, if◌then◌else◌, arith,
  Bool-cases,
}
use rtxag.Json.{Json, Fields, end, field, lookup, assign}
use rtxag.Config.{deep_merge_dicts, merge_fields, merge_value}

pub lookup-assign :
    (k j : String) (v : Json) (fs : Fields)
    → lookup j (assign k v fs) ≡ (if k == j then some v else lookup j fs)
unfolding lookup assign
lookup-assign k j v end = refl
lookup-assign k j v (field i w fs) =
    ground (arith, eq_iff k j, eq_iff i k, eq_iff i j, lookup-assign k j v fs)

-- A dictionary has each key once.
abbrev pub HasUniqueKeys : Fields → Type 0
HasUniqueKeys end = Unit
HasUniqueKeys (field k v fs) = (lookup k fs ≡ none) × HasUniqueKeys fs

abbrev pub over : Option Json → Option Json → Option Json → Option Json
over old kept none = kept
over old kept (some v) = some (merge_value old v)

abbrev pub merged : Option Json → Option Json → Option Json
merged old updated = over old old updated

merge_fields_lem :
    (defaults result updates : Fields) (j : String)
    → HasUniqueKeys updates
    → lookup j (merge_fields defaults result updates)
      ≡ over (lookup j defaults) (lookup j result) (lookup j updates)
unfolding merge_fields lookup
merge_fields_lem defaults result end j u = refl
merge_fields_lem defaults result (field k v rest) j (fresh, u) =
    merge_fields_lem defaults (assign k (merge_value (lookup k defaults) v) result) rest j u
    ∙ elim (Bool-cases (k == j)) [
      | inl e ↦
          let same = (eq_iff k j).0 e in rw (same, lookup-assign j j, eq_refl, rw same at fresh)
      | inr n ↦ rw (lookup-assign k j, n)
    ]

-- For updates that have each key once: under each key the merged dictionary has the default where
-- the updates have nothing, the update where the defaults have nothing or one of the two is no
-- dictionary, and else the merge of both.
pub lookup-deep_merge_dicts :
    (defaults updates : Fields) (j : String)
    → HasUniqueKeys updates
    → lookup j (deep_merge_dicts defaults updates) ≡ merged (lookup j defaults) (lookup j updates)
unfolding deep_merge_dicts
lookup-deep_merge_dicts defaults updates j u = merge_fields_lem defaults defaults updates j u
