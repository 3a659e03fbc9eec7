-- ===== src/Embedding/Merged.antt =====
-- The outputs of the batches are merged in the order of the input.
use rtxag.Prelude.{
  ℕ, suc, ◌≤◌, String, ◌≡◌, refl, sym, ap, ◌∙◌, Option, none, some, List, [], ◌∷◌, ◌++◌, map,
  length, length-append, append_assoc, arith,
}
use rtxag.Error.{Exception, Result, ok, err, ◌>>=◌, traverse, ok-bind}
use rtxag.Embedding.{
  Embedder, Output, joined, numbered, batches, exceptions, values, gathered, gather, with_vectors,
  embed_batch, embed_groups, embed_text, with_embedder,
}
use rtxag.Embedding.Batches.{joined-batches}

joined-append {ℓ} :
    {A : Type ℓ} (xs ys : List (List A)) → joined (xs ++ ys) ≡ joined xs ++ joined ys
joined-append [] ys = refl
joined-append (x ∷ xs) ys = rw (joined-append xs ys) (sym (append_assoc x (joined xs) (joined ys)))

module _ {ℓ κ} {A : Type ℓ} {B : Type κ} (f : A → Result B) where
  traverse-append :
      (xs ys : List A) (bs cs : List B)
      → traverse f xs ≡ ok bs
      → traverse f ys ≡ ok cs
      → traverse f (xs ++ ys) ≡ ok (bs ++ cs)
  unfolding traverse
  traverse-append [] ys bs cs h k = let e : [] ≡ bs = cc h in rw (← e) k
  traverse-append (x ∷ xs) ys bs cs h k =
      let (b, q, h₁) = ok-bind _ (f x) h in
      let (bs', q', h₂) = ok-bind _ (traverse f xs) h₁ in
      let e : b ∷ bs' ≡ bs = cc h₂ in rw (← e) (rw q (rw (traverse-append xs ys bs' cs q' k) refl))

  no_exceptions :
      (xs : List A) → exceptions (map f xs) ≡ [] → traverse f xs ≡ ok (values (map f xs))
  unfolding traverse
  no_exceptions [] h = refl
  no_exceptions (x ∷ xs) h = next x xs (f x) refl (no_exceptions xs) h
    where
      next :
          (x : A) (xs : List A) (r : Result B)
          → f x ≡ r
          → (exceptions (map f xs) ≡ [] → traverse f xs ≡ ok (values (map f xs)))
          → exceptions (r ∷ map f xs) ≡ []
          → (f x >>= λ y. traverse f xs >>= λ ys. ok (y ∷ ys)) ≡ ok (values (r ∷ map f xs))
      next x xs (err e) q later h = cc h
      next x xs (ok b) q later h = rw q (rw (later h) refl)

  gather-traverse :
      (order : List Exception → ℕ) (xs : List A) (bs : List B)
      → gather order (map f xs) ≡ ok bs
      → traverse f xs ≡ ok bs
  unfolding gather
  gather-traverse order xs bs h =
      let (none', same) = all_good (exceptions (map f xs)) (values (map f xs)) h in
      no_exceptions xs none' ∙ ap ok same
    where
      all_good :
          (es : List Exception) (vs : List B) → gathered order es vs ≡ ok bs → (es ≡ []) × (vs ≡ bs)
      all_good [] vs q = (refl, cc q)
      all_good (e ∷ es) vs q = cc q

module _ (em : Embedder) where
  open em use {Vector, Model, get_model}

  groups_lem :
      (m : Model) (id : String) (groups : List (List (ℕ × List String))) (os : List (Output Vector))
      → embed_groups em m id groups ≡ ok os
      → (rs : List (List (Output Vector))) × (traverse (embed_batch em m id) (joined groups)
          ≡ ok rs)
        × (os ≡ joined rs)
  unfolding embed_groups
  groups_lem m id [] os h = ([], unfold traverse in refl, cc h)
  groups_lem m id (group ∷ groups) os h =
      let (results, g, h₁) =
        ok-bind _ (gather em.fails_first (map (embed_batch em m id) group)) h in
      let (later, l, h₂) = ok-bind _ (embed_groups em m id groups) h₁ in
      let (rs, t, e) = groups_lem m id groups later l in
      let q : os ≡ joined results ++ later = cc h₂ in
      (
        results ++ rs,
        traverse-append (embed_batch em m id) group (joined groups) results rs
            (gather-traverse (embed_batch em m id) em.fails_first group results g) t,
        q ∙ ap (λ xs. joined results ++ xs) e ∙ sym (joined-append results rs),
      )

  -- What is merged: the outputs of the batches, one batch after the other in the input's order.
  abbrev pub InOrder : Model → String → ℕ → List String → List (Output Vector) → Type 0
  InOrder m id size input os =
      (rs : List (List (Output Vector))) × (traverse (embed_batch em m id)
          (numbered 0 (batches size input))
        ≡ ok rs)
      × (os ≡ joined rs)

  embedder_found :
      (provider_id : String) (found : Option Model) (next : Model → Result (List (Output Vector)))
      (os : List (Output Vector))
      → with_embedder em provider_id found next ≡ ok os
      → (m : Model) × (found ≡ some m) × (next m ≡ ok os)
  embedder_found provider_id none next os h = cc h
  embedder_found provider_id (some m) next os h = (m, refl, h)

  -- An embedding that succeeds is the embedding of every batch, merged in the order of the batches,
  -- whatever group a batch ran in.
  pub embed_text-InOrder :
      (provider_id id : String) (size : ℕ) (input : List String) (os : List (Output Vector))
      → embed_text em provider_id id size input ≡ ok os
      → (m : Model) × (get_model provider_id ≡ ok (some m)) × InOrder m id size input os
  unfolding embed_text
  embed_text-InOrder provider_id id size input os h =
      let groups = batches 20 (numbered 0 (batches size input)) in
      let (found, g, h₁) =
        ok-bind (λ found. with_embedder em provider_id found (λ m. embed_groups em m id groups))
          (get_model provider_id) h in
      let (m, q, h₂) = embedder_found provider_id found (λ m. embed_groups em m id groups) os h₁ in
      let (rs, t, e) = groups_lem m id groups os h₂ in
      (
        m,
        g ∙ ap ok q,
        (
          rs,
          ap (traverse (embed_batch em m id))
                (sym (joined-batches 20 (numbered 0 (batches size input)) (omega arith)))
              ∙ t,
          e,
        ),
      )

  -- A provider that answers with one output for each text of a batch.
  abbrev pub Counts : Type 0
  Counts =
      (m : Model) (id : String) (n : ℕ) (b : List String) (os : List (Output Vector))
      → em.embed m id n b ≡ ok os
      → length os ≡ length b

  vectors_count :
      (os : List (Output Vector)) (vs : List Vector) (os' : List (Output Vector))
      → with_vectors em os vs ≡ ok os'
      → length os' ≡ length os
  unfolding with_vectors
  vectors_count [] vs os' h = let e : [] ≡ os' = cc h in rw (← e) refl
  vectors_count (o ∷ os) [] os' h = cc h
  vectors_count (o ∷ os) (v ∷ vs) os' h =
      let (rest, q, h₁) = ok-bind _ (with_vectors em os vs) h in
      let e : record o { vector = v } ∷ rest ≡ os' = cc h₁ in
      rw (← e) (ap suc (vectors_count os vs rest q))

  batch_count :
      (m : Model) (id : String) (n : ℕ) (b : List String) (os : List (Output Vector))
      → Counts
      → embed_batch em m id (n, b) ≡ ok os
      → length os ≡ length b
  unfolding embed_batch
  batch_count m id n b os c h =
      let (outputs, e, h₁) = ok-bind _ (em.embed m id n b) h in
      let (vectors, _, h₂) = ok-bind _ (em.unit_vectors (map (λ o. o.vector) outputs)) h₁ in
      vectors_count outputs vectors os h₂ ∙ c m id n b outputs e

  batches_count :
      (m : Model) (id : String) (n : ℕ) (bs : List (List String)) (rs : List (List (Output Vector)))
      → Counts
      → traverse (embed_batch em m id) (numbered n bs) ≡ ok rs
      → length (joined rs) ≡ length (joined bs)
  unfolding traverse
  batches_count m id n [] rs c h = let e : [] ≡ rs = cc h in rw (← e) refl
  batches_count m id n (b ∷ bs) rs c h =
      let (r, q, h₁) = ok-bind _ (embed_batch em m id (n, b)) h in
      let (rest, q', h₂) = ok-bind _ (traverse (embed_batch em m id) (numbered (suc n) bs)) h₁ in
      let e : r ∷ rest ≡ rs = cc h₂ in
      rw (← e) (
        omega (
          arith,
          length-append r (joined rest),
          length-append b (joined bs),
          batch_count m id n b r c q,
          batches_count m id (suc n) bs rest c q',
        ))

  -- From a provider that answers with one output for each text of a batch, and with a batch size of
  -- at least one, the route answers with one output for each text of the input.
  pub length-embed_text :
      (provider_id id : String) (size : ℕ) (input : List String) (os : List (Output Vector))
      → Counts
      → 1 ≤ size
      → embed_text em provider_id id size input ≡ ok os
      → length os ≡ length input
  length-embed_text provider_id id size input os c p h =
      let (m, _, (rs, t, e)) = embed_text-InOrder provider_id id size input os h in
      ap length e
      ∙ batches_count m id 0 (batches size input) rs c t
      ∙ ap length (joined-batches size input p)
