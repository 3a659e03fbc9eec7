-- ===== src/Embedding/Batches.antt =====
-- The batches of a list of texts.
use rtxag.Prelude.{
  ℕ, zero, suc, ◌≤◌, ◌≡◌, refl, ap, ◌∙◌, List, [], ◌∷◌, ◌++◌, All, length, take, drop,
  take-append-drop, length-drop, length-take, is_empty, false, arith,
}
use rtxag.Embedding.{slices, batches, joined}

-- A batch has at least one item and at most as many as the size says.
abbrev pub WithinSize {ℓ} : {A : Type ℓ} → ℕ → List A → Type 0
WithinSize size b = (length b ≤ size) × (is_empty b ≡ false)

module _ {ℓ} {A : Type ℓ} where
  joined-slices :
      (fuel size : ℕ) (xs : List A)
      → 1 ≤ size
      → length xs ≤ fuel
      → joined (slices fuel size xs) ≡ xs
  unfolding slices
  joined-slices zero size [] p q = refl
  joined-slices zero size (x ∷ xs) p q = absurd (omega (arith, q))
  joined-slices (suc fuel) size [] p q = refl
  joined-slices (suc fuel) zero (x ∷ xs) p q = absurd (omega (arith, p))
  joined-slices (suc fuel) (suc n) (x ∷ xs) p q =
      ap (λ rest. x ∷ (take n xs ++ rest))
        (joined-slices fuel (suc n) (drop n xs) p (omega (arith, q, length-drop n xs)))
      ∙ ap (◌∷◌ x) (take-append-drop n xs)

  slices-WithinSize :
      (fuel size : ℕ) (xs : List A) → 1 ≤ size → All (WithinSize size) (slices fuel size xs)
  unfolding slices
  slices-WithinSize zero size xs p = tt
  slices-WithinSize (suc fuel) size [] p = tt
  slices-WithinSize (suc fuel) zero (x ∷ xs) p = absurd (omega (arith, p))
  slices-WithinSize (suc fuel) (suc n) (x ∷ xs) p =
      ((length-take (suc n) (x ∷ xs), refl), slices-WithinSize fuel (suc n) (drop n xs) p)

  pub joined-batches : (size : ℕ) (xs : List A) → 1 ≤ size → joined (batches size xs) ≡ xs
  unfolding batches
  joined-batches size xs p = joined-slices (length xs) size xs p (omega arith)

  -- With a size of at least one, the batches in order are the whole input, each of them has at
  -- least one item and at most as many as the size says.
  pub batches_lem :
      (size : ℕ) (xs : List A)
      → 1 ≤ size
      → (joined (batches size xs) ≡ xs) × All (WithinSize size) (batches size xs)
  unfolding batches
  batches_lem size xs p = (joined-batches size xs p, slices-WithinSize (length xs) size xs p)
