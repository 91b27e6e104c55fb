-- ===== src/Embeddings/Batches.antt =====
-- Batches of a list (app/services/performance.py, `BatchProcessor`). `range(0, len(items), size)` has a
-- step for each batch, at most one for each item, which is the fuel; a size of zero makes it raise.
use zyntry_backend.Prelude.{
  ℕ, zero, suc, ◌≡◌, refl, ap, Option, none, some, List, [], ◌∷◌, ◌++◌, ◌≤◌, take, drop, length,
  length-take, length-drop, take-append-drop, All, arith, ◌∙◌,
}

-- `[items[i : i + size] for i in range(0, len(items), size)]`, where the size is not zero.
unfoldable pub batches_on {ℓ} : {A : Type ℓ} → ℕ → ℕ → List A → List (List A)
batches_on zero size xs = []
batches_on (suc fuel) size [] = []
batches_on (suc fuel) size (x ∷ xs) = take size (x ∷ xs) ∷ batches_on fuel size (drop size (x ∷ xs))

-- `split_into_batches`, or none where `range` raises.
unfoldable pub split_into_batches {ℓ} : {A : Type ℓ} → ℕ → List A → Option (List (List A))
unfolding batches_on
split_into_batches size [] = some []
split_into_batches zero (x ∷ xs) = none
split_into_batches (suc n) (x ∷ xs) = some (batches_on (length (x ∷ xs)) (suc n) (x ∷ xs))

abbrev pub concat {ℓ} : {A : Type ℓ} → List (List A) → List A
concat [] = []
concat (x ∷ xs) = x ++ concat xs

module _ {A : Type 0} where
  abbrev pub IsBatch : ℕ → List A → Type 0
  IsBatch size b = (1 ≤ length b) × (length b ≤ size)

  pub concat-batches_on :
      (fuel n : ℕ) (xs : List A)
      → length xs ≤ fuel
      → (concat (batches_on fuel (suc n) xs) ≡ xs)
        × All (IsBatch (suc n)) (batches_on fuel (suc n) xs)
  unfolding batches_on
  concat-batches_on zero n [] h = (refl, tt)
  concat-batches_on zero n (x ∷ xs) h = absurd (omega arith)
  concat-batches_on (suc fuel) n [] h = (refl, tt)
  concat-batches_on (suc fuel) n (x ∷ xs) h =
      let shorter : length (drop n xs) ≤ fuel = omega (arith, length-drop n xs) in
      let rest = concat-batches_on fuel n (drop n xs) shorter in
      (
        ap (λ ys. x ∷ (take n xs ++ ys)) rest.0 ∙ ap (λ ys. x ∷ ys) (take-append-drop n xs),
        ((omega arith, omega (arith, length-take n xs)), rest.1),
      )

  -- The batches of a list are none of them empty or longer than the size, and put together, in order,
  -- they are the list; the split raises only for a size of zero and a list that is not empty.
  pub split_into_batches-concat :
      (size : ℕ) (xs : List A)
      → 1 ≤ size
      → (bs : List (List A)) × ((split_into_batches size xs ≡ some bs)
          × (concat bs ≡ xs)
          × All (IsBatch size) bs)
  unfolding split_into_batches
  split_into_batches-concat size [] h = ([], (refl, refl, tt))
  split_into_batches-concat zero (x ∷ xs) h = absurd (omega arith)
  split_into_batches-concat (suc n) (x ∷ xs) h =
      let done = concat-batches_on (length (x ∷ xs)) n (x ∷ xs) (omega arith) in
      (batches_on (length (x ∷ xs)) (suc n) (x ∷ xs), (refl, done.0, done.1))
