-- ===== src/Embeddings/Cached/Entries.antt =====
-- Entries by their indices, and batches put together.
use zyntry_backend.Prelude.{
  ℕ, suc, String, ◌≡◌, refl, ap, none, some, true, List, [], ◌∷◌, ◌++◌, ◌≤◌, All, arith, map,
  length, leb, Bool-cases, inl, inr, eq_iff,
}
use zyntry_backend.Embeddings.{CacheKey, same_key, Entry, Miss, batches_of, entry_at, collect}
use zyntry_backend.Embeddings.Batches.{split_into_batches-concat, concat}

pub same_key-eq :
    (a b : CacheKey)
    → same_key a b ≡ true
    → (a.content_hash ≡ b.content_hash)
      × (a.embedding_model ≡ b.embedding_model)
      × (a.provider ≡ b.provider)
same_key-eq a b h = (
  ground (arith, eq_iff a.content_hash b.content_hash),
  ground (arith, eq_iff a.embedding_model b.embedding_model),
  ground (arith, eq_iff a.provider b.provider),
)

pub append-nil : {A : Type 0} (xs : List A) → xs ++ [] ≡ xs
append-nil [] = refl
append-nil (x ∷ xs) = ap (λ ys. x ∷ ys) (append-nil xs)

pub map-append :
    {A B : Type 0} (g : A → B) (xs ys : List A) → map g (xs ++ ys) ≡ map g xs ++ map g ys
map-append g [] ys = refl
map-append g (x ∷ xs) ys = ap (λ zs. g x ∷ zs) (map-append g xs ys)

pub All-concat :
    {A : Type 0} (P : A → Type 0) (bs : List (List A)) → All P (concat bs) → All (All P) bs
All-concat P [] h = tt
All-concat P ([] ∷ bs) h = (tt, All-concat P bs h)
All-concat P ((x ∷ b) ∷ bs) h = let rest = All-concat P (b ∷ bs) h.1 in ((h.0, rest.0), rest.1)

pub concat-batches_of :
    (size : ℕ) (misses : List Miss)
    → 1 ≤ size
    → (bs : List (List Miss)) × ((batches_of size misses ≡ some bs) × (concat bs ≡ misses))
concat-batches_of size [] h = ([], (refl, refl))
concat-batches_of size (m ∷ ms) h = elim (Bool-cases (leb (length (m ∷ ms)) size)) [
  | inl fits ↦ ((m ∷ ms) ∷ [], (ground (arith, fits), append-nil (m ∷ ms)))
  | inr more ↦
      let (bs, split) = split_into_batches-concat size (m ∷ ms) h in
      (bs, (ground (arith, more, split.0), split.1))
]

module _ {V : Type 0} where
  pub entry_at-append :
      (j : ℕ) (xs ys : List (Entry V))
      → entry_at j (xs ++ ys) ≡ elim (entry_at j xs) [ some v ↦ some v | none ↦ entry_at j ys ]
  entry_at-append j [] ys = refl
  entry_at-append j (x ∷ xs) ys = ground (arith, entry_at-append j xs ys)

  abbrev pub IsFrom : ℕ → Entry V → Type 0
  IsFrom i x = i ≤ x.index

  pub entry_at-before :
      (i : ℕ) (xs : List (Entry V)) → All (IsFrom (suc i)) xs → entry_at i xs ≡ none
  entry_at-before i [] h = refl
  entry_at-before i (x ∷ xs) h = ground (arith, entry_at-before i xs h.1)

  pub IsFrom-weaken : (i : ℕ) (xs : List (Entry V)) → All (IsFrom (suc i)) xs → All (IsFrom i) xs
  IsFrom-weaken i [] h = tt
  IsFrom-weaken i (x ∷ xs) h = (omega arith, IsFrom-weaken i xs h.1)

  pub collect-agree :
      (xs ys : List (Entry V)) (i : ℕ) (ts : List String)
      → ((j : ℕ) → i ≤ j → entry_at j xs ≡ entry_at j ys)
      → collect xs i ts ≡ collect ys i ts
  unfolding collect
  collect-agree xs ys i [] h = refl
  collect-agree xs ys i (t ∷ ts) h =
      let rest = collect-agree xs ys (suc i) ts (λ j low. h j (omega arith)) in
      ground (arith, rest, h i (omega arith))
