-- ===== src/Chunking/Packing.antt =====
-- What the packing of sentences into chunks loses and how large a chunk gets.
use zyntry_backend.Prelude.{
  ℕ, ◌+◌, ◌≤◌, ◌≡◌, refl, true, List, [], ◌∷◌, ◌++◌, All, arith, length, drop, Bool-cases, inl, inr,
}
use zyntry_backend.Chunking.{Text, is_empty, estimate_tokens, total_tokens, keep_from, kept, pack}

-- The sentences of the chunks, with what each chunk repeats of the one before it taken off.
unfoldable pub rejoin : ℕ → List Text → List (List Text) → List Text
rejoin overlap before [] = []
rejoin overlap before (g ∷ gs) = drop (length (kept overlap before)) g ++ rejoin overlap g gs

total_tokens-snoc :
    (ts : List Text) (t : Text) → total_tokens (ts ++ t ∷ []) ≡ total_tokens ts + estimate_tokens t
unfolding total_tokens
total_tokens-snoc [] t = omega arith
total_tokens-snoc (s ∷ ss) t = omega (arith, total_tokens-snoc ss t)

-- What is kept counts its own tokens, within the overlap.
keep_from-within :
    (budget : ℕ) (ts : List Text)
    → (total_tokens (keep_from budget ts).0 ≡ (keep_from budget ts).1)
      × ((keep_from budget ts).1 ≤ budget)
unfolding keep_from total_tokens
keep_from-within budget [] = (refl, omega arith)
keep_from-within budget (t ∷ ts) =
    (ground (arith, keep_from-within budget ts), ground (arith, keep_from-within budget ts))

drop-append : (xs ys : List Text) → drop (length xs) (xs ++ ys) ≡ ys
drop-append [] ys = refl
drop-append (x ∷ xs) ys = drop-append xs ys

append_assoc : (xs ys zs : List Text) → (xs ++ ys) ++ zs ≡ xs ++ (ys ++ zs)
append_assoc [] ys zs = refl
append_assoc (x ∷ xs) ys zs = ground (arith, append_assoc xs ys zs)

append_nil : (xs : List Text) → xs ++ [] ≡ xs
append_nil [] = refl
append_nil (x ∷ xs) = ground (arith, append_nil xs)

pack-rejoin :
    (limit overlap : ℕ) (before new sentences : List Text)
    → rejoin overlap before (pack limit overlap (kept overlap before ++ new) sentences)
      ≡ new ++ sentences
unfolding pack rejoin
pack-rejoin limit overlap before new [] =
    elim (Bool-cases (is_empty (kept overlap before ++ new))) [
      | inl none_left ↦ ground (arith, nothing (kept overlap before) new none_left, append_nil new)
      | inr some_left ↦ ground (arith, drop-append (kept overlap before) new, append_nil new)
    ]
  where
    nothing : (xs ys : List Text) → is_empty (xs ++ ys) ≡ true → ys ≡ []
    nothing [] [] h = refl
    nothing [] (y ∷ ys) h = ground arith
    nothing (x ∷ xs) ys h = ground arith
pack-rejoin limit overlap before new (s ∷ ss) =
    let current = kept overlap before ++ new in
    ground (
      arith,
      drop-append (kept overlap before) new,
      pack-rejoin limit overlap current (s ∷ []) ss,
      pack-rejoin limit overlap before (new ++ s ∷ []) ss,
      append_assoc (kept overlap before) new (s ∷ []),
      append_assoc new (s ∷ []) ss,
    )

abbrev pub Fits : ℕ → Text → Type 0
Fits limit s = estimate_tokens s ≤ limit

abbrev pub FitsGroup : ℕ → List Text → Type 0
FitsGroup limit g = total_tokens g ≤ limit

pack-bounded :
    (limit overlap : ℕ) (current sentences : List Text)
    → All (Fits limit) sentences
    → total_tokens current ≤ limit + overlap
    → All (FitsGroup (limit + overlap)) (pack limit overlap current sentences)
unfolding pack kept total_tokens
pack-bounded limit overlap current [] fits h = ground arith
pack-bounded limit overlap current (s ∷ ss) fits h =
    let k = keep_from-within overlap current in
    ground (
      arith,
      total_tokens-snoc current s,
      total_tokens-snoc (kept overlap current) s,
      k,
      pack-bounded limit overlap (kept overlap current ++ s ∷ []) ss fits.1,
      pack-bounded limit overlap (current ++ s ∷ []) ss fits.1,
    )

-- Where no sentence is larger than the limit, the estimates of a chunk's sentences add up to no more
-- than the limit and the overlap. The estimate of the chunk's joined text may be larger than that sum.
pub pack-FitsGroup :
    (limit overlap : ℕ) (sentences : List Text)
    → All (Fits limit) sentences
    → All (FitsGroup (limit + overlap)) (pack limit overlap [] sentences)
unfolding total_tokens
pack-FitsGroup limit overlap sentences fits =
    pack-bounded limit overlap [] sentences fits (omega arith)

-- Packing sentences into chunks loses none and keeps their order, whatever their sizes: with what each
-- chunk repeats of the one before it taken off, the chunks hold the sentences.
pub pack-rejoins :
    (limit overlap : ℕ) (sentences : List Text)
    → rejoin overlap [] (pack limit overlap [] sentences) ≡ sentences
unfolding kept keep_from
pack-rejoins limit overlap sentences = pack-rejoin limit overlap [] [] sentences
