-- ===== src/Chunking/Windows.antt =====
-- The sliding window (app/services/chunking.py, `chunk_sliding_window`). The loop runs on fuel.
use zyntry_backend.Prelude.{
  ℕ, zero, suc, ◌+◌, ◌-◌, ◌≤◌, ◌<◌, ◌≡◌, refl, Option, none, some, true, false, not, List, [], ◌∷◌,
  ◌++◌, All, min, max, ltb, leb, arith, length, length-take, length-drop, take-append-drop, take,
  drop, keep, if◌then◌else◌, Bool-cases, inl, inr, ◌∙◌, sym, ap, leb→le,
}
use Prim.Native.Char.{Char}
use native.Mathlib.Nat.{zero-add, suc-add}
use zyntry_backend.Chunking.{Text, Tests, is_blank}

-- `text[start:end]`
abbrev pub slice : ℕ → ℕ → Text → Text
slice start end_ text = take (end_ - start) (drop start text)

abbrev pub and_then : Text → Option (List Text) → Option (List Text)
and_then w none = none
and_then w (some ws) = some (w ∷ ws)

-- The windows from a start on; none where the loop has not ended within the fuel.
unfoldable pub windows_from : ℕ → ℕ → ℕ → Text → ℕ → Option (List Text)
windows_from zero size overlap text start = none
windows_from (suc fuel) size overlap text start =
    let end_ = start + size in
    let rest = windows_from fuel size overlap text (end_ - overlap) in
    if ltb start (length text)
    then (if leb (length text) end_
        then some (slice start end_ text ∷ [])
        else and_then (slice start end_ text) rest)
    else some []

abbrev pub window_overlap : ℕ → ℕ → ℕ
window_overlap size overlap = if leb size overlap then max 0 (size - 1) else overlap

-- The windows that are not blank are the chunks.
unfoldable pub chunk_sliding_window : ℕ → Tests → ℕ → ℕ → Text → Option (List Text)
unfolding windows_from
chunk_sliding_window fuel tests size overlap text =
    if is_blank tests text
    then some []
    else elim (windows_from fuel size (window_overlap size overlap) text 0) [
      | none ↦ none
      | some ws ↦ some (keep (λ w. not (is_blank tests w)) ws)
    ]

-- The text that windows stand for: each after the first repeats `overlap` characters.
unfoldable pub rest_of : ℕ → List Text → Text
rest_of overlap [] = []
rest_of overlap (w ∷ ws) = drop overlap w ++ rest_of overlap ws

abbrev pub IsWindow : ℕ → Text → Type 0
IsWindow size w = length w ≤ size

drop-nil : (n : ℕ) → drop {A = Char} n [] ≡ []
drop-nil zero = refl
drop-nil (suc n) = refl

drop-drop : (a b : ℕ) (t : Text) → drop a (drop b t) ≡ drop (b + a) t
drop-drop a zero t = simp zero-add refl
drop-drop a (suc b) [] = drop-nil a ∙ sym (drop-nil (suc b + a))
drop-drop a (suc b) (c ∷ t) = simp suc-add (drop-drop a b t)

drop_of_append : (n : ℕ) (xs ys : Text) → n ≤ length xs → drop n xs ++ ys ≡ drop n (xs ++ ys)
drop_of_append zero xs ys h = refl
drop_of_append (suc n) [] ys h = absurd (omega (arith, h))
drop_of_append (suc n) (x ∷ xs) ys h = drop_of_append n xs ys (omega (arith, h))

module _ (fuel size overlap : ℕ) (text : Text) (start : ℕ) (inside : start < length text) where
  last_window :
      leb (length text) (start + size) ≡ true
      → windows_from (suc fuel) size overlap text start
        ≡ some (slice start (start + size) text ∷ [])
  unfolding windows_from
  last_window last = ground arith

  one_window :
      leb (length text) (start + size) ≡ false
      → {ws : List Text} → windows_from fuel size overlap text (start + size - overlap) ≡ some ws
      → windows_from (suc fuel) size overlap text start
        ≡ some (slice start (start + size) text ∷ ws)
  unfolding windows_from
  one_window more rest = ground arith

-- The windows from a start on, the first of them named.
record Covers (size overlap : ℕ) (text : Text) (start : ℕ) (found : Option (List Text))
    : Type 0 where
  later : List Text
  ends : found ≡ some (slice start (start + size) text ∷ later)
  covers : slice start (start + size) text ++ rest_of overlap later ≡ drop start text
  bounded : All (IsWindow size) (slice start (start + size) text ∷ later)

length-slice :
    (start size : ℕ) (text : Text)
    → length (slice start (start + size) text) ≡ min size (length text - start)
length-slice start size text =
    simp (length-take (start + size - start) (drop start text))
      (omega (arith, length-drop start text))

take_all : (n : ℕ) (xs : Text) → length xs ≤ n → take n xs ++ [] ≡ xs
take_all zero [] h = refl
take_all zero (x ∷ xs) h = absurd (omega (arith, h))
take_all (suc n) [] h = refl
take_all (suc n) (x ∷ xs) h = ap (◌∷◌ x) (take_all n xs (omega (arith, h)))

slice_is :
    (start size : ℕ) (text : Text) → slice start (start + size) text ≡ take size (drop start text)
slice_is start size text = let e : start + size - start ≡ size = omega arith in simp e refl

-- A window and what the next one adds make up the rest of the text.
next_covers :
    (start size overlap : ℕ) (text later : Text)
    → overlap < size
    → start + size < length text
    → let next = slice (start + size - overlap) (start + size - overlap + size) text in
      next ++ later ≡ drop (start + size - overlap) text
      → slice start (start + size) text ++ (drop overlap next ++ later) ≡ drop start text
next_covers start size overlap text later o inside covers =
    let start2 = start + size - overlap in
    let next = slice start2 (start2 + size) text in
    let long : overlap ≤ length next =
      simp (length-slice start2 size text) (omega (arith, o, inside)) in
    let whole : start2 + overlap ≡ start + size = omega (arith, o) in
    let tail : drop overlap next ++ later ≡ drop size (drop start text) =
      drop_of_append overlap next later long
      ∙ ap (drop overlap) covers
      ∙ drop-drop overlap start2 text
      ∙ ap (λ n. drop n text) whole
      ∙ sym (drop-drop size start text) in
    simp (tail, slice_is start size text) (take-append-drop size (drop start text))

windows_from-Covers :
    (fuel size overlap : ℕ) (text : Text) (start : ℕ)
    → overlap < size
    → start < length text
    → length text ≤ start + fuel
    → Covers size overlap text start (windows_from fuel size overlap text start)
unfolding rest_of
windows_from-Covers zero size overlap text start o inside enough =
    absurd (omega (arith, inside, enough))
windows_from-Covers (suc fuel) size overlap text start o inside enough =
    elim (Bool-cases (leb (length text) (start + size))) [
      | inl last ↦ record {
        later = [];
        ends = last_window fuel size overlap text start inside last;
        covers =
            simp (slice_is start size text) (
              take_all size (drop start text)
                (omega (arith, leb→le, length-drop start text, last)));
        bounded = (omega (arith, length-slice start size text), tt);
      }
      | inr more ↦
          let inside2 : start + size < length text = ground (arith, more) in
          let next =
            windows_from-Covers fuel size overlap text (start + size - overlap) o
              (omega (arith, o, inside2)) (omega (arith, o, enough)) in
          record {
            later =
                slice (start + size - overlap) (start + size - overlap + size) text ∷ next.later;
            ends = one_window fuel size overlap text start inside more next.ends;
            covers =
                next_covers start size overlap text (rest_of overlap next.later) o inside2
                  next.covers;
            bounded = (omega (arith, length-slice start size text), next.bounded);
          }
    ]

-- With an overlap below the size and as many turns as there are characters, the loop of the sliding
-- window ends; no window is longer than the size, and the windows make up the text, in order, where
-- each but the first repeats the overlap.
pub windows_from-covers :
    (size overlap : ℕ) (text : Text)
    → overlap < size
    → 0 < length text
    → (w : Text) × (ws : List Text) × (windows_from (length text) size overlap text 0
        ≡ some (w ∷ ws))
      × (w ++ rest_of overlap ws ≡ text)
      × All (IsWindow size) (w ∷ ws)
windows_from-covers size overlap text o some_text =
    let c = windows_from-Covers (length text) size overlap text 0 o some_text (omega arith) in
    (slice 0 (0 + size) text, c.later, c.ends, c.covers, c.bounded)
