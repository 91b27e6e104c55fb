-- ===== src/Chunking.antt =====
-- The splitting of documents into chunks (app/services/chunking.py): sentences and their packing. A
-- text is the list of its characters. `Tests` holds what the regular expressions and the character
-- classes of the Python library say of a character or a line.
pub mod Sections
pub mod Windows
pub mod Documents
pub mod Packing
mod Examples
use Prim.Native.Char.{Char, code}
use zyntry_backend.Prelude.{
  ℕ, suc, ◌+◌, ◌/◌, String, Bool, true, false, not, ◌&&◌, ◌||◌, List, [], ◌∷◌, ◌++◌, max, ltb, leb,
  ◌==◌, length, keep, map, if◌then◌else◌,
}
use zyntry_backend.Tokens.{chars}

abbrev pub Text : Type 0
Text = List Char

-- White space, and the tests of a line by `_IMPORT_PATTERN` and `_is_code_boundary`.
pub record Tests : Type 0 where
  pub is_space : Char → Bool
  pub is_import : Text → Bool
  pub is_code_boundary : Text → Bool

abbrev pub is_empty {ℓ} : {A : Type ℓ} → List A → Bool
is_empty [] = true
is_empty (x ∷ xs) = false

-- `sep.join(parts)`
unfoldable pub join : Text → List Text → Text
join sep [] = []
join sep (t ∷ ts) = if is_empty ts then t else t ++ (sep ++ join sep ts)

-- `_estimate_tokens`
unfoldable pub estimate_tokens : Text → ℕ
estimate_tokens t = max 1 (length t / 4)

unfoldable pub total_tokens : List Text → ℕ
unfolding estimate_tokens
total_tokens [] = 0
total_tokens (t ∷ ts) = estimate_tokens t + total_tokens ts

-- `[.!?]`
abbrev pub is_end : Char → Bool
is_end c = code c == b'.' || code c == b'!' || code c == b'?'

module _ (tests : Tests) where
  open tests use {is_space}

  abbrev pub strip_left : Text → Text
  strip_left [] = []
  strip_left (c ∷ cs) = if is_space c then strip_left cs else c ∷ cs

  abbrev pub strip_right : Text → Text
  strip_right [] = []
  strip_right (c ∷ cs) =
      let rest = strip_right cs in if is_empty rest && is_space c then [] else c ∷ rest

  -- `not text.strip()`
  unfoldable pub is_blank : Text → Bool
  is_blank [] = true
  is_blank (c ∷ cs) = is_space c && is_blank cs

  -- The split at white space that follows a sentence's end: `ended` where the last character read is
  -- one, `skipping` inside such white space.
  unfoldable pub split_from : Text → Bool → Bool → Text → List Text
  split_from current ended skipping [] = current ∷ []
  split_from current ended skipping (c ∷ cs) =
      let skipped = split_from [] false true cs in
      let longer = split_from (current ++ c ∷ []) (is_end c) false cs in
      if is_space c && skipping
      then skipped
      else if is_space c && ended
      then current ∷ skipped
      else longer

  -- `_split_sentences`
  unfoldable pub split_sentences : Text → List Text
  unfolding split_from
  split_sentences text =
      keep (λ p. not (is_empty p)) (split_from [] false false (strip_right (strip_left text)))

-- The sentences at the end of a chunk that the next one repeats: as many as fit the overlap.
unfoldable pub keep_from : ℕ → List Text → List Text × ℕ
unfolding estimate_tokens
keep_from budget [] = ([], 0)
keep_from budget (s ∷ ss) =
    let (kept, used) = keep_from budget ss in
    if leb (length ss) (length kept) && leb (used + estimate_tokens s) budget
    then (s ∷ kept, used + estimate_tokens s)
    else (kept, used)

unfoldable pub kept : ℕ → List Text → List Text
unfolding keep_from
kept budget current = (keep_from budget current).0

-- The loop of `_chunk_semantic`, for the limit and the overlap in tokens: the sentences of each chunk.
unfoldable pub pack : ℕ → ℕ → List Text → List Text → List (List Text)
unfolding kept
pack limit overlap current [] = if is_empty current then [] else current ∷ []
pack limit overlap current (s ∷ ss) =
    let flushed = pack limit overlap (kept overlap current ++ s ∷ []) ss in
    let longer = pack limit overlap (current ++ s ∷ []) ss in
    if not (is_empty current) && ltb limit (total_tokens current + estimate_tokens s)
    then current ∷ flushed
    else longer

module _ (tests : Tests) where
  -- `_chunk_semantic`
  unfoldable pub semantic_chunks : ℕ → ℕ → Text → List Text
  unfolding pack join is_blank
  semantic_chunks chunk_size overlap text =
      let sentences = split_sentences tests text in
      if is_empty sentences
      then (if is_blank tests text then [] else text ∷ [])
      else keep (λ c. not (is_blank tests c))
          (map (join (chars " ")) (pack (chunk_size / 4) (overlap / 4) [] sentences))

  -- `chunk_semantic`
  unfoldable pub chunk_semantic : ℕ → ℕ → Text → List Text
  unfolding semantic_chunks
  chunk_semantic chunk_size overlap text =
      if is_blank tests text then [] else semantic_chunks chunk_size overlap text
