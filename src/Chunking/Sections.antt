-- ===== src/Chunking/Sections.antt =====
-- Sections of a document: markdown, headings and code (app/services/chunking.py, `chunk_markdown`,
-- `chunk_heading` and `chunk_code`).
pub mod Lines
use Prim.Native.Char.{Char, code}
use zyntry_backend.Prelude.{
  ℕ, zero, suc, ◌+◌, ◌/◌, Bool, true, false, not, ◌&&◌, ◌||◌, List, [], ◌∷◌, ◌++◌, ltb, leb, ◌==◌,
  length, keep, map, if◌then◌else◌,
}
use zyntry_backend.Tokens.{chars}
use zyntry_backend.Chunking.{
  Text, Tests, is_empty, is_blank, join, estimate_tokens, semantic_chunks, strip_left,
}

-- `text.split("\n")`
unfoldable pub lines_from : Text → Text → List Text
lines_from current [] = current ∷ []
lines_from current (c ∷ cs) =
    let closed = lines_from [] cs in
    let longer = lines_from (current ++ c ∷ []) cs in
    if code c == 10 then current ∷ closed else longer

abbrev pub newline : Text
newline = chars "\n"

-- What follows up to six number signs must be white space: `^#{1,6}\s+.*`.
abbrev pub heading_from : Tests → ℕ → Text → Bool
heading_from tests signs [] = false
heading_from tests signs (c ∷ cs) =
    let rest = heading_from tests (signs + 1) cs in
    if code c == b'#' then rest else (tests.is_space c && (not (signs == 0) && leb signs 6))

unfoldable pub is_heading : Tests → Text → Bool
is_heading tests line = heading_from tests 0 line

abbrev pub starts_fence : Text → Bool
starts_fence (a ∷ b ∷ c ∷ cs) = code a == 96 && code b == 96 && code c == 96
starts_fence _ = false

unfoldable pub is_fence : Tests → Text → Bool
is_fence tests line = starts_fence (strip_left tests line)

-- `if lines: sections.append(...)`
abbrev pub section : List Text → List (List Text)
section [] = []
section (l ∷ ls) = (l ∷ ls) ∷ []

module _ (tests : Tests) where
  -- The loop of `chunk_markdown`: `in_code` is the buffer of a code block that is open.
  unfoldable pub markdown_sections : List Text → Bool → List Text → List Text → List (List Text)
  unfolding is_fence is_heading
  markdown_sections current in_code buffer [] = section (current ++ buffer)
  markdown_sections current in_code buffer (l ∷ ls) =
      let closed = markdown_sections (current ++ (buffer ++ l ∷ [])) false [] ls in
      let opened = markdown_sections [] true (l ∷ []) ls in
      let inside = markdown_sections current true (buffer ++ l ∷ []) ls in
      let headed = markdown_sections (l ∷ []) false buffer ls in
      let longer = markdown_sections (current ++ l ∷ []) false buffer ls in
      if is_fence tests l
      then (if in_code then closed else section current ++ opened)
      else if in_code
      then inside
      else if is_heading tests l
      then section current ++ headed
      else longer

  -- The loop of `chunk_heading`.
  unfoldable pub heading_sections : List Text → List Text → List (List Text)
  unfolding is_heading
  heading_sections current [] = section current
  heading_sections current (l ∷ ls) =
      let headed = heading_sections (l ∷ []) ls in
      let longer = heading_sections (current ++ l ∷ []) ls in
      if is_heading tests l then section current ++ headed else longer

  -- The loop of `chunk_code`, with the lines since the last boundary: `seen` after a first import,
  -- `done` after the imports, `first` at the first line.
  unfoldable pub code_blocks : Bool → Bool → Bool → List Text → List Text → List (List Text)
  unfolding is_blank
  code_blocks first seen done current [] = section current
  code_blocks first seen done current (l ∷ ls) =
      let import_line = code_blocks false true done (current ++ l ∷ []) ls in
      let import_end = code_blocks false seen true (current ++ l ∷ []) ls in
      let cut = code_blocks false seen (done || seen) (l ∷ []) ls in
      let longer = code_blocks false seen (done || seen) (current ++ l ∷ []) ls in
      if not done && tests.is_import l
      then import_line
      else if not done && (seen && is_blank tests l)
      then import_end
      else if tests.is_code_boundary l && not first
      then section current ++ cut
      else longer

  -- A section that fits the limit is a chunk, a larger one is packed by sentences.
  unfoldable pub section_chunks : ℕ → ℕ → List Text → List Text
  unfolding join semantic_chunks estimate_tokens
  section_chunks chunk_size overlap ls =
      let content = join newline ls in
      if is_blank tests content
      then []
      else if leb (estimate_tokens content) (chunk_size / 4)
      then content ∷ []
      else semantic_chunks tests chunk_size overlap content

  unfoldable pub sections_chunks : ℕ → ℕ → List (List Text) → List Text
  unfolding section_chunks
  sections_chunks chunk_size overlap [] = []
  sections_chunks chunk_size overlap (s ∷ ss) =
      section_chunks chunk_size overlap s ++ sections_chunks chunk_size overlap ss

  abbrev pub not_blank : List Text → List Text
  not_blank = keep (λ c. not (is_blank tests c))

  unfoldable pub chunk_markdown : ℕ → ℕ → Text → List Text
  unfolding markdown_sections lines_from sections_chunks
  chunk_markdown chunk_size overlap text =
      if is_blank tests text
      then []
      else not_blank
          (sections_chunks chunk_size overlap (markdown_sections [] false [] (lines_from [] text)))

  unfoldable pub chunk_heading : ℕ → ℕ → Text → List Text
  unfolding heading_sections lines_from sections_chunks
  chunk_heading chunk_size overlap text =
      if is_blank tests text
      then []
      else not_blank (sections_chunks chunk_size overlap (heading_sections [] (lines_from [] text)))

  unfoldable pub chunk_code : ℕ → ℕ → Text → List Text
  unfolding code_blocks lines_from sections_chunks
  chunk_code chunk_size overlap text =
      if is_blank tests text
      then []
      else (let chunks =
            sections_chunks chunk_size overlap
              (code_blocks true false false [] (lines_from [] text)) in
          not_blank
            (if is_empty chunks then semantic_chunks tests chunk_size overlap text else chunks))
