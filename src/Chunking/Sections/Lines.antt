-- ===== src/Chunking/Sections/Lines.antt =====
-- The sections hold the lines of the document, and the lines its text.
use native.Mathlib.Omega.{arith}
use zyntry_backend.Prelude.{◌≡◌, refl, Bool, true, false, ◌||◌, List, [], ◌∷◌, ◌++◌}
use zyntry_backend.Chunking.{Text, Tests}
use zyntry_backend.Chunking.Sections.{section, markdown_sections, heading_sections, code_blocks}

unfoldable pub concat : List (List Text) → List Text
concat [] = []
concat (ls ∷ rest) = ls ++ concat rest

append_assoc : (xs ys zs : List Text) → (xs ++ ys) ++ zs ≡ xs ++ (ys ++ zs)
append_assoc [] ys zs = refl
append_assoc (x ∷ xs) ys zs = ground (arith, append_assoc xs ys zs)

append_nil : (xs : List Text) → xs ++ [] ≡ xs
append_nil [] = refl
append_nil (x ∷ xs) = ground (arith, append_nil xs)

concat-section :
    (ls : List Text) (rest : List (List Text)) → concat (section ls ++ rest) ≡ ls ++ concat rest
unfolding concat
concat-section [] rest = refl
concat-section (l ∷ ls) rest = refl

concat_single : (ls : List Text) → concat (section ls) ≡ ls
unfolding concat
concat_single [] = refl
concat_single (l ∷ ls) = append_nil (l ∷ ls)

module _ (tests : Tests) where
  heading_sections-keeps :
      (current ls : List Text) → concat (heading_sections tests current ls) ≡ current ++ ls
  unfolding heading_sections
  heading_sections-keeps current [] = ground (arith, concat_single current, append_nil current)
  heading_sections-keeps current (l ∷ ls) = ground (
    arith,
    concat-section current (heading_sections tests (l ∷ []) ls),
    heading_sections-keeps (l ∷ []) ls,
    heading_sections-keeps (current ++ l ∷ []) ls,
    append_assoc current (l ∷ []) ls,
  )

  code_blocks-keeps :
      (first seen done : Bool) (current ls : List Text)
      → concat (code_blocks tests first seen done current ls) ≡ current ++ ls
  unfolding code_blocks
  code_blocks-keeps first seen done current [] =
      ground (arith, concat_single current, append_nil current)
  code_blocks-keeps first seen done current (l ∷ ls) = ground (
    arith,
    concat-section current (code_blocks tests false seen (done || seen) (l ∷ []) ls),
    code_blocks-keeps false true done (current ++ l ∷ []) ls,
    code_blocks-keeps false seen true (current ++ l ∷ []) ls,
    code_blocks-keeps false seen (done || seen) (l ∷ []) ls,
    code_blocks-keeps false seen (done || seen) (current ++ l ∷ []) ls,
    append_assoc current (l ∷ []) ls,
  )

  -- `current` is empty inside a code block, and the buffer outside.
  abbrev IsApart : List Text → Bool → List Text → Type 0
  IsApart current true buffer = current ≡ []
  IsApart current false buffer = buffer ≡ []

  markdown_sections-keeps :
      (current : List Text) (in_code : Bool) (buffer ls : List Text)
      → IsApart current in_code buffer
      → concat (markdown_sections tests current in_code buffer ls) ≡ current ++ (buffer ++ ls)
  unfolding markdown_sections
  markdown_sections-keeps current in_code buffer [] apart =
      ground (arith, concat_single (current ++ buffer), append_nil buffer)
  markdown_sections-keeps current true buffer (l ∷ ls) apart = ground (
    arith,
    apart,
    append_assoc buffer (l ∷ []) ls,
    append_assoc current (buffer ++ l ∷ []) ls,
    markdown_sections-keeps (current ++ (buffer ++ l ∷ [])) false [] ls refl,
    markdown_sections-keeps current true (buffer ++ l ∷ []) ls apart,
  )
  markdown_sections-keeps current false buffer (l ∷ ls) apart = ground (
    arith,
    apart,
    append_assoc current (l ∷ []) ls,
    concat-section current (markdown_sections tests [] true (l ∷ []) ls),
    concat-section current (markdown_sections tests (l ∷ []) false buffer ls),
    markdown_sections-keeps [] true (l ∷ []) ls refl,
    markdown_sections-keeps (l ∷ []) false buffer ls apart,
    markdown_sections-keeps (current ++ l ∷ []) false buffer ls apart,
  )

-- The sections of a document by headings, by markdown with its code blocks, and by code boundaries
-- lose no line and keep their order: their lines, one section after another, are the document's,
-- whatever counts as white space, an import or a boundary.
pub sections-keep :
    (tests : Tests) (ls : List Text)
    → (concat (heading_sections tests [] ls) ≡ ls)
      × (concat (markdown_sections tests [] false [] ls) ≡ ls)
      × (concat (code_blocks tests true false false [] ls) ≡ ls)
sections-keep tests ls = (
  heading_sections-keeps tests [] ls,
  markdown_sections-keeps tests [] false [] ls refl,
  code_blocks-keeps tests true false false [] ls,
)
