-- ===== src/Chunking/Documents.antt =====
-- Documents into chunks with their metadata (app/services/chunking.py, `chunk_document` and
-- `chunk_documents`). The hash, the language and the kind of a document, and the heading that a
-- chunk's text holds, are read by functions that are arguments.
use Prim.Native.Char.{code}
use zyntry_backend.Prelude.{
  ℕ, ◌+◌, ◌/◌, String, Option, none, some, List, [], ◌∷◌, ◌++◌, max, length, str_eq, ◌==◌,
  if◌then◌else◌,
}
use zyntry_backend.Chunking.{
  Text, Tests, is_blank, estimate_tokens, chunk_semantic, strip_left, strip_right,
}
use zyntry_backend.Chunking.Sections.{chunk_markdown, chunk_heading, chunk_code}
use zyntry_backend.Chunking.Windows.{chunk_sliding_window}

pub record Chunk : Type 0 where
  pub document_id : Option String
  pub section : Text
  pub heading : Text
  pub page : ℕ
  pub source : Option String
  pub language : Option String
  pub hash : String
  pub version : String
  pub content : Text
  pub chunk_index : ℕ
  pub strategy : String
  pub token_count : ℕ
  pub char_count : ℕ

pub record Document : Type 0 where
  pub id : Option String
  pub content : Text
  pub source : Option String
  pub language : Option String
  pub strategy : String

pub record Readers : Type 0 where
  pub hash : Text → String
  pub heading : Text → Text
  pub language : Document → Option String
  pub content_type : Document → String

-- `_estimate_page`
unfoldable pub estimate_page : ℕ → ℕ
estimate_page char_offset = max 1 (char_offset / 2000 + 1)

-- `heading.lstrip("#")`
abbrev pub without_marks : Text → Text
without_marks [] = []
without_marks (c ∷ cs) = if code c == b'#' then without_marks cs else c ∷ cs

-- The strategy that `auto` stands for.
unfoldable pub resolve_strategy : Readers → Document → String
resolve_strategy readers d =
    if str_eq d.strategy "auto"
    then (if str_eq (readers.content_type d) "markdown"
        then "markdown"
        else if str_eq (readers.content_type d) "code"
        then "code"
        else "semantic")
    else d.strategy

module _ (fuel : ℕ) (tests : Tests) (readers : Readers) (chunk_size overlap : ℕ) where
  -- The chunks' texts; none where the loop of the sliding window has not ended.
  unfoldable pub raw_chunks : String → Text → Option (List Text)
  raw_chunks strategy text =
      if str_eq strategy "semantic"
      then some (chunk_semantic tests chunk_size overlap text)
      else if str_eq strategy "markdown"
      then some (chunk_markdown tests chunk_size overlap text)
      else if str_eq strategy "code"
      then some (chunk_code tests chunk_size overlap text)
      else if str_eq strategy "heading"
      then some (chunk_heading tests chunk_size overlap text)
      else if str_eq strategy "sliding_window"
      then chunk_sliding_window fuel tests chunk_size overlap text
      else some (chunk_semantic tests chunk_size overlap text)

  -- `heading.lstrip("#").strip()`
  abbrev pub section_of : Text → Text
  section_of heading = strip_right tests (strip_left tests (without_marks heading))

  -- The loop that numbers the chunks.
  unfoldable pub describe : Document → String → ℕ → ℕ → List Text → List Chunk
  unfolding estimate_page
  describe d strategy index char_offset [] = []
  describe d strategy index char_offset (t ∷ ts) =
      record {
        document_id = d.id;
        section = section_of (readers.heading t);
        heading = readers.heading t;
        page = estimate_page char_offset;
        source = d.source;
        language = readers.language d;
        hash = readers.hash t;
        version = "1";
        content = t;
        chunk_index = index;
        strategy = strategy;
        token_count = estimate_tokens t;
        char_count = length t;
      }
      ∷ describe d strategy (index + 1) (char_offset + length t) ts

  unfoldable pub chunk_document : Document → Option (List Chunk)
  unfolding describe resolve_strategy
  chunk_document d =
      if is_blank tests d.content
      then some []
      else elim (raw_chunks (resolve_strategy readers d) d.content) [
        | none ↦ none
        | some ts ↦ some (describe d (resolve_strategy readers d) 0 0 ts)
      ]

  abbrev pub both : Option (List Chunk) → Option (List Chunk) → Option (List Chunk)
  both none _ = none
  both (some cs) none = none
  both (some cs) (some ds) = some (cs ++ ds)

  unfoldable pub chunk_documents : List Document → Option (List Chunk)
  unfolding chunk_document
  chunk_documents [] = some []
  chunk_documents (d ∷ ds) = both (chunk_document d) (chunk_documents ds)
