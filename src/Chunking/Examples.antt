-- ===== src/Chunking/Examples.antt =====
-- Short texts in chunks.
use Prim.Native.Char.{code}
use zyntry_backend.Prelude.{◌≡◌, some, true, false, List, [], ◌∷◌, ◌++◌, All, arith, length, ◌==◌}
use zyntry_backend.Tokens.{chars}
use zyntry_backend.Chunking.{Text, Tests, pack}
use zyntry_backend.Chunking.Packing.{rejoin, pack-rejoins}
use zyntry_backend.Chunking.Windows.{windows_from, rest_of, IsWindow, windows_from-covers}
use zyntry_backend.Chunking.Sections.{heading_sections, markdown_sections, code_blocks}
use zyntry_backend.Chunking.Sections.Lines.{concat, sections-keep}

abbrev tests : Tests
tests = record {
  is_space = λ c. code c == 32;
  is_import = λ t. false;
  is_code_boundary = λ t. false;
}

abbrev sentences : List Text
sentences = chars "One two." ∷ chars "Three." ∷ chars "Four five six." ∷ []

abbrev text : Text
text = chars "abcdefg"

abbrev lines : List Text
lines = chars "# A" ∷ chars "one" ∷ chars "```" ∷ chars "# no" ∷ chars "```" ∷ chars "# B" ∷ []

pack-rejoins_example : rejoin 1 [] (pack 3 1 [] sentences) ≡ sentences
pack-rejoins_example = pack-rejoins 3 1 sentences

windows_from-covers_example :
    (w : Text) × (ws : List Text) × (windows_from (length text) 3 1 text 0 ≡ some (w ∷ ws))
    × (w ++ rest_of 1 ws ≡ text)
    × All (IsWindow 3) (w ∷ ws)
windows_from-covers_example = windows_from-covers 3 1 text (omega arith) (omega arith)

sections-keep_example :
    (concat (heading_sections tests [] lines) ≡ lines)
    × (concat (markdown_sections tests [] false [] lines) ≡ lines)
    × (concat (code_blocks tests true false false [] lines) ≡ lines)
sections-keep_example = sections-keep tests lines
