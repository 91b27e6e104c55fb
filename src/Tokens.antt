-- ===== src/Tokens.antt =====
-- Token estimates and usage (app/services/token_engine.py). A text is the list of its characters.
use Prim.Native.String.{[] as empty, ◌∷◌ as cons}
use Prim.Native.Char.{Char}
use zyntry_backend.Prelude.{
  ℕ, zero, suc, ◌+◌, ◌/◌, String, Bool, true, ◌&&◌, List, [], ◌∷◌, max, length, str_eq,
  if◌then◌else◌,
}

-- The characters of a quoted text.
abbrev pub chars : String → List Char
chars empty = []
chars (cons c s) = c ∷ chars s

abbrev pub chars_per_token : ℕ
chars_per_token = 4

abbrev pub message_overhead : ℕ
message_overhead = 4

-- `TokenEngine.estimate_text`, from the length of the text.
unfoldable pub estimate_length : ℕ → ℕ
estimate_length zero = 0
estimate_length (suc n) = max 1 ((suc n + 3) / 4)

unfoldable pub estimate_text : List Char → ℕ
estimate_text text = estimate_length (length text)

pub record Message : Type 0 where
  pub role : String
  pub content : List Char

unfoldable pub estimate_messages : List Message → ℕ
estimate_messages [] = 0
estimate_messages (m ∷ ms) = estimate_text m.content + message_overhead + estimate_messages ms

pub record CompletionUsage : Type 0 where
  pub input_tokens : ℕ
  pub output_tokens : ℕ
  pub cached_tokens : ℕ
  pub source : String

abbrev all_from : String → List CompletionUsage → Bool
all_from source [] = true
all_from source (u ∷ us) = str_eq u.source source && all_from source us

unfoldable pub total_of : (CompletionUsage → ℕ) → List CompletionUsage → ℕ
total_of f [] = 0
total_of f (u ∷ us) = f u + total_of f us

-- `TokenEngine.aggregate`, for counts that are not negative.
pub aggregate : List CompletionUsage → CompletionUsage
aggregate [] = record {
  input_tokens = 0;
  output_tokens = 0;
  cached_tokens = 0;
  source = "estimated";
}
aggregate (u ∷ us) = record {
  input_tokens = total_of (λ x. x.input_tokens) (u ∷ us);
  output_tokens = total_of (λ x. x.output_tokens) (u ∷ us);
  cached_tokens = total_of (λ x. x.cached_tokens) (u ∷ us);
  source = if all_from u.source us then u.source else "mixed";
}
