-- ===== src/Context.antt =====
-- The context budget and the assembly of a request (app/services/context_manager.py).
-- The loops of `assemble` run on fuel.
pub mod Trim
pub mod Compress
mod Examples
use Prim.Native.Char.{Char}
use zyntry_backend.Prelude.{
  ℕ, zero, suc, ◌+◌, ◌*◌, ◌-◌, ◌/◌, String, Option, none, some, Bool, true, false, not, ◌&&◌, ◌||◌,
  List, [], ◌∷◌, ◌++◌, min, max, ltb, leb, ◌==◌, length, take, find, str_eq, if◌then◌else◌,
}
use zyntry_backend.Tokens.{chars, Message, chars_per_token, estimate_messages}

pub record ContextBudget : Type 0 where
  pub model_context : ℕ
  pub reserved_output : ℕ
  pub safety_margin : ℕ
  pub working_input : ℕ

-- What `budget_for` reads of the `ModelInfo`.
pub record ModelInfo : Type 0 where
  pub max_context : ℕ
  pub max_output_tokens : Option ℕ

-- `value or default`
abbrev pub or_default : Option ℕ → ℕ → ℕ
or_default none d = d
or_default (some zero) d = d
or_default (some (suc n)) d = suc n

-- `ContextManager.budget_for`, with the default safety ratio of 8 in a hundred.
unfoldable pub budget_for : ℕ → ModelInfo → Option ℕ → Option ℕ → ContextBudget
budget_for default_output_tokens info requested_output_tokens context_override =
    let model_context = max 1 (or_default context_override info.max_context) in
    let output_limit = or_default info.max_output_tokens default_output_tokens in
    let reserved_output =
      max 256 (min (or_default requested_output_tokens default_output_tokens) output_limit) in
    let safety_margin = max 256 ((model_context * 8) / 100) in
    record {
      model_context = model_context;
      reserved_output = reserved_output;
      safety_margin = safety_margin;
      working_input = max 1 (model_context - reserved_output - safety_margin);
    }

abbrev pub is_system : Message → Bool
is_system m = str_eq m.role "system"

-- `_oldest_removable_index`, and the `pop` of what it finds.
unfoldable pub remove_oldest : List Message → Option (List Message)
remove_oldest [] = none
remove_oldest (m ∷ []) = none
remove_oldest (m ∷ n ∷ ms) =
    let rest = remove_oldest (n ∷ ms) in
    if is_system m then elim rest [ none ↦ none | some r ↦ some (m ∷ r) ] else some (n ∷ ms)

-- The first loop: the messages that are left, and how many were dropped.
unfoldable pub trim : ℕ → ℕ → List Message → List Message × ℕ
trim zero working_input ms = (ms, 0)
trim (suc fuel) working_input ms = elim (remove_oldest ms) [
  | none ↦ (ms, 0)
  | some rest ↦
      let next = trim fuel working_input rest in
      if ltb working_input (estimate_messages ms) then (next.0, suc next.1) else (ms, 0)
]

abbrev pub truncated_note : List Char
truncated_note = chars "\n[Context truncated to fit the selected model.]"

abbrev pub truncated_marker : List Char
truncated_marker = chars "\n[Context truncated.]"

abbrev pub truncate : ℕ → Message → Message
truncate excess m = record m {
  content =
      take (max 128 (length m.content - excess * chars_per_token)) m.content ++ truncated_note;
}

-- The target is the oldest message that is not of the system's, the latest only where it is alone.
unfoldable pub compress_oldest : ℕ → List Message → Option (List Message)
compress_oldest excess [] = none
compress_oldest excess (m ∷ ms) =
    let rest = compress_oldest excess ms in
    if is_system m
    then elim rest [ none ↦ none | some r ↦ some (m ∷ r) ]
    else some (truncate excess m ∷ ms)

-- What the final pass leaves of its target.
unfoldable pub cut : ℕ → List Char → List Char
cut excess content =
    let removed = min (max (excess * chars_per_token) 16) (max 1 (length content - 1)) in
    if leb (length content) (removed + length truncated_marker)
    then []
    else take (length content - removed) content ++ truncated_marker

-- `item["content"] and item["role"] != "system"`
abbrev is_candidate : Message → Bool
is_candidate m = not (length m.content == 0) && not (is_system m)

-- The length of the longest candidate, zero where there is none.
unfoldable pub longest : List Message → ℕ
longest [] = 0
longest (m ∷ ms) = if is_candidate m then max (length m.content) (longest ms) else longest ms

-- `max(candidates, key=...)` takes the first candidate of the greatest length.
unfoldable pub cut_first : ℕ → ℕ → List Message → List Message
cut_first excess size [] = []
cut_first excess size (m ∷ ms) =
    let rest = cut_first excess size ms in
    if is_candidate m && (length m.content == size)
    then record m { content = cut excess m.content } ∷ ms
    else m ∷ rest

pub data Warning : Type 0 where
  was_compressed system_too_large still_exceeds : Warning

-- What the loops of `assemble` change.
pub record Selection : Type 0 where
  pub selected : List Message
  pub compressed : ℕ
  pub warnings : List Warning

abbrev is_was_compressed : Warning → Bool
is_was_compressed was_compressed = true
is_was_compressed _ = false

-- `if ... not in warnings: warnings.append(...)`
abbrev warn_once : List Warning → List Warning
warn_once ws = elim (find is_was_compressed ws) [ none ↦ ws ++ was_compressed ∷ [] | some w ↦ ws ]

-- The second step of `assemble`.
unfoldable pub compress : ℕ → List Message → Selection
compress working_input ms =
    let excess = estimate_messages ms - working_input in
    if ltb working_input (estimate_messages ms)
    then (elim (compress_oldest excess ms) [
      | some r ↦ record { selected = r; compressed = 1; warnings = was_compressed ∷ [] }
      | none ↦ record { selected = ms; compressed = 0; warnings = system_too_large ∷ [] }
    ])
    else record { selected = ms; compressed = 0; warnings = [] }

-- One turn of the final loop, where there is a candidate.
unfoldable pub cut_longest : ℕ → Selection → Selection
cut_longest working_input s = record {
  selected =
      cut_first (estimate_messages s.selected - working_input) (longest s.selected) s.selected;
  compressed = suc s.compressed;
  warnings = warn_once s.warnings;
}

-- The final loop; none where it has not ended within the fuel.
unfoldable pub final_pass : ℕ → ℕ → Selection → Option Selection
final_pass zero working_input s = none
final_pass (suc fuel) working_input s =
    let rest = final_pass fuel working_input (cut_longest working_input s) in
    if leb (estimate_messages s.selected) working_input
    then some s
    else if longest s.selected == 0
    then some (record s { warnings = s.warnings ++ system_too_large ∷ [] })
    else rest

pub record RawMessage : Type 0 where
  pub role : Option String
  pub content : Option (List Char)

abbrev role_of : Option String → String
role_of none = "user"
role_of (some r) = if str_eq r "" then "user" else r

-- `_normalize_message` of the messages whose content is not None.
unfoldable pub normalize : List RawMessage → List Message
normalize [] = []
normalize (m ∷ ms) = elim m.content [
  | none ↦ normalize ms
  | some content ↦ record { role = role_of m.role; content = content } ∷ normalize ms
]

pub record ContextAssembly : Type 0 where
  pub messages : List Message
  pub budget : ContextBudget
  pub estimated_input_tokens : ℕ
  pub dropped_messages : ℕ
  pub compressed_messages : ℕ
  pub warnings : List Warning

abbrev finish : ContextBudget → ℕ → Selection → ContextAssembly
finish budget dropped s = record {
  messages = s.selected;
  budget = budget;
  estimated_input_tokens = estimate_messages s.selected;
  dropped_messages = dropped;
  compressed_messages = s.compressed;
  warnings =
      if ltb budget.working_input (estimate_messages s.selected)
      then s.warnings ++ still_exceeds ∷ []
      else s.warnings;
}

-- `assemble`, from the budget; none where the final loop has not ended within the fuel.
unfoldable pub assemble : ℕ → ContextBudget → List RawMessage → Option ContextAssembly
assemble fuel budget messages =
    let normalized = normalize messages in
    let trimmed = trim (length normalized) budget.working_input normalized in
    elim (final_pass fuel budget.working_input (compress budget.working_input trimmed.0)) [
      | none ↦ none
      | some s ↦ some (finish budget trimmed.1 s)
    ]
