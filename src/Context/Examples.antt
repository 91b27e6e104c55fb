-- ===== src/Context/Examples.antt =====
-- A request that `assemble` does not finish.
use zyntry_backend.Prelude.{◌+◌, ◌≤◌, ◌<◌, ◌≡◌, refl, none, some, List, [], ◌∷◌, arith}
use zyntry_backend.Tokens.{chars, Message, estimate_length, estimate_text, estimate_messages}
use zyntry_backend.Context.{ContextBudget, RawMessage, normalize, assemble, trim}
use zyntry_backend.Context.Trim.{Trimmed, trim-IsTrimmed}
use zyntry_backend.Context.Compress.{assemble-never_ends}

abbrev budget : ContextBudget
budget = record {
  model_context = 532;
  reserved_output = 256;
  safety_margin = 256;
  working_input = 20;
}

abbrev policy : Message
policy = record { role = "system"; content = [] }

abbrev question : Message
question = record {
  role = "user";
  content =
      chars "Summarise the attached report in two sentences, then list its three main findings.";
}

abbrev messages : List RawMessage
messages =
    record { role = some "system"; content = some [] }
    ∷ record { role = none; content = some question.content }
    ∷ []

same_messages : normalize messages ≡ policy ∷ question ∷ []
unfolding normalize
same_messages = refl

room : estimate_messages (policy ∷ []) + 14 ≤ 20
unfolding estimate_messages estimate_text estimate_length
room = omega arith

over : 20 < estimate_messages (policy ∷ question ∷ [])
unfolding estimate_messages estimate_text estimate_length
over = omega arith

assemble-never_ends_example : assemble 1000 budget messages ≡ none
assemble-never_ends_example =
    assemble-never_ends 1000 budget messages (policy ∷ []) question same_messages (refl, tt) refl
      room over

trim-IsTrimmed_example :
    Trimmed 20 (policy ∷ question ∷ question ∷ []) (trim 3 20 (policy ∷ question ∷ question ∷ []))
trim-IsTrimmed_example = trim-IsTrimmed 20 (policy ∷ question ∷ question ∷ [])
