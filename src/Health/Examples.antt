-- ===== src/Health/Examples.antt =====
-- A provider that fails, and one that recovers.
use zyntry_backend.Prelude.{String, ◌≡◌, some, List, [], ◌∷◌, arith}
use zyntry_backend.Health.{Config, is_available}
use zyntry_backend.Health.Streaks.{Event, after, streak, open_at, is_available-after}

abbrev config : Config
config = record { failure_threshold = 2; cooldown_seconds = 30 }

abbrev events : List Event
events =
    Event.failed 1 "openai" "timeout"
    ∷ Event.failed 2 "gemini" "timeout"
    ∷ Event.failed 3 "openai" "timeout"
    ∷ Event.succeeded "gemini" (some 80)
    ∷ Event.failed 4 "gemini" "timeout"
    ∷ []

abbrev same : String → String
same s = s

is_available-after_example :
    (is_available same 5 "openai" (after same config events [])).0
    ≡ open_at same config 5 (streak same config "openai" events (0, 0))
is_available-after_example = is_available-after same config events "openai" 5 (omega arith)
