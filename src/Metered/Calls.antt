-- ===== src/Metered/Calls.antt =====
-- The calls of the metered billing engine, one after another in one session.
use zyntry_backend.Prelude.{String, Option, none, List, [], ◌∷◌}
use zyntry_backend.Money.{Decimal}
use zyntry_backend.Rows.{TransactionType, BillingReservation}
use zyntry_backend.Session.{Db, Session, Action}
use zyntry_backend.Limits.{Now}
use zyntry_backend.Metered

-- A call with its arguments. `reserve` has the ids that its new rows get, and what a concurrent
-- transaction left that took its key, if one did.
pub data Call : Type 0 where
  reserve : Metered.ReserveRequest → Now → String → String → Option Db → Call
  settle : Now → String → Decimal → Decimal → TransactionType → Call
  release : Now → String → Call

unfoldable pub call : Call → Action BillingReservation
call (reserve req now new_id new_wallet_id raced) =
    Metered.reserve req now new_id new_wallet_id raced
call (settle now i actual provider_cost t) = Metered.settle now i actual provider_cost t
call (release now i) = Metered.release now i

-- The session after a list of calls, whichever of them raise.
unfoldable pub run : List Call → Session → Session
unfolding call
run [] s = s
run (c ∷ cs) s = run cs (call c s).1

-- What a concurrent transaction left that took the key of a `reserve`, if one did.
abbrev pub raced_by : Call → Option Db
raced_by (reserve req now i j raced) = raced
raced_by (settle _ _ _ _ _) = none
raced_by (release _ _) = none
