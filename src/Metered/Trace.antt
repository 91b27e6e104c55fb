-- ===== src/Metered/Trace.antt =====
-- What holds after any sequence of calls.
use zyntry_backend.Prelude.{◌≡◌, none, List, [], ◌∷◌}
use zyntry_backend.Prelude.Int.{ℤ}
use zyntry_backend.Rows.{Wallet, BillingReservation}
use zyntry_backend.Session.{Session}
use zyntry_backend.Metered.Calls.{Call, reserve, settle, release, call, run, raced_by}
use zyntry_backend.Metered.Moves.{IsKept, wallet_in, reservation_in}
use zyntry_backend.Metered.Keeps.{Holds, RacedHolds, reserve-Holds, settle-Holds, release-Holds}
use zyntry_backend.Metered.Consistent.{IsConsistent, IsConsistent-kept}
use zyntry_backend.Metered.Conserved.{Hold, Hold-kept, total_funds}
use zyntry_backend.Metered.Solvent.{IsSolvent, IsSolvent-kept}

-- The ids that a call gives to its new rows are new.
abbrev pub IsFresh : Call → Session → Type 0
IsFresh (reserve req now i j raced) s =
    (wallet_in j s.working.wallets ≡ none) × (reservation_in i s.working.reservations ≡ none)
IsFresh (settle _ _ _ _ _) s = Unit
IsFresh (release _ _) s = Unit

module _ (P : List Wallet → List BillingReservation → Type 0) where
  -- Every call of a run gives new ids to its new rows, and a transaction that races it keeps `P`.
  abbrev pub AreGood : List Call → Session → Type 0
  AreGood [] s = Unit
  AreGood (c ∷ cs) s = IsFresh c s × RacedHolds P (raced_by c) × AreGood cs (call c s).1

module _ {P : List Wallet → List BillingReservation → Type 0} (k : IsKept P) where
  pub call-Holds :
      (c : Call) (s : Session)
      → IsFresh c s
      → RacedHolds P (raced_by c)
      → Holds P s
      → Holds P (call c s).1
  unfolding call
  call-Holds (reserve req now i j raced) s (wfresh, fresh) race h =
      reserve-Holds k req now i j raced s race h wfresh fresh
  call-Holds (settle now i a p t) s f race h = settle-Holds k now i a p t s h
  call-Holds (release now i) s f race h = release-Holds k now i s h

  run-Holds : (cs : List Call) (s : Session) → AreGood P cs s → Holds P s → Holds P (run cs s)
  unfolding run
  run-Holds [] s g h = h
  run-Holds (c ∷ cs) s (f, race, g) h = run-Holds cs (call c s).1 g (call-Holds c s f race h)

-- From consistent tables, after any sequence of reserve, settle and release calls, failed ones and
-- lost races included, primary keys are unique, every reservation's wallet exists, and every wallet's
-- reserved balance is the sum of its open reservations, in the session and as committed.
pub run-IsConsistent :
    (cs : List Call) (s : Session)
    → AreGood IsConsistent cs s
    → Holds IsConsistent s
    → Holds IsConsistent (run cs s)
run-IsConsistent = run-Holds IsConsistent-kept

-- Whatever the calls and their errors, the sum of balances, reserved balances and total spends over
-- all wallets stays what it was, in the session and as committed.
pub run-conserves :
    (n : ℤ) (cs : List Call) (s : Session)
    → AreGood (Hold n) cs s
    → Holds (Hold n) s
    → (total_funds (run cs s).working.wallets ≡ n) × (total_funds (run cs s).committed.wallets ≡ n)
run-conserves n cs s g h =
    let after = run-Holds (Hold-kept n) cs s g h in (after.working.total, after.committed.total)

-- From solvent tables, no sequence of calls makes a wallet's balance or the amount of a reservation
-- negative, and the tables stay consistent.
pub run-IsSolvent :
    (cs : List Call) (s : Session)
    → AreGood IsSolvent cs s
    → Holds IsSolvent s
    → Holds IsSolvent (run cs s)
run-IsSolvent = run-Holds IsSolvent-kept
