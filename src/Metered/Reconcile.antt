-- ===== src/Metered/Reconcile.antt =====
-- Reconciliation finds nothing wrong with what the engine keeps.
use zyntry_backend.Prelude.{
  String, ◌≡◌, Bool, true, false, ◌||◌, inl, inr, List, [], ◌∷◌, All, arith, Option-cases, str_eq,
}
use zyntry_backend.Prelude.Int.{pos, ◌≤ℤ◌, sum_of, int_laws}
use zyntry_backend.Rows.{BillingReservation}
use zyntry_backend.Session.{Db, Session, wallet_of_user}
use zyntry_backend.Tables.Unique.{lookup_of_find}
use zyntry_backend.Limits.{Now}
use zyntry_backend.Metered.{
  Mismatch, reserved_balance, negative_balance, total_spent, expired_reservations, held,
  reconcile_wallet,
}
use zyntry_backend.Metered.Calls.{Call, run}
use zyntry_backend.Metered.Keeps.{Holds}
use zyntry_backend.Metered.Consistent.{held-eq-sum, holds}
use zyntry_backend.Metered.Solvent.{IsSolvent, HasFunds, HasAmount}
use zyntry_backend.Metered.Trace.{AreGood, run-IsSolvent}
use zyntry_backend.Tables.Every.{All_at}

abbrev is_mismatch : Mismatch → Mismatch → Bool
is_mismatch reserved_balance reserved_balance = true
is_mismatch total_spent total_spent = true
is_mismatch negative_balance negative_balance = true
is_mismatch expired_reservations expired_reservations = true
is_mismatch _ _ = false

-- `m in mismatches`.
abbrev pub mentions : Mismatch → List Mismatch → Bool
mentions m [] = false
mentions m (x ∷ xs) = is_mismatch m x || mentions m xs

sum_of_holds-nonneg :
    (i : String) (rs : List BillingReservation) → All HasAmount rs → pos 0 ≤ℤ sum_of (holds i) rs
unfolding sum_of
sum_of_holds-nonneg i [] h = omega arith
sum_of_holds-nonneg i (r ∷ rs) h = grind (int_laws, sum_of_holds-nonneg i rs h.1)

-- For solvent tables, whoever the user is, reconciliation reports neither a reserved balance that
-- the open reservations do not account for nor a negative balance.
reconcile_solvent :
    (now : Now) (u : String) (db : Db)
    → IsSolvent db.wallets db.reservations
    → (mentions reserved_balance (reconcile_wallet now u db).mismatches ≡ false)
      × (mentions negative_balance (reconcile_wallet now u db).mismatches ≡ false)
unfolding reconcile_wallet
reconcile_solvent now u db h = elim (Option-cases (wallet_of_user u db)) [
  | inl missing ↦ (ground arith, ground arith)
  | inr (w, found) ↦
      let by_id =
        lookup_of_find (λ x. x.id) (λ x. str_eq x.user_id u) db.wallets h.consistent.wallet_ids
          found in
      let backed = h.consistent.backed w.id w by_id in
      let funded : pos 0 ≤ℤ w.balance =
        All_at (λ x. x.id) HasFunds w.id db.wallets h.balances by_id in
      let reserved : pos 0 ≤ℤ held w.id db.reservations =
        rw held-eq-sum (sum_of_holds-nonneg w.id db.reservations h.amounts) in
      (ground arith, ground arith)
]

-- After any sequence of reserve, settle and release calls from solvent tables, reconciling any user's
-- wallet reports neither a reserved balance that its open reservations do not account for, nor a
-- negative balance.
pub run-reconciles :
    (cs : List Call) (s : Session) (now : Now) (u : String)
    → AreGood IsSolvent cs s
    → Holds IsSolvent s
    → let found = (reconcile_wallet now u (run cs s).committed).mismatches in
      (mentions reserved_balance found ≡ false) × (mentions negative_balance found ≡ false)
run-reconciles cs s now u g h =
    reconcile_solvent now u (run cs s).committed (run-IsSolvent cs s g h).committed
