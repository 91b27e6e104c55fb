-- ===== src/Metered/Outcomes.antt =====
-- What a successful call has done, and what a refused one has left alone.
use zyntry_backend.Prelude.{
  String, ◌≡◌, refl, Option, none, some, true, arith, str_eq, eq_iff, Bool-cases, inl, inr,
}
use zyntry_backend.Prelude.Int.{ℤ, pos, ltb_ℤ, ◌-ℤ◌, ◌+ℤ◌, ◌≤ℤ◌, ◌<ℤ◌, int_laws}
use zyntry_backend.Money.{Decimal, money}
use zyntry_backend.Rows.{Wallet, BillingReservation, TransactionType, reserved, is_reserved}
use zyntry_backend.Session.{Db, Session, ok, reservation, reservation_by_key, wallet}
use zyntry_backend.Tables.{lookup-replace, key_of_lookup}
use zyntry_backend.Metered.Moves.{settled_wallet, more_wallet, more_row}
use zyntry_backend.Limits.{Now, Scope, scope_id, check}
use zyntry_backend.Metered.Idempotent.{reserve_finds, settle_finds}
use zyntry_backend.Limits.Sound.{WithinScope, check-none_iff}
use zyntry_backend.Metered.{
  ReserveRequest, record_reservation, add_reservation, write_ledger, reserve, reserve_on,
  reserve_new, settle, settle_reserved,
}

module _ (req : ReserveRequest) (now : Now) (i j : String) (s : Session) where
  reserve_checks :
      (raced : Option Db) {r : BillingReservation}
      → reservation_by_key req.idempotency_key s.working ≡ none
      → (reserve req now i j raced s).0 ≡ ok r
      → check (money req.amount) req.owner now none s.working ≡ none
  unfolding reserve reserve_new
  reserve_checks raced fresh h = ground arith

  reserve_commits :
      {r : BillingReservation}
      → reservation_by_key req.idempotency_key s.working ≡ none
      → reservation_by_key req.idempotency_key s.committed ≡ none
      → (reserve req now i j none s).0 ≡ ok r
      → (reserve req now i j none s).1.committed ≡ (reserve req now i j none s).1.working
  unfolding reserve reserve_new reserve_on record_reservation add_reservation write_ledger
  reserve_commits fresh new h = ground arith

  -- A reservation that is made for a new key is open, for the amount asked for rounded to money, and
  -- its row is found by the key in what is committed; and no active spending limit of any of its scopes is passed by the spend of the
  -- period, the open reservations and the new amount.
  pub reserve_new-within_limits :
      {r : BillingReservation}
      → reservation_by_key req.idempotency_key s.working ≡ none
      → reservation_by_key req.idempotency_key s.committed ≡ none
      → (reserve req now i j none s).0 ≡ ok r
      → (r.status ≡ reserved)
        × (r.estimated_amount ≡ money req.amount)
        × (reservation_by_key req.idempotency_key (reserve req now i j none s).1.committed ≡ some r)
        × ((sc : Scope)
            → WithinScope
                (money req.amount)
                req.owner
                now
                none
                s.working
                sc
                (scope_id sc req.owner))
  unfolding reserve reserve_new reserve_on record_reservation add_reservation write_ledger
  reserve_new-within_limits {r = r} fresh new h = (
    ground arith,
    ground arith,
    rw (reserve_commits fresh new h) (reserve_finds req now i j none s h),
    (check-none_iff (money req.amount) req.owner now none s.working).0
        (reserve_checks none fresh h),
  )

  -- A call that loses its key to a concurrent transaction charges nothing: it returns the other
  -- transaction's reservation, and the session is what that transaction committed.
  pub reserve_lost_race :
      (db : Db) {r r0 : BillingReservation}
      → reservation_by_key req.idempotency_key s.working ≡ none
      → reservation_by_key req.idempotency_key db ≡ some r0
      → (reserve req now i j (some db) s).0 ≡ ok r
      → (r ≡ r0) × ((reserve req now i j (some db) s).1 ≡ record { committed = db; working = db })
  unfolding reserve reserve_new reserve_on record_reservation add_reservation write_ledger
  reserve_lost_race db fresh taken h = (ground arith, ground arith)

-- The row `r'` that settling `r` at a cost leaves.
pub record IsSettled (r r' : BillingReservation) (actual : ℤ) : Type 0 where
  pub settled : r'.settled_amount ≡ some actual
  pub released : r'.released_amount ≡ r'.estimated_amount -ℤ actual
  pub gives_back : pos 0 ≤ℤ r'.released_amount
  pub grows : r.estimated_amount ≤ℤ r'.estimated_amount

-- The wallet `w'` that settling a reservation `r` of the wallet `w` at a cost leaves.
pub record IsCharged (r : BillingReservation) (w w' : Wallet) (actual : ℤ) : Type 0 where
  pub balance : w'.balance ≡ w.balance +ℤ (r.estimated_amount -ℤ actual)
  pub reserved_balance : w'.reserved_balance ≡ w.reserved_balance -ℤ r.estimated_amount
  pub total_spent : w'.total_spent ≡ w.total_spent +ℤ actual

module _ (now : Now) (i : String) (a p : Decimal) (t : TransactionType) (s : Session)
    {r : BillingReservation} (found : reservation i s.working ≡ some r)
    (is_open : is_reserved r.status ≡ true) where
  settle_commits :
      {r' : BillingReservation}
      → (settle now i a p t s).0 ≡ ok r'
      → (settle now i a p t s).1.committed ≡ (settle now i a p t s).1.working
  unfolding settle settle_reserved write_ledger
  settle_commits h = ground arith

  settle_row :
      {r' : BillingReservation} → (settle now i a p t s).0 ≡ ok r' → IsSettled r r' (money a)
  unfolding settle settle_reserved write_ledger
  settle_row h = record {
    settled = ground arith;
    released = ground arith;
    gives_back = grind int_laws;
    grows = grind int_laws;
  }

  settle_moves :
      {r' : BillingReservation} {w : Wallet}
      → wallet r.wallet_id s.working ≡ some w
      → (settle now i a p t s).0 ≡ ok r'
      → (w' : Wallet) × (wallet r.wallet_id (settle now i a p t s).1.working ≡ some w')
        × IsCharged r w w' (money a)
  unfolding settle settle_reserved write_ledger
  settle_moves {w = w} owner h =
      let key = key_of_lookup (λ w. w.id) r.wallet_id s.working.wallets owner in
      let same : str_eq w.id r.wallet_id ≡ true = ground (arith, eq_iff w.id r.wallet_id) in
      let there : wallet w.id s.working ≡ some w = simp key owner in
      elim (Bool-cases (ltb_ℤ r.estimated_amount (money a))) [
        | inl over ↦
            let w' = settled_wallet (money a) (more_row (money a) r) (more_wallet (money a) r w) in
            (
              w',
              ground
                  (arith, same, lookup-replace (λ w. w.id) w' s.working.wallets r.wallet_id there),
              record {
                balance = omega int_laws;
                reserved_balance = omega int_laws;
                total_spent = refl;
              },
            )
        | inr within ↦
            let w' = settled_wallet (money a) r w in
            (
              w',
              ground
                  (arith, same, lookup-replace (λ w. w.id) w' s.working.wallets r.wallet_id there),
              record { balance = omega int_laws; reserved_balance = refl; total_spent = refl },
            )
      ]

  -- Settling an open reservation of a wallet commits: the row returned is found under its id, with the
  -- actual cost rounded to money and the rest of the estimate, never negative, given back; and
  -- the wallet is found with the reservation's amount taken from what is reserved, the actual cost
  -- added to what is spent, and the difference of the two added to the balance.
  pub settle_records :
      {r' : BillingReservation} {w : Wallet}
      → wallet r.wallet_id s.working ≡ some w
      → (settle now i a p t s).0 ≡ ok r'
      → let after = (settle now i a p t s).1.committed in
        (reservation i after ≡ some r')
        × IsSettled r r' (money a)
        × ((w' : Wallet) × (wallet r.wallet_id after ≡ some w') × IsCharged r w w' (money a))
  settle_records owner h =
      rw (settle_commits h) ((settle_finds now i a p t s h).0, settle_row h, settle_moves owner h)

  -- A cost that the estimate and the balance together do not cover is refused: nothing changes.
  pub settle_short :
      (w : Wallet)
      → wallet r.wallet_id s.working ≡ some w
      → pos 0 ≤ℤ w.balance
      → w.balance +ℤ r.estimated_amount <ℤ money a
      → (settle now i a p t s).1 ≡ s
  unfolding settle settle_reserved write_ledger
  settle_short w owner funded short = grind int_laws
