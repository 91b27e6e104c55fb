-- ===== src/Metered/Idempotent.antt =====
-- Repeated calls change nothing.
use zyntry_backend.Prelude.{
  String, ◌≡◌, Option, none, some, false, inl, inr, List, [], ◌∷◌, ◌++◌, arith, eq_iff,
  Option-cases,
}
use zyntry_backend.Prelude.Int.{pos, ◌<ℤ◌}
use zyntry_backend.Money.{Decimal, money}
use zyntry_backend.Money.Rounding.{money-pos_iff}
use zyntry_backend.Rows.{Wallet, BillingReservation, TransactionType, is_reserved}
use zyntry_backend.Session.{Db, Session, ok, reservation, reservation_by_key, wallet_of_user}
use zyntry_backend.Tables.{lookup-append, lookup-replace, key_of_lookup}
use zyntry_backend.Limits.{Now}
use zyntry_backend.Metered.{
  ReserveRequest, record_reservation, add_reservation, write_ledger, reserve, reserve_on,
  reserve_new, settle, release, new_reservation, new_wallet,
}
use zyntry_backend.Metered.Moves.{
  released_row, settled_row, more_row, reservation_in, put_reservation_in,
}
use zyntry_backend.Metered.Calls.{Call, call}

module _ (req : ReserveRequest) (now : Now) (i j : String) (raced : Option Db) where
  reserve_on_finds :
      (w : Wallet) (s : Session) {r : BillingReservation}
      → reservation_by_key req.idempotency_key s.working ≡ none
      → (reserve_on req now i j raced w s).0 ≡ ok r
      → reservation_by_key req.idempotency_key (reserve_on req now i j raced w s).1.working ≡ some r
  unfolding reserve_on record_reservation add_reservation write_ledger
  reserve_on_finds w s fresh h = ground (
    arith,
    lookup-append (λ x. x.idempotency_key) req.idempotency_key s.working.reservations
        (new_reservation req now i w ∷ []),
    eq_iff req.idempotency_key req.idempotency_key,
  )

  pub reserve_finds :
      (s : Session) {r : BillingReservation}
      → (reserve req now i j raced s).0 ≡ ok r
      → reservation_by_key req.idempotency_key (reserve req now i j raced s).1.working ≡ some r
  unfolding reserve reserve_new
  reserve_finds s {r = r} h = elim (Option-cases (wallet_of_user req.owner.user_id s.working)) [
    | inl missing ↦ ground (
      arith,
      reserve_on_finds (new_wallet j req.owner.user_id)
          (record s {
            working = record s.working {
              wallets = s.working.wallets ++ new_wallet j req.owner.user_id ∷ [];
            };
          })
          {r = r},
    )
    | inr (w, found) ↦ ground (arith, reserve_on_finds w s {r = r})
  ]

  reserve_existing :
      (s : Session) (r : BillingReservation)
      → reservation_by_key req.idempotency_key s.working ≡ some r
      → pos 0 <ℤ req.amount.coefficient
      → reserve req now i j raced s ≡ (ok r, s)
  unfolding reserve
  reserve_existing s r found positive =
      let rounded : pos 0 <ℤ money req.amount = (money-pos_iff req.amount).1 positive in
      ground arith

-- A second `reserve` with a key that one returned a reservation for, whatever else it asks for as long
-- as its amount is positive, returns that reservation and leaves the session as it is.
pub reserve-again :
    (req req' : ReserveRequest) (now now' : Now) (i j i' j' : String) (raced raced' : Option Db)
    (s : Session) {r : BillingReservation}
    → (reserve req now i j raced s).0 ≡ ok r
    → req'.idempotency_key ≡ req.idempotency_key
    → pos 0 <ℤ req'.amount.coefficient
    → reserve req' now' i' j' raced' (reserve req now i j raced s).1
      ≡ (ok r, (reserve req now i j raced s).1)
reserve-again req req' now now' i j i' j' raced raced' s {r = r} h same positive =
    reserve_existing req' now' i' j' raced' (reserve req now i j raced s).1 r
      (simp same (reserve_finds req now i j raced s h)) positive

found_after :
    (i : String) (rs : List BillingReservation) (r r' : BillingReservation)
    → reservation_in i rs ≡ some r
    → r'.id ≡ r.id
    → reservation_in i (put_reservation_in r' rs) ≡ some r'
found_after i rs r r' found same =
    let key = key_of_lookup (λ x. x.id) i rs found in
    let found' : reservation_in r'.id rs ≡ some r = simp (same, key) found in
    simp (lookup-replace (λ x. x.id) r' rs i found') (ground (arith, eq_iff r'.id i, key))

-- What a settled or released reservation is found as afterwards.
pub release_finds :
    (now : Now) (i : String) (s : Session) {r : BillingReservation}
    → (release now i s).0 ≡ ok r
    → (reservation i (release now i s).1.working ≡ some r) × (is_reserved r.status ≡ false)
unfolding release write_ledger
release_finds now i s h = elim (Option-cases (reservation i s.working)) [
  | inl missing ↦ ground arith
  | inr (r, found) ↦ ground (arith, found_after i s.working.reservations r (released_row r))
]

pub settle_finds :
    (now : Now) (i : String) (a p : Decimal) (t : TransactionType) (s : Session)
    {r : BillingReservation}
    → (settle now i a p t s).0 ≡ ok r
    → (reservation i (settle now i a p t s).1.working ≡ some r) × (is_reserved r.status ≡ false)
unfolding settle write_ledger
settle_finds now i a p t s h = elim (Option-cases (reservation i s.working)) [
  | inl missing ↦ ground arith
  | inr (r, found) ↦ ground (
    arith,
    found_after i s.working.reservations r (settled_row (money a) r),
    found_after i s.working.reservations r (settled_row (money a) (more_row (money a) r)),
  )
]

module _ (i : String) (s : Session) (r : BillingReservation)
    (found : reservation i s.working ≡ some r) (closed : is_reserved r.status ≡ false) where
  settle_closed :
      (now : Now) (a p : Decimal) (t : TransactionType) → settle now i a p t s ≡ (ok r, s)
  unfolding settle
  settle_closed now a p t = ground arith

  release_closed : (now : Now) → release now i s ≡ (ok r, s)
  unfolding release
  release_closed now = ground arith

-- A call that settles or releases the reservation `i`.
abbrev pub Closes : String → Call → Type 0
Closes i (Call.reserve _ _ _ _ _) = ⊥
Closes i (Call.settle now k a p t) = k ≡ i
Closes i (Call.release now k) = k ≡ i

closed_after :
    (i : String) (c : Call) (s : Session) {r : BillingReservation}
    → Closes i c
    → (call c s).0 ≡ ok r
    → (reservation i (call c s).1.working ≡ some r) × (is_reserved r.status ≡ false)
unfolding call
closed_after i (Call.reserve _ _ _ _ _) s c h = elim c [ ]
closed_after i (Call.settle now k a p t) s same h = rw (← same) (settle_finds now k a p t s h)
closed_after i (Call.release now k) s same h = rw (← same) (release_finds now k s h)

closed_stays :
    (i : String) (c : Call) (s : Session) (r : BillingReservation)
    → Closes i c
    → reservation i s.working ≡ some r
    → is_reserved r.status ≡ false
    → call c s ≡ (ok r, s)
unfolding call
closed_stays i (Call.reserve _ _ _ _ _) s r c f e = elim c [ ]
closed_stays i (Call.settle now k a p t) s r same f e = settle_closed k s r (rw same f) e now a p t
closed_stays i (Call.release now k) s r same f e = release_closed k s r (rw same f) e now

-- Settling and releasing are final: once a settle or a release has returned a reservation, every
-- later settle or release of it returns that row and leaves the session as it is.
pub closing-final :
    (i : String) (first later : Call) (s : Session) {r : BillingReservation}
    → Closes i first
    → Closes i later
    → (call first s).0 ≡ ok r
    → call later (call first s).1 ≡ (ok r, (call first s).1)
closing-final i first later s {r = r} f l h =
    let (found, closed) = closed_after i first s f h in
    closed_stays i later (call first s).1 r l found closed
