-- ===== src/Metered/Keeps.antt =====
-- A property of the wallets and reservations that the three moves keep is kept by every call of the
-- engine, in the session and as committed.
use zyntry_backend.Prelude.{
  String, ◌≡◌, refl, Option, none, some, true, false, inl, inr, List, [], ◌∷◌, ◌++◌, arith, str_eq,
  eq_iff, Option-cases,
}
use zyntry_backend.Prelude.Int.{ℤ, pos, ◌+ℤ◌, ◌-ℤ◌, ltb_ℤ, leb_ℤ, int_laws}
use zyntry_backend.Money.{Decimal, money}
use zyntry_backend.Rows.{Wallet, BillingReservation, TransactionType, is_reserved}
use zyntry_backend.Session.{Db, Session, wallet, reservation, wallet_of_user}
use zyntry_backend.Tables.{lookup, key_of_lookup, lookup-append}
use zyntry_backend.Tables.Unique.{lookup_of_find}
use zyntry_backend.Limits.{Now}
use zyntry_backend.Metered.{
  ReserveRequest, new_wallet, new_reservation, add_reservation, write_ledger, record_reservation,
  reserve_on, reserve_new, reserve, release, settle, settle_reserved,
}
use zyntry_backend.Metered.Moves.{
  Opening, IsKept, wallet_in, reservation_in, put_wallet_in, put_reservation_in, released_wallet,
  released_row, release-Closing, settled_wallet, settled_row, more_wallet, more_row, settle-Closing,
  settle_more-Closing,
}

module _ (P : List Wallet → List BillingReservation → Type 0) where
  pub record Holds (s : Session) : Type 0 where
    pub working : P s.working.wallets s.working.reservations
    pub committed : P s.committed.wallets s.committed.reservations

  -- What a concurrent transaction left has the property too.
  abbrev pub RacedHolds : Option Db → Type 0
  RacedHolds none = Unit
  RacedHolds (some db) = P db.wallets db.reservations

module _ {P : List Wallet → List BillingReservation → Type 0} (k : IsKept P) where
  module _ (ws : List Wallet) (rs : List BillingReservation) (r : BillingReservation)
      (w : Wallet) where
    release_keeps :
        P ws rs
        → wallet_in r.wallet_id ws ≡ some w
        → reservation_in r.id rs ≡ some r
        → is_reserved r.status ≡ true
        → P (put_wallet_in (released_wallet r w) ws) (put_reservation_in (released_row r) rs)
    release_keeps p found row is_open =
        k.closes ws rs w (released_wallet r w) r (released_row r) p found row
          (release-Closing r w is_open)

    settle_keeps :
        (a : ℤ)
        → P ws rs
        → wallet_in r.wallet_id ws ≡ some w
        → reservation_in r.id rs ≡ some r
        → is_reserved r.status ≡ true
        → ltb_ℤ r.estimated_amount a ≡ false
        → P (put_wallet_in (settled_wallet a r w) ws) (put_reservation_in (settled_row a r) rs)
    settle_keeps a p found row is_open covered =
        k.closes ws rs w (settled_wallet a r w) r (settled_row a r) p found row
          (settle-Closing a r w is_open covered)

    settle_more_keeps :
        (a : ℤ)
        → P ws rs
        → wallet_in r.wallet_id ws ≡ some w
        → reservation_in r.id rs ≡ some r
        → is_reserved r.status ≡ true
        → ltb_ℤ a (pos 0) ≡ false
        → ltb_ℤ w.balance (a -ℤ r.estimated_amount) ≡ false
        → P
            (put_wallet_in (settled_wallet a (more_row a r) (more_wallet a r w)) ws)
            (put_reservation_in (settled_row a (more_row a r)) rs)
    settle_more_keeps a p found row is_open nonneg covered =
        k.closes ws rs w (settled_wallet a (more_row a r) (more_wallet a r w)) r
          (settled_row a (more_row a r)) p found row
          (settle_more-Closing a r w is_open nonneg covered)

  user_wallet-found :
      (ws : List Wallet) (rs : List BillingReservation) (u : String) (w : Wallet)
      → P ws rs
      → lookup (λ x. x.user_id) u ws ≡ some w
      → wallet_in w.id ws ≡ some w
  user_wallet-found ws rs u w p h =
      lookup_of_find (λ x. x.id) (λ x. str_eq x.user_id u) ws (k.ids ws rs p) h

  row-found :
      (i : String) (rs : List BillingReservation) (r : BillingReservation)
      → reservation_in i rs ≡ some r
      → reservation_in r.id rs ≡ some r
  row-found i rs r h = simp (key_of_lookup (λ x. x.id) i rs h) h

  pub release-Holds :
      (now : Now) (i : String) (s : Session) → Holds P s → Holds P (release now i s).1
  unfolding release write_ledger
  release-Holds now i s c = elim (Option-cases (reservation i s.working)) [
    | inl missing ↦ ground arith
    | inr (r, found) ↦ elim (Option-cases (wallet r.wallet_id s.working)) [
      | inl missing ↦ ground arith
      | inr (w, owner) ↦ ground (
        arith,
        release_keeps s.working.wallets s.working.reservations r w,
        row-found i s.working.reservations r,
      )
    ]
  ]

  settle_reserved-Holds :
      (now : Now) (a : ℤ) (p : Decimal) (t : TransactionType) (r : BillingReservation) (s : Session)
      → Holds P s
      → reservation_in r.id s.working.reservations ≡ some r
      → is_reserved r.status ≡ true
      → Holds P (settle_reserved now a p t r s).1
  unfolding settle_reserved write_ledger
  settle_reserved-Holds now a p t r s c found is_open =
      elim (Option-cases (wallet r.wallet_id s.working)) [
        | inl missing ↦ ground arith
        | inr (w, owner) ↦ ground (
          arith,
          settle_keeps s.working.wallets s.working.reservations r w a,
          settle_more_keeps s.working.wallets s.working.reservations r w a,
        )
      ]

  pub settle-Holds :
      (now : Now) (i : String) (a p : Decimal) (t : TransactionType) (s : Session)
      → Holds P s
      → Holds P (settle now i a p t s).1
  unfolding settle
  settle-Holds now i a p t s c = elim (Option-cases (reservation i s.working)) [
    | inl missing ↦ ground arith
    | inr (r, found) ↦ ground (
      arith,
      settle_reserved-Holds now (money a) p t r s c (row-found i s.working.reservations r found),
    )
  ]

  module _ (req : ReserveRequest) (now : Now) (i j : String) (raced : Option Db) where
    charged : Wallet → Wallet
    charged w = record w {
      balance = w.balance -ℤ money req.amount;
      reserved_balance = w.reserved_balance +ℤ money req.amount;
    }

    reserve-Opening :
        (w : Wallet)
        → leb_ℤ (money req.amount) (pos 0) ≡ false
        → ltb_ℤ w.balance (money req.amount) ≡ false
        → Opening w (charged w) (new_reservation req now i w)
    unfolding charged
    reserve-Opening w positive covered = record {
      same = refl;
      owns = refl;
      is_open = refl;
      positive = ground arith;
      balance = refl;
      stays_nonneg = grind int_laws;
      reserved = refl;
      spent = refl;
    }

    reserve_keeps :
        (ws : List Wallet) (rs : List BillingReservation) (w : Wallet)
        → P ws rs
        → wallet_in w.id ws ≡ some w
        → reservation_in i rs ≡ none
        → leb_ℤ (money req.amount) (pos 0) ≡ false
        → ltb_ℤ w.balance (money req.amount) ≡ false
        → P (put_wallet_in (charged w) ws) (rs ++ new_reservation req now i w ∷ [])
    reserve_keeps ws rs w p found fresh positive covered =
        k.opens ws rs w (charged w) (new_reservation req now i w) p found fresh
          (reserve-Opening w positive covered)

    module _ (race : RacedHolds P raced) (positive : leb_ℤ (money req.amount) (pos 0) ≡ false) where
      reserve_on-Holds :
          (w : Wallet) (s : Session)
          → Holds P s
          → wallet_in w.id s.working.wallets ≡ some w
          → reservation_in i s.working.reservations ≡ none
          → Holds P (reserve_on req now i j raced w s).1
      unfolding reserve_on record_reservation add_reservation write_ledger charged
      reserve_on-Holds w s c found fresh =
          ground (arith, reserve_keeps s.working.wallets s.working.reservations w)

      reserve_new-Holds :
          (s : Session)
          → Holds P s
          → wallet_in j s.working.wallets ≡ none
          → reservation_in i s.working.reservations ≡ none
          → Holds P (reserve_new req now i j raced s).1
      unfolding reserve_new
      reserve_new-Holds s c wfresh fresh =
          elim (Option-cases (wallet_of_user req.owner.user_id s.working)) [
            | inl missing ↦ ground (
              arith,
              k.adds s.working.wallets s.working.reservations j req.owner.user_id,
              reserve_on-Holds (new_wallet j req.owner.user_id) (record s {
                working = record s.working {
                  wallets = s.working.wallets ++ new_wallet j req.owner.user_id ∷ [];
                };
              }),
              lookup-append (λ x. x.id) j s.working.wallets (new_wallet j req.owner.user_id ∷ []),
              eq_iff j j,
            )
            | inr (w, found) ↦ ground (
              arith,
              reserve_on-Holds w s c,
              user_wallet-found s.working.wallets s.working.reservations req.owner.user_id w,
            )
          ]

    pub reserve-Holds :
        (s : Session)
        → RacedHolds P raced
        → Holds P s
        → wallet_in j s.working.wallets ≡ none
        → reservation_in i s.working.reservations ≡ none
        → Holds P (reserve req now i j raced s).1
    unfolding reserve
    reserve-Holds s race c wfresh fresh = ground (
      arith,
      λ (p : leb_ℤ (money req.amount) (pos 0) ≡ false). reserve_new-Holds race p s c wfresh fresh,
    )
