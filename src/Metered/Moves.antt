-- ===== src/Metered/Moves.antt =====
-- The three ways in which the engine writes to the wallets and reservations, and what a property of
-- the two tables needs to be kept by all of them.
use zyntry_backend.Prelude.{String, ◌≡◌, refl, Option, none, some, true, false, List, [], ◌∷◌, ◌++◌}
use zyntry_backend.Prelude.Int.{ℤ, pos, ◌+ℤ◌, ◌-ℤ◌, ◌≤ℤ◌, ◌<ℤ◌, ltb_ℤ, int_laws}
use zyntry_backend.Rows.{Wallet, BillingReservation, is_reserved, settled, released}
use zyntry_backend.Tables.{lookup, replace}
use zyntry_backend.Tables.Unique.{Unique}
use zyntry_backend.Metered.{new_wallet}

abbrev pub wallet_in : String → List Wallet → Option Wallet
wallet_in = lookup (λ w. w.id)

abbrev pub reservation_in : String → List BillingReservation → Option BillingReservation
reservation_in = lookup (λ r. r.id)

abbrev pub put_wallet_in : Wallet → List Wallet → List Wallet
put_wallet_in = replace (λ w. w.id)

abbrev pub put_reservation_in :
    BillingReservation → List BillingReservation → List BillingReservation
put_reservation_in = replace (λ r. r.id)

-- A reservation `r` takes its amount from the balance of its wallet.
pub record Opening (w w' : Wallet) (r : BillingReservation) : Type 0 where
  pub same : w'.id ≡ w.id
  pub owns : r.wallet_id ≡ w.id
  pub is_open : is_reserved r.status ≡ true
  pub positive : pos 0 <ℤ r.estimated_amount
  pub balance : w'.balance ≡ w.balance -ℤ r.estimated_amount
  pub stays_nonneg : pos 0 ≤ℤ w'.balance
  pub reserved : w'.reserved_balance ≡ w.reserved_balance +ℤ r.estimated_amount
  pub spent : w'.total_spent ≡ w.total_spent

-- An open reservation `r` becomes `r'`, and its amount goes to the balance or is spent.
pub record Closing (w w' : Wallet) (r r' : BillingReservation) : Type 0 where
  pub same : w'.id ≡ w.id
  pub same_row : r'.id ≡ r.id
  pub owns : r'.wallet_id ≡ r.wallet_id
  pub was_open : is_reserved r.status ≡ true
  pub is_closed : is_reserved r'.status ≡ false
  pub reserved : w'.reserved_balance ≡ w.reserved_balance -ℤ r.estimated_amount
  pub conserved : w'.balance +ℤ w'.total_spent ≡ w.balance +ℤ r.estimated_amount +ℤ w.total_spent
  pub stays_nonneg : pos 0 ≤ℤ w.balance → pos 0 ≤ℤ r.estimated_amount → pos 0 ≤ℤ w'.balance
  pub amount_nonneg : pos 0 ≤ℤ r.estimated_amount → pos 0 ≤ℤ r'.estimated_amount

pub record IsKept (P : List Wallet → List BillingReservation → Type 0) : Type 0 where
  pub ids : (ws : List Wallet) (rs : List BillingReservation) → P ws rs → Unique (λ w. w.id) ws
  pub adds :
      (ws : List Wallet) (rs : List BillingReservation) (i u : String)
      → P ws rs
      → wallet_in i ws ≡ none
      → P (ws ++ new_wallet i u ∷ []) rs
  pub opens :
      (ws : List Wallet) (rs : List BillingReservation) (w w' : Wallet) (r : BillingReservation)
      → P ws rs
      → wallet_in w.id ws ≡ some w
      → reservation_in r.id rs ≡ none
      → Opening w w' r
      → P (put_wallet_in w' ws) (rs ++ r ∷ [])
  pub closes :
      (ws : List Wallet) (rs : List BillingReservation) (w w' : Wallet) (r r' : BillingReservation)
      → P ws rs
      → wallet_in r.wallet_id ws ≡ some w
      → reservation_in r.id rs ≡ some r
      → Closing w w' r r'
      → P (put_wallet_in w' ws) (put_reservation_in r' rs)

-- The rows that `release` leaves.
abbrev pub released_wallet : BillingReservation → Wallet → Wallet
released_wallet r w = record w {
  balance = w.balance +ℤ r.estimated_amount;
  reserved_balance = w.reserved_balance -ℤ r.estimated_amount;
}

abbrev pub released_row : BillingReservation → BillingReservation
released_row r = record r { released_amount = r.estimated_amount; status = released }

pub release-Closing :
    (r : BillingReservation) (w : Wallet)
    → is_reserved r.status ≡ true
    → Closing w (released_wallet r w) r (released_row r)
release-Closing r w is_open = record {
  same = refl;
  same_row = refl;
  owns = refl;
  was_open = is_open;
  is_closed = refl;
  reserved = refl;
  conserved = omega int_laws;
  stays_nonneg = omega int_laws;
  amount_nonneg = λ h. h;
}

-- The rows that `settle` leaves at an actual amount, with or without an additional reservation.
module _ (a : ℤ) (r : BillingReservation) (w : Wallet) where
  abbrev pub settled_wallet : Wallet
  settled_wallet = record w {
    balance = w.balance +ℤ (r.estimated_amount -ℤ a);
    reserved_balance = w.reserved_balance -ℤ r.estimated_amount;
    total_spent = w.total_spent +ℤ a;
  }

  abbrev pub more_wallet : Wallet
  more_wallet = record w {
    balance = w.balance -ℤ (a -ℤ r.estimated_amount);
    reserved_balance = w.reserved_balance +ℤ (a -ℤ r.estimated_amount);
  }

abbrev pub settled_row : ℤ → BillingReservation → BillingReservation
settled_row a r = record r {
  settled_amount = some a;
  released_amount = r.estimated_amount -ℤ a;
  status = settled;
}

abbrev pub more_row : ℤ → BillingReservation → BillingReservation
more_row a r = record r { estimated_amount = r.estimated_amount +ℤ (a -ℤ r.estimated_amount) }

pub settle-Closing :
    (a : ℤ) (r : BillingReservation) (w : Wallet)
    → is_reserved r.status ≡ true
    → ltb_ℤ r.estimated_amount a ≡ false
    → Closing w (settled_wallet a r w) r (settled_row a r)
settle-Closing a r w is_open covered = record {
  same = refl;
  same_row = refl;
  owns = refl;
  was_open = is_open;
  is_closed = refl;
  reserved = refl;
  conserved = omega int_laws;
  stays_nonneg = λ h k. grind (int_laws, covered);
  amount_nonneg = λ h. h;
}

pub settle_more-Closing :
    (a : ℤ) (r : BillingReservation) (w : Wallet)
    → is_reserved r.status ≡ true
    → ltb_ℤ a (pos 0) ≡ false
    → ltb_ℤ w.balance (a -ℤ r.estimated_amount) ≡ false
    → Closing w
        (settled_wallet a (more_row a r) (more_wallet a r w))
        r
        (settled_row a (more_row a r))
settle_more-Closing a r w is_open nonneg covered = record {
  same = refl;
  same_row = refl;
  owns = refl;
  was_open = is_open;
  is_closed = refl;
  reserved = omega int_laws;
  conserved = omega int_laws;
  stays_nonneg = λ h k. grind int_laws;
  amount_nonneg = λ h. grind int_laws;
}
