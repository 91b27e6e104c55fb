-- ===== src/Metered.antt =====
-- The metered billing engine (app/services/metered_billing.py, `MeteredBillingService`).
pub mod Calls
pub mod Atomic
pub mod Moves
pub mod Keeps
pub mod Consistent
pub mod Conserved
pub mod Solvent
pub mod Trace
pub mod Idempotent
pub mod Outcomes
pub mod Reconcile
pub mod Expiry
mod Examples
use zyntry_backend.Prelude.{
  ℕ, ◌+◌, ◌*◌, String, Option, none, some, Bool, true, false, not, ◌&&◌, ◌||◌, List, [], ◌∷◌, ◌++◌,
  max, leb, ltb, ◌==◌, length, keep, map, sort, take, str_eq, str_append, if◌then◌else◌,
}
use zyntry_backend.Prelude.Int.{ℤ, pos, pos_part, ◌+ℤ◌, ◌-ℤ◌, ltb_ℤ, leb_ℤ, eqb_ℤ, sum_of}
use zyntry_backend.Money.{Decimal, of_money, money, sub}
use zyntry_backend.Rows.{
  Wallet, active, TransactionType, reversal, reservation as reservation_type, RowStatus, reserved,
  settled, released, Owner, BillingLedger, BillingReservation, Budget, status_name, is_active,
  is_reserved, is_settled,
}
use zyntry_backend.Session.{
  Db, Session, Error, value_error, insufficient_balance, integrity_error, no_result_found, Action,
  pure, raise, gets, or_raise, ◌>>=◌, ◌>>◌, raise_if, modify, commit, rollback_after,
  on_integrity_error, wallet, reservation, reservation_by_key, wallet_of_user, budget_of_user,
  ledger_row, is_some, put_wallet, put_reservation, put_budget, add_ledger,
}
use zyntry_backend.Limits.{Now, is_spending, check}

-- The row that `_wallet_for_update` adds for a user who has none.
abbrev pub new_wallet : String → String → Wallet
new_wallet new_id user_id = record {
  id = new_id;
  user_id = user_id;
  balance = pos 0;
  reserved_balance = pos 0;
  total_spent = pos 0;
  total_topups = pos 0;
  currency = "usd";
  status = active;
}

abbrev pub or_add_wallet : String → String → Option Wallet → Action Wallet
or_add_wallet new_id user_id (some w) = pure w
or_add_wallet new_id user_id none = do
  modify (λ db. record db { wallets = db.wallets ++ new_wallet new_id user_id ∷ [] })
  pure (new_wallet new_id user_id)

pub wallet_for_update : String → String → Action Wallet
wallet_for_update new_id user_id = do
  found ← gets (wallet_of_user user_id)
  or_add_wallet new_id user_id found

-- `_ledger`: the flush raises on a second row with the idempotency key.
unfoldable pub write_ledger : BillingLedger → Action (Unit {0})
write_ledger row = do
  taken ← gets (λ db. is_some (ledger_row row.idempotency_key db))
  raise_if taken integrity_error
  modify (add_ledger row)

-- The flush of the new reservation. `raced` is the database as a concurrent transaction left it that
-- committed a reservation with the same key after this one looked for it, where one did.
pub add_reservation : Option Db → BillingReservation → Action (Unit {0})
add_reservation raced row = do
  taken ← gets (λ db. is_some (reservation_by_key row.idempotency_key db))
  raise_if (taken || is_some raced) integrity_error
  modify (λ db. record db { reservations = db.reservations ++ row ∷ [] })

-- What the three ledger rows of a reservation have in common.
abbrev pub ledger_for : Now → BillingReservation → BillingLedger
ledger_for now r = record {
  transaction_type = reversal;
  owner = r.owner;
  request_id = some r.request_id;
  idempotency_key = str_append r.idempotency_key ":release";
  resource_type = "reservation";
  resource_id = some r.id;
  amount = pos 0;
  currency = r.currency;
  provider_cost = pos 0;
  platform_markup = pos 0;
  status = released;
  created_at = now.at;
}

pub record ReserveRequest : Type 0 where
  pub owner : Owner
  pub amount : Decimal
  pub request_id : String
  pub idempotency_key : String
  pub resource_type : String
  pub ttl_seconds : ℤ

abbrev pub insufficient_balance_error : ℤ → ℤ → Error
insufficient_balance_error required available =
    insufficient_balance (money (of_money required)) (money (of_money available))

abbrev pub new_reservation : ReserveRequest → Now → String → Wallet → BillingReservation
new_reservation req now new_id w = record {
  id = new_id;
  wallet_id = w.id;
  owner = req.owner;
  request_id = req.request_id;
  idempotency_key = req.idempotency_key;
  estimated_amount = money req.amount;
  settled_amount = none;
  released_amount = pos 0;
  currency = w.currency;
  status = reserved;
  resource_type = req.resource_type;
  expires_at = now.at + max 1 (pos_part req.ttl_seconds) * 1000000;
  created_at = now.at;
}

abbrev pub reservation_ledger : Now → BillingReservation → BillingLedger
reservation_ledger now r = record (ledger_for now r) {
  transaction_type = reservation_type;
  idempotency_key = str_append r.idempotency_key ":reservation";
  resource_type = r.resource_type;
  amount = r.estimated_amount;
  status = reserved;
}

-- `raise SpendingLimitError`, where the check finds one.
abbrev pub raise_some : Option Error → Action (Unit {0})
raise_some none = pure tt
raise_some (some e) = raise e

module _ (req : ReserveRequest) (now : Now) (new_id new_wallet_id : String)
    (raced : Option Db) where
  -- The `try` block: flush the wallet and the reservation, write the ledger, commit.
  pub record_reservation : Wallet → Action BillingReservation
  record_reservation w = do
    modify (
        put_wallet (record w {
          balance = w.balance -ℤ money req.amount;
          reserved_balance = w.reserved_balance +ℤ money req.amount;
        }))
    let row = new_reservation req now new_id w
    add_reservation raced row
    write_ledger (reservation_ledger now row)
    commit
    pure row

  -- `reserve` from the wallet on.
  pub reserve_on : Wallet → Action BillingReservation
  unfolding record_reservation
  reserve_on w = do
    raise_if (not (is_active w.status))
        (value_error (str_append "Wallet is " (status_name w.status)))
    raise_if (ltb_ℤ w.balance (money req.amount))
        (insufficient_balance_error (money req.amount) w.balance)
    on_integrity_error (record_reservation w) (do
      rollback_after raced
      existing ← gets (reservation_by_key req.idempotency_key)
      or_raise existing integrity_error)

  -- `reserve` for a key that is not taken.
  pub reserve_new : Action BillingReservation
  unfolding reserve_on wallet_for_update
  reserve_new = do
    refused ← gets (check (money req.amount) req.owner now none)
    raise_some refused
    w ← wallet_for_update new_wallet_id req.owner.user_id
    reserve_on w

  or_reserve_new : Option BillingReservation → Action BillingReservation
  or_reserve_new (some r) = pure r
  or_reserve_new none = reserve_new

  unfoldable pub reserve : Action BillingReservation
  unfolding or_reserve_new
  reserve = do
    raise_if (leb_ℤ (money req.amount) (pos 0)) (value_error "Reservation amount must be positive")
    existing ← gets (reservation_by_key req.idempotency_key)
    or_reserve_new existing

-- `settle` and `release` begin alike: the row, and nothing more unless it is still reserved.
abbrev pub if_reserved : BillingReservation → Action BillingReservation → Action BillingReservation
if_reserved r m = if is_reserved r.status then m else pure r

module _ (now : Now) (actual : ℤ) (provider_cost : Decimal)
    (transaction_type : TransactionType) where
  -- The branch for an execution that cost more than its estimate: the difference is reserved first.
  pub reserve_additional : BillingReservation → Wallet → Action (BillingReservation × Wallet)
  reserve_additional r w = do
    let additional = actual -ℤ r.estimated_amount
    refused ← gets (check additional r.owner now (some r.id))
    raise_some refused
    raise_if (ltb_ℤ w.balance additional)
        (insufficient_balance_error actual (w.balance +ℤ r.estimated_amount))
    pure (
      record r { estimated_amount = r.estimated_amount +ℤ additional },
      record w {
        balance = w.balance -ℤ additional;
        reserved_balance = w.reserved_balance +ℤ additional;
      },
    )

  -- `budget.current_spend += actual`, and the flag when the limit is reached.
  unfoldable pub spend_budget : Budget → Budget
  spend_budget b =
      let spend = b.current_spend +ℤ actual in
      record b {
        current_spend = spend;
        limit_reached =
            b.limit_reached
            || elim b.monthly_limit [ none ↦ false | some limit ↦ leb_ℤ limit spend ];
      }

  abbrev pub charge_budget : Option Budget → Action (Unit {0})
  charge_budget none = pure tt
  charge_budget (some b) = modify (put_budget (spend_budget b))

  abbrev pub settled_ledger : BillingReservation → BillingLedger
  settled_ledger r = record (ledger_for now r) {
    transaction_type = transaction_type;
    idempotency_key = str_append r.idempotency_key ":settled";
    resource_type = r.resource_type;
    amount = actual;
    provider_cost = money provider_cost;
    platform_markup = money (sub (of_money actual) provider_cost);
    status = settled;
  }

  -- The ledger row for what is given back, if anything is.
  abbrev pub write_release : ℤ → BillingReservation → Action (Unit {0})
  write_release release r =
      if ltb_ℤ (pos 0) release
      then write_ledger (record (ledger_for now r) { amount = release })
      else pure tt

  -- The rest of `settle`, once the reservation covers the actual amount.
  pub finish_settle : BillingReservation × Wallet → Action BillingReservation
  finish_settle (r, w) = do
    let release = r.estimated_amount -ℤ actual
    modify (
        put_wallet (record w {
          balance = w.balance +ℤ release;
          reserved_balance = w.reserved_balance -ℤ r.estimated_amount;
          total_spent = w.total_spent +ℤ actual;
        }))
    budget ← gets (budget_of_user r.owner.user_id)
    charge_budget budget
    let done = record r {
      settled_amount = some actual;
      released_amount = release;
      status = settled;
    }
    modify (put_reservation done)
    write_ledger (settled_ledger r)
    write_release release r
    commit
    pure done

  cover : BillingReservation → Wallet → Action (BillingReservation × Wallet)
  cover r w = if ltb_ℤ r.estimated_amount actual then reserve_additional r w else pure (r, w)

  pub settle_reserved : BillingReservation → Action BillingReservation
  unfolding cover finish_settle reserve_additional
  settle_reserved r = do
    raise_if (ltb_ℤ actual (pos 0)) (value_error "Actual amount cannot be negative")
    w ← or_raise (← gets (wallet r.wallet_id)) no_result_found
    covered ← cover r w
    finish_settle covered

unfoldable pub settle :
    Now → String → Decimal → Decimal → TransactionType → Action BillingReservation
unfolding settle_reserved
settle now reservation_id actual_amount provider_cost transaction_type = do
  r ← or_raise (← gets (reservation reservation_id)) no_result_found
  if_reserved r (settle_reserved now (money actual_amount) provider_cost transaction_type r)

pub release_reserved : Now → BillingReservation → Action BillingReservation
unfolding write_ledger
release_reserved now r = do
  w ← or_raise (← gets (wallet r.wallet_id)) no_result_found
  modify (
      put_wallet (record w {
        balance = w.balance +ℤ r.estimated_amount;
        reserved_balance = w.reserved_balance -ℤ r.estimated_amount;
      }))
  let done = record r { released_amount = r.estimated_amount; status = released }
  modify (put_reservation done)
  write_ledger (record (ledger_for now r) { amount = r.estimated_amount })
  commit
  pure done

unfoldable pub release : Now → String → Action BillingReservation
unfolding release_reserved
release now reservation_id = do
  r ← or_raise (← gets (reservation reservation_id)) no_result_found
  if_reserved r (release_reserved now r)

-- The select of `expire_reservations`.
abbrev pub is_expired : ℕ → BillingReservation → Bool
is_expired at r = is_reserved r.status && leb r.expires_at at

unfoldable pub expired_ids : ℕ → ℕ → Db → List String
expired_ids limit at db =
    map (λ r. r.id)
      (take limit
        (sort (λ r s. ltb r.expires_at s.expires_at) (keep (is_expired at) db.reservations)))

release_all : Now → ℕ → List String → Action ℕ
release_all now released_count [] = pure released_count
release_all now released_count (i ∷ ids) = do
  release now i
  release_all now (released_count + 1) ids

unfoldable pub expire_reservations : Now → ℕ → Action ℕ
unfolding release_all expired_ids
expire_reservations now limit = do ids ← gets (expired_ids limit now.at); release_all now 0 ids

pub data Mismatch : Type 0 where
  reserved_balance total_spent negative_balance expired_reservations : Mismatch

pub record Reconciliation : Type 0 where
  pub ok : Bool
  pub wallet_id : Option String
  pub mismatches : List Mismatch

abbrev pub when : Bool → Mismatch → List Mismatch
when true m = m ∷ []
when false m = []

abbrev pub is_settled_spend : String → BillingLedger → Bool
is_settled_spend user_id l =
    str_eq l.owner.user_id user_id && is_settled l.status && is_spending l.transaction_type

unfoldable pub settled_spend : String → Db → ℤ
settled_spend user_id db = sum_of (λ l. l.amount) (keep (is_settled_spend user_id) db.ledger)

-- `reserved` of `reconcile_wallet`: the reservations that are open against a wallet.
unfoldable pub held : String → List BillingReservation → ℤ
held wallet_id rows =
    sum_of (λ r. r.estimated_amount)
      (keep (λ r. str_eq r.wallet_id wallet_id && is_reserved r.status) rows)

abbrev pub is_empty : List Mismatch → Bool
is_empty [] = true
is_empty (m ∷ ms) = false

-- `money` leaves the amounts that are compared here as they are.
unfoldable pub reconcile_wallet : Now → String → Db → Reconciliation
unfolding settled_spend held
reconcile_wallet now user_id db = elim (wallet_of_user user_id db) [
  | none ↦ record { ok = true; wallet_id = none; mismatches = [] }
  | some w ↦
      let ms =
        when (not (eqb_ℤ w.reserved_balance (held w.id db.reservations))) reserved_balance
        ++ when (ltb_ℤ w.total_spent (settled_spend user_id db)) total_spent
        ++ when (ltb_ℤ w.balance (pos 0) || ltb_ℤ w.reserved_balance (pos 0)) negative_balance
        ++ when
            (not (
              length (keep (λ r. str_eq r.wallet_id w.id && is_expired now.at r) db.reservations)
              == 0))
            expired_reservations in
      record { ok = is_empty ms; wallet_id = some w.id; mismatches = ms }
]
