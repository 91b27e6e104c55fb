-- ===== src/Session.antt =====
-- The database session (SQLAlchemy's `AsyncSession`, which the services share) and what a service
-- call is: an action that reads and writes the session and returns or raises.
use zyntry_backend.Prelude.{
  String, Bool, true, false, Option, none, some, List, [], ◌∷◌, ◌++◌, if◌then◌else◌, ◌≡◌, refl, ◌⊎◌,
  inl, inr,
}
use zyntry_backend.Prelude.Int.{ℤ}
use zyntry_backend.Rows.{
  Wallet, WalletTransaction, PricingRule, Budget, BillingLedger, BillingReservation, SpendingLimit,
  Notification,
}
use zyntry_backend.Tables.{lookup, replace}

pub record Db : Type 0 where
  pub wallets : List Wallet
  pub wallet_transactions : List WalletTransaction
  pub reservations : List BillingReservation
  pub ledger : List BillingLedger
  pub budgets : List Budget
  pub limits : List SpendingLimit
  pub pricing_rules : List PricingRule
  pub notifications : List Notification

-- `working` is what this session's queries see: its own flushed writes over what is committed.
pub record Session : Type 0 where
  pub committed : Db
  pub working : Db

-- The exceptions that the billing services raise or let through.
pub data Error : Type 0 where
  value_error : String → Error
  runtime_error : String → Error
  insufficient_balance : ℤ → ℤ → Error
  insufficient_credits : ℤ → ℤ → Error
  spending_limit : String → ℤ → ℤ → Error
  integrity_error : Error
  no_result_found multiple_results_found : Error

pub data Result (A : Type 0) : Type 0 where
  ok : A → Result A
  err : Error → Result A

pub Result-cases :
    {A : Type 0} (r : Result A) → ((a : A) × (r ≡ ok a)) ⊎ ((e : Error) × (r ≡ err e))
Result-cases (ok a) = inl (a, refl)
Result-cases (err e) = inr (e, refl)

-- The session comes back after a raise too: what was flushed before it stays in the transaction.
abbrev pub Action : Type 0 → Type 0
Action A = Session → Result A × Session

module _ {A : Type 0} where
  abbrev pub pure : A → Action A
  pure a s = (ok a, s)

  abbrev pub raise : Error → Action A
  raise e s = (err e, s)

  -- A query.
  abbrev pub gets : (Db → A) → Action A
  gets f s = (ok (f s.working), s)

  -- `scalar_one()`.
  abbrev pub or_raise : Option A → Error → Action A
  or_raise none e = raise e
  or_raise (some a) e = pure a

infixl 5 ◌>>=◌ ◌>>◌
abbrev pub ◌>>=◌ : {A B : Type 0} → Action A → (A → Action B) → Action B
◌>>=◌ m f s = let (r, s') = m s in elim r [ ok a ↦ f a s' | err e ↦ raise e s' ]

abbrev pub ◌>>◌ : {A B : Type 0} → Action A → Action B → Action B
m >> k = m >>= λ _. k

abbrev pub raise_if : Bool → Error → Action (Unit {0})
raise_if c e s = (if c then err e else ok tt, s)

abbrev pub modify : (Db → Db) → Action (Unit {0})
modify f s = (ok tt, record s { working = f s.working })

-- `session.commit()`.
abbrev pub commit : Action (Unit {0})
commit s = (ok tt, record s { committed = s.working })

-- `session.rollback()`.
abbrev pub rollback : Action (Unit {0})
rollback s = (ok tt, record s { working = s.committed })

-- The same after a conflict with another transaction, if there was one: what it committed is seen.
abbrev pub rollback_after : Option Db → Action (Unit {0})
rollback_after none s = (ok tt, record s { working = s.committed })
rollback_after (some db) s = (ok tt, record { committed = db; working = db })

-- `except IntegrityError:`.
abbrev pub on_integrity_error : {A : Type 0} → Action A → Action A → Action A
on_integrity_error m h s =
    let (r, s') = m s in
    elim r [
      | ok a ↦ (ok a, s')
      | err e ↦ elim e [ integrity_error ↦ h s' | other ↦ (err other, s') ]
    ]

-- The rows of one table, by its primary key.
abbrev pub wallet : String → Db → Option Wallet
wallet i db = lookup (λ w. w.id) i db.wallets

abbrev pub reservation : String → Db → Option BillingReservation
reservation i db = lookup (λ r. r.id) i db.reservations

abbrev pub reservation_by_key : String → Db → Option BillingReservation
reservation_by_key k db = lookup (λ r. r.idempotency_key) k db.reservations

abbrev pub wallet_of_user : String → Db → Option Wallet
wallet_of_user u db = lookup (λ w. w.user_id) u db.wallets

abbrev pub budget_of_user : String → Db → Option Budget
budget_of_user u db = lookup (λ b. b.user_id) u db.budgets

abbrev pub ledger_row : String → Db → Option BillingLedger
ledger_row k db = lookup (λ l. l.idempotency_key) k db.ledger

abbrev pub transaction : String → Db → Option WalletTransaction
transaction i db = lookup (λ t. t.id) i db.wallet_transactions

abbrev pub is_some : {A : Type 0} → Option A → Bool
is_some none = false
is_some (some a) = true

abbrev pub put_wallet : Wallet → Db → Db
put_wallet w db = record db { wallets = replace (λ x. x.id) w db.wallets }

abbrev pub put_reservation : BillingReservation → Db → Db
put_reservation r db = record db { reservations = replace (λ x. x.id) r db.reservations }

abbrev pub put_budget : Budget → Db → Db
put_budget b db = record db { budgets = replace (λ x. x.id) b db.budgets }

abbrev pub add_ledger : BillingLedger → Db → Db
add_ledger l db = record db { ledger = db.ledger ++ l ∷ [] }
