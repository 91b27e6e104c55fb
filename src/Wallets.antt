-- ===== src/Wallets.antt =====
-- Wallets and budgets (app/services/billing.py, `BillingService`). Amounts are in the quantum of the
-- columns. What leaves the database (the mail task, the top-up task) is not modelled; the
-- notification of a budget commits the session, as `NotificationService.create` does.
pub mod Credits
pub mod Movements
pub mod Refunds
pub mod References
pub mod Budgets
pub mod Operations
mod Examples
use zyntry_backend.Prelude.{
  ℕ, String, Option, none, some, Bool, true, false, not, ◌&&◌, ◌||◌, List, [], ◌∷◌, ◌++◌, find,
  keep, length, ltb, str_eq, str_append, if◌then◌else◌,
}
use zyntry_backend.Prelude.Int.{ℤ, pos, ◌+ℤ◌, ◌-ℤ◌, ◌*ℤ◌, ltb_ℤ, leb_ℤ, max_ℤ}
use zyntry_backend.Money.{Decimal}
use zyntry_backend.Rows.{
  Wallet, active, WalletTransaction, TransactionType, credit, debit, refund, topup, ai_inference,
  reversal, RowStatus, settled, Owner, BillingLedger, BillingReservation, Budget, Notification,
  is_active, is_settled, status_name,
}
use zyntry_backend.Session.{
  Db, Session, Error, value_error, runtime_error, insufficient_credits, integrity_error,
  no_result_found, multiple_results_found, Action, pure, raise, gets, or_raise, ◌>>=◌, ◌>>◌,
  raise_if, modify, commit, rollback_after, on_integrity_error, wallet, wallet_of_user,
  budget_of_user, transaction, is_some, put_wallet, put_budget,
}
use zyntry_backend.Limits.{Now}
use zyntry_backend.Metered.{ReserveRequest, new_wallet, write_ledger, reserve, settle}

-- What a call is given from outside: the time, the ids of its new rows, and the database as a
-- concurrent transaction left it that created the user's wallet meanwhile, if one did.
pub record Fresh : Type 0 where
  pub now : Now
  pub wallet_id : String
  pub transaction_id : String
  pub raced : Option Db

-- `get_wallet` and `create_wallet` for a user who has no wallet.
pub add_wallet : Fresh → String → Error → Action Wallet
add_wallet f user_id lost =
    on_integrity_error
      (do
        raise_if (is_some f.raced) integrity_error
        modify (λ db. record db { wallets = db.wallets ++ new_wallet f.wallet_id user_id ∷ [] })
        commit
        pure (new_wallet f.wallet_id user_id))
      (do rollback_after f.raced; found ← gets (wallet_of_user user_id); or_raise found lost)

abbrev pub or_add : Fresh → String → Error → Option Wallet → Action Wallet
or_add f user_id lost (some w) = pure w
or_add f user_id lost none = add_wallet f user_id lost

pub get_wallet : Fresh → String → Action Wallet
unfolding add_wallet
get_wallet f user_id = do
  found ← gets (wallet_of_user user_id)
  or_add f user_id integrity_error found

unfoldable pub create_wallet : Fresh → String → Action Wallet
unfolding add_wallet
create_wallet f user_id = do
  found ← gets (wallet_of_user user_id)
  or_add f user_id (runtime_error "Wallet creation conflicted but no wallet was found") found

-- `if reference_id:`, where the empty text counts as none.
abbrev pub given : Option String → Option String
given none = none
given (some t) = if str_eq t "" then none else some t

-- The select of a reference, where one is given.
abbrev pub has_reference : String → WalletTransaction → Bool
has_reference ref t = elim t.reference_id [ none ↦ false | some r ↦ str_eq r ref ]

unfoldable pub by_reference : Option String → Db → Option WalletTransaction
by_reference none db = none
by_reference (some ref) db = find (has_reference ref) db.wallet_transactions

unfoldable pub is_ambiguous : Option String → Db → Bool
is_ambiguous none db = false
is_ambiguous (some ref) db = ltb 1 (length (keep (has_reference ref) db.wallet_transactions))

-- `get_by_reference`, where `scalar_one_or_none` raises on several rows.
abbrev pub get_by_reference : Option String → Action (Option WalletTransaction)
get_by_reference reference = do
  raise_if (← gets (is_ambiguous reference)) multiple_results_found
  gets (by_reference reference)

-- The idempotency key of the ledger row of a credit or a debit.
abbrev pub ledger_key : String → Option String → String → String
ledger_key prefix reference id = elim (given reference) [
  | none ↦ str_append prefix id
  | some r ↦ str_append prefix r
]

abbrev pub user_owner : String → Owner
user_owner u = record {
  user_id = u;
  organization_id = none;
  project_id = none;
  runtime_id = none;
  api_key_id = none;
}

abbrev pub add_transaction : WalletTransaction → Db → Db
add_transaction t db = record db { wallet_transactions = db.wallet_transactions ++ t ∷ [] }

pub data BudgetEvent : Type 0 where
  limit_reached warning_90 warning_80 : BudgetEvent

abbrev pub notification_of : String → BudgetEvent → Notification
notification_of u limit_reached = record {
  user_id = u;
  type = "usage.limit.reached";
  title = "Budget Limit Reached";
}
notification_of u warning_90 = record {
  user_id = u;
  type = "credits.low";
  title = "Budget Warning: 90% Used";
}
notification_of u warning_80 = record {
  user_id = u;
  type = "credits.low";
  title = "Budget Warning: 80% Used";
}

-- `_send_budget_notification`: `NotificationService.create` adds the row and commits the session.
pub send_budget_notification : String → BudgetEvent → Action (Unit {0})
send_budget_notification u event = do
  modify (λ db. record db { notifications = db.notifications ++ notification_of u event ∷ [] })
  commit

-- `spend >= limit * Decimal("0.9")`, and the like for 8.
abbrev pub reaches_tenths : ℕ → ℤ → ℤ → Bool
reaches_tenths n limit spend = leb_ℤ (pos n *ℤ limit) (pos 10 *ℤ spend)

-- The `if`/`elif` chain of `_update_budget_spend`: the event, and the budget with its flag.
unfoldable pub spend_event : ℤ → Budget → Option (BudgetEvent × Budget)
spend_event limit b =
    if leb_ℤ limit b.current_spend && not b.limit_reached
    then some (limit_reached, record b { limit_reached = true })
    else if reaches_tenths 9 limit b.current_spend && not b.warning_90_sent
    then some (warning_90, record b { warning_90_sent = true })
    else if reaches_tenths 8 limit b.current_spend && not b.warning_80_sent
    then some (warning_80, record b { warning_80_sent = true })
    else none

abbrev pub announce : String → Option (BudgetEvent × Budget) → Action (Unit {0})
announce u none = pure tt
announce u (some (event, b)) = modify (put_budget b) >> send_budget_notification u event

abbrev pub spend_on : String → ℤ → Option Budget → Action (Unit {0})
spend_on u amount none = pure tt
spend_on u amount (some b) = elim b.monthly_limit [
  | none ↦ pure tt
  | some limit ↦
      let spent = record b { current_spend = b.current_spend +ℤ amount } in
      modify (put_budget spent) >> announce u (spend_event limit spent)
]

pub update_budget_spend : String → ℤ → Action (Unit {0})
unfolding send_budget_notification spend_event
update_budget_spend u amount = do budget ← gets (budget_of_user u); spend_on u amount budget

-- `if budget and budget.limit_reached and balance_after > 0: update(...)`.
abbrev pub lift_limit : (Budget → ℤ) → ℤ → Option Budget → Action (Unit {0})
lift_limit spend balance none = pure tt
lift_limit spend balance (some b) =
    if b.limit_reached && ltb_ℤ (pos 0) balance
    then modify (put_budget (record b { limit_reached = false; current_spend = spend b }))
    else pure tt

pub record WalletRequest : Type 0 where
  pub user_id : String
  pub amount : ℤ
  pub reason : String
  pub reference_id : Option String

abbrev pub settled_row : Now → String → Wallet → TransactionType → ℤ → BillingLedger
settled_row now u w type amount = record {
  transaction_type = type;
  owner = user_owner u;
  request_id = none;
  idempotency_key = "";
  resource_type = "";
  resource_id = none;
  amount = amount;
  currency = w.currency;
  provider_cost = pos 0;
  platform_markup = pos 0;
  status = settled;
  created_at = now.at;
}
