-- ===== src/Wallets/Credits.antt =====
-- Credits, debits and refunds of a wallet (app/services/billing.py, `add_credit`, `deduct_credit` and
-- `refund_transaction`).
use zyntry_backend.Prelude.{
  String, Option, none, some, Bool, true, false, not, ◌&&◌, find, str_eq, str_append,
}
use zyntry_backend.Prelude.Int.{ℤ, pos, ◌+ℤ◌, ◌-ℤ◌, ltb_ℤ, leb_ℤ, max_ℤ}
use zyntry_backend.Rows.{
  Wallet, WalletTransaction, TransactionType, credit, debit, refund, topup, ai_inference, reversal,
  BillingLedger, is_active, is_settled, status_name,
}
use zyntry_backend.Session.{
  Db, value_error, insufficient_credits, Action, pure, gets, or_raise, ◌>>=◌, ◌>>◌, raise_if,
  modify, commit, wallet, wallet_of_user, budget_of_user, transaction, is_some, put_wallet,
}
use zyntry_backend.Metered.{write_ledger}
use zyntry_backend.Wallets.{
  Fresh, WalletRequest, get_wallet, given, by_reference, is_ambiguous, get_by_reference, ledger_key,
  settled_row, add_transaction, lift_limit, update_budget_spend,
}

abbrev pub transaction_of : Fresh → WalletRequest → Wallet → TransactionType → ℤ → WalletTransaction
transaction_of f req w type after = record {
  id = f.transaction_id;
  wallet_id = w.id;
  type = type;
  amount = req.amount;
  balance_before = w.balance;
  balance_after = after;
  reason = req.reason;
  reference_id = req.reference_id;
}

module _ (f : Fresh) (req : WalletRequest) where
  abbrev pub topup_row : Wallet → BillingLedger
  topup_row w = record (settled_row f.now req.user_id w topup req.amount) {
    idempotency_key = ledger_key "topup:" req.reference_id f.transaction_id;
    resource_type = "wallet_topup";
    resource_id = req.reference_id;
  }

  -- `add_credit` with the wallet locked.
  pub credit_wallet : Wallet → Action WalletTransaction
  unfolding write_ledger
  credit_wallet w = do
    let after = w.balance +ℤ req.amount
    let row = transaction_of f req w credit after
    modify (add_transaction row)
    modify (put_wallet (record w { balance = after; total_topups = w.total_topups +ℤ req.amount }))
    budget ← gets (budget_of_user req.user_id)
    lift_limit (λ b. pos 0) after budget
    write_ledger (topup_row w)
    commit
    pure row

  abbrev pub debit_row : Wallet → BillingLedger
  debit_row w = record (settled_row f.now req.user_id w ai_inference req.amount) {
    request_id = req.reference_id;
    idempotency_key = ledger_key "debit:" req.reference_id f.transaction_id;
    resource_type = "metered_operation";
    resource_id = req.reference_id;
  }

  -- `deduct_credit` with the wallet locked.
  pub debit_wallet : Wallet → Action WalletTransaction
  unfolding write_ledger update_budget_spend
  debit_wallet w = do
    raise_if (ltb_ℤ w.balance req.amount) (insufficient_credits req.amount w.balance)
    let after = w.balance -ℤ req.amount
    let row = transaction_of f req w debit after
    modify (add_transaction row)
    modify (put_wallet (record w { balance = after; total_spent = w.total_spent +ℤ req.amount }))
    update_budget_spend req.user_id req.amount
    write_ledger (debit_row w)
    commit
    pure row

  -- The select for update, and the rest of the call.
  abbrev pub with_locked : (Wallet → Action WalletTransaction) → Wallet → Action WalletTransaction
  with_locked change w = do
    raise_if (not (is_active w.status))
        (value_error (str_append "Wallet is " (status_name w.status)))
    locked ← or_raise (← gets (wallet w.id)) (value_error "Wallet not found")
    change locked

  abbrev pub unless_done :
      Option WalletTransaction → Action WalletTransaction → Action WalletTransaction
  unless_done none m = m
  unless_done (some t) m = pure t

  unfoldable pub add_credit : Action WalletTransaction
  unfolding get_wallet credit_wallet by_reference is_ambiguous
  add_credit = do
    raise_if (leb_ℤ req.amount (pos 0)) (value_error "Credit amount must be positive")
    w ← get_wallet f req.user_id
    existing ← get_by_reference (given req.reference_id)
    unless_done existing (with_locked credit_wallet w)

  unfoldable pub deduct_credit : Action WalletTransaction
  unfolding get_wallet debit_wallet by_reference is_ambiguous
  deduct_credit = do
    raise_if (leb_ℤ req.amount (pos 0)) (value_error "Deduction amount must be positive")
    w ← get_wallet f req.user_id
    existing ← get_by_reference (given req.reference_id)
    unless_done existing (with_locked debit_wallet w)

abbrev pub is_debit : TransactionType → Bool
is_debit debit = true
is_debit _ = false

abbrev pub is_reversal : TransactionType → Bool
is_reversal reversal = true
is_reversal _ = false

-- The select of a settled reversal of the transaction `id`.
abbrev pub reverses : String → BillingLedger → Bool
reverses id l =
    is_reversal l.transaction_type
    && elim l.resource_id [ none ↦ false | some i ↦ str_eq i id ]
    && is_settled l.status

unfoldable pub refund_of : String → Db → Option BillingLedger
refund_of id db = find (reverses id) db.ledger

module _ (f : Fresh) (user_id reason : String) where
  abbrev pub refund_row : WalletTransaction → Wallet → WalletTransaction
  refund_row original w = record {
    id = f.transaction_id;
    wallet_id = w.id;
    type = refund;
    amount = original.amount;
    balance_before = w.balance;
    balance_after = w.balance +ℤ original.amount;
    reason = reason;
    reference_id = some original.id;
  }

  abbrev pub reversal_row : WalletTransaction → Wallet → BillingLedger
  reversal_row original w = record (settled_row f.now user_id w reversal original.amount) {
    idempotency_key = str_append "refund:" original.id;
    resource_type = "refund";
    resource_id = some original.id;
  }

  unfoldable pub refund_wallet : WalletTransaction → Wallet → Action WalletTransaction
  unfolding write_ledger
  refund_wallet original w = do
    let after = w.balance +ℤ original.amount
    modify (add_transaction (refund_row original w))
    modify (
        put_wallet (record w {
          balance = after;
          total_spent = max_ℤ (pos 0) (w.total_spent -ℤ original.amount);
        }))
    budget ← gets (budget_of_user user_id)
    lift_limit (λ b. max_ℤ (pos 0) (b.current_spend -ℤ original.amount)) after budget
    write_ledger (reversal_row original w)
    commit
    pure (refund_row original w)

  -- `wallet is None or wallet.id != original.wallet_id`.
  abbrev pub is_of : WalletTransaction → Wallet → Bool
  is_of original w = str_eq w.id original.wallet_id

  unfoldable pub refund_transaction : String → Action WalletTransaction
  unfolding refund_of
  refund_transaction transaction_id = do
    original ← or_raise (← gets (transaction transaction_id)) (value_error "Transaction not found")
    raise_if (not (is_debit original.type)) (value_error "Only debit transactions can be refunded")
    refunded ← gets (refund_of original.id)
    raise_if (is_some refunded) (value_error "Transaction has already been refunded")
    w ← or_raise (← gets (wallet_of_user user_id)) (value_error "Wallet mismatch")
    raise_if (not (is_of original w)) (value_error "Wallet mismatch")
    locked ← or_raise (← gets (wallet w.id)) (value_error "Wallet not found")
    refund_wallet original locked
