-- ===== src/Wallets/Examples.antt =====
-- Credits, debits and refunds on concrete tables.
use zyntry_backend.Prelude.{◌≡◌, refl, some, true, arith}
use zyntry_backend.Prelude.Int.{pos, ◌+ℤ◌, ◌-ℤ◌, ◌<ℤ◌, sum_of}
use zyntry_backend.Rows.{WalletTransaction, debit, credit, Wallet}
use zyntry_backend.Session.{Session, ok, err, value_error, wallet_of_user, transaction}
use zyntry_backend.Tables.{replace}
use zyntry_backend.Tables.Unique.{Unique}
use zyntry_backend.Samples.{wallet_row, session, now, fresh}
use zyntry_backend.Metered.{total_spent, reconcile_wallet, settled_spend, write_ledger}
use zyntry_backend.Metered.Reconcile.{mentions}
use zyntry_backend.Wallets.{Fresh, WalletRequest}
use zyntry_backend.Wallets.Credits.{
  transaction_of, add_credit, deduct_credit, refund_row, refund_wallet, refund_transaction,
}
use zyntry_backend.Wallets.Movements.{credited, debited}
use zyntry_backend.Wallets.References.{add_credit-replays}
use zyntry_backend.Wallets.Refunds.{refund-once, refund-unreconciled}

abbrev request : WalletRequest
request = record { user_id = "u"; amount = pos 40000; reason = "top up"; reference_id = some "ref" }

abbrev credit_made : WalletTransaction
credit_made = transaction_of fresh request wallet_row credit (pos 1040000)

abbrev after_credit : Session
after_credit = (add_credit fresh request session).1

credit_returns : (add_credit fresh request session).0 ≡ ok credit_made
unfolding add_credit ◌+ℤ◌
credit_returns = refl

abbrev debit_made : WalletTransaction
debit_made = transaction_of fresh request wallet_row debit (pos 960000)

abbrev after_debit : Session
after_debit = (deduct_credit fresh request session).1

debit_returns : (deduct_credit fresh request session).0 ≡ ok debit_made
unfolding deduct_credit ◌-ℤ◌
debit_returns = refl

abbrev again : WalletRequest
again = record request { amount = pos 7 }

owner_after : wallet_of_user "u" after_credit.working ≡ some (credited request wallet_row)
unfolding add_credit ◌+ℤ◌ replace
owner_after = refl

add_credit-replays_example :
    (add_credit fresh again after_credit ≡ (ok credit_made, after_credit))
    × (deduct_credit fresh again after_credit ≡ (ok credit_made, after_credit))
add_credit-replays_example =
    add_credit-replays fresh fresh request again session wallet_row (credited request wallet_row)
      "ref" refl refl credit_returns refl owner_after (omega arith)

abbrev refunding : Fresh
refunding = record fresh { transaction_id = "t2" }

abbrev debited_wallet : Wallet
debited_wallet = debited request wallet_row

abbrev refund_made : WalletTransaction
refund_made = refund_row refunding "u" "wrong" debit_made debited_wallet

refund_returns : (refund_transaction refunding "u" "wrong" "t" after_debit).0 ≡ ok refund_made
unfolding refund_transaction deduct_credit replace refund_wallet
refund_returns = refl

refund-once_example :
    refund_transaction fresh "u" "twice" "t"
      (refund_transaction refunding "u" "wrong" "t" after_debit).1
    ≡ (
      err (value_error "Transaction has already been refunded"),
      (refund_transaction refunding "u" "wrong" "t" after_debit).1,
    )
refund-once_example =
    refund-once refunding fresh "u" "u" "wrong" "twice" "t" after_debit refund_returns

exact : debited_wallet.total_spent ≡ settled_spend "u" after_debit.working
unfolding settled_spend deduct_credit write_ledger sum_of ◌+ℤ◌
exact = refl

ids_after : Unique (λ x. x.id) after_debit.working.wallets
unfolding deduct_credit replace
ids_after = (refl, tt)

debit_owner : wallet_of_user "u" after_debit.working ≡ some debited_wallet
unfolding deduct_credit replace
debit_owner = refl

debit_found : transaction "t" after_debit.working ≡ some debit_made
unfolding deduct_credit ◌-ℤ◌
debit_found = refl

spent : pos 0 <ℤ debited_wallet.total_spent
unfolding ◌+ℤ◌
spent = omega arith

refund-unreconciled_example :
    mentions total_spent
      (reconcile_wallet now "u"
        (refund_transaction refunding "u" "wrong" "t" after_debit).1.committed).mismatches
    ≡ true
refund-unreconciled_example =
    refund-unreconciled refunding "u" "wrong" "t" after_debit now debited_wallet debit_made
      ids_after debit_owner debit_found (omega arith) spent exact refund_returns
