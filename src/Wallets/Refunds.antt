-- ===== src/Wallets/Refunds.antt =====
-- Refunds: at most one for a transaction, and what a refund leaves for the reconciliation.
use zyntry_backend.Prelude.{
  String, ◌≡◌, refl, none, some, true, inl, inr, List, [], ◌∷◌, ◌++◌, find, arith, Option-cases,
  str_eq, eq_iff, sym,
}
use zyntry_backend.Prelude.Int.{ℤ, pos, ◌+ℤ◌, ◌-ℤ◌, ◌<ℤ◌, max_ℤ, int_laws}
use zyntry_backend.Rows.{Wallet, WalletTransaction, BillingLedger}
use zyntry_backend.Session.{
  Db, Session, ok, err, value_error, wallet, wallet_of_user, transaction, is_some,
}
use zyntry_backend.Tables.{lookup, replace, lookup-append, find-append, sum_of-keep_snoc}
use zyntry_backend.Tables.Unique.{Unique, lookup_of_find, lookup_other-replace}
use zyntry_backend.Limits.{Now}
use zyntry_backend.Metered.{
  write_ledger, total_spent, is_settled_spend, settled_spend, reconcile_wallet,
}
use zyntry_backend.Metered.Reconcile.{mentions}
use zyntry_backend.Wallets.{Fresh}
use zyntry_backend.Wallets.Credits.{
  refund_row, reversal_row, is_debit, reverses, is_debit, reverses, refund_of, refund_wallet,
  refund_transaction,
}

-- The tables that a successful refund of `o` on the locked wallet `l` leaves.
refunded_wallet : WalletTransaction → Wallet → Wallet
refunded_wallet o l = record l {
  balance = l.balance +ℤ o.amount;
  total_spent = max_ℤ (pos 0) (l.total_spent -ℤ o.amount);
}

record Refunded (f : Fresh) (u reason : String) (o : WalletTransaction) (l : Wallet)
    (before after : Db) : Type 0 where
  transactions :
      after.wallet_transactions ≡ before.wallet_transactions ++ refund_row f u reason o l ∷ []
  ledger : after.ledger ≡ before.ledger ++ reversal_row f u reason o l ∷ []
  wallets : after.wallets ≡ replace (λ x. x.id) (refunded_wallet o l) before.wallets

refund_wallet-Refunded :
    (f : Fresh) (u reason : String) (o : WalletTransaction) (l : Wallet) (s : Session)
    {t : WalletTransaction}
    → (refund_wallet f u reason o l s).0 ≡ ok t
    → Refunded f u reason o l s.working (refund_wallet f u reason o l s).1.working
      × ((refund_wallet f u reason o l s).1.committed ≡ (refund_wallet f u reason o l s).1.working)
unfolding refund_wallet write_ledger refunded_wallet
refund_wallet-Refunded f u reason o l s h = ground arith

-- A refund that succeeds had a debit that was not refunded, and the wallet of its user.
record Refundable (u id : String) (o : WalletTransaction) (l : Wallet) (db : Db) : Type 0 where
  original : transaction id db ≡ some o
  is_a_debit : is_debit o.type ≡ true
  not_refunded : refund_of o.id db ≡ none
  owner :
      (w : Wallet) × (wallet_of_user u db ≡ some w)
      × (wallet w.id db ≡ some l)
      × (w.id ≡ o.wallet_id)

refund_needs :
    (f : Fresh) (u reason id : String) (s : Session) {t : WalletTransaction}
    → (refund_transaction f u reason id s).0 ≡ ok t
    → (o : WalletTransaction) × (l : Wallet) × Refundable u id o l s.working
      × (refund_transaction f u reason id s ≡ refund_wallet f u reason o l s)
unfolding refund_transaction
refund_needs f u reason id s {t = t} done = elim (Option-cases (transaction id s.working)) [
  | inl missing ↦ absurd (ground arith)
  | inr (o, found) ↦ elim (Option-cases (wallet_of_user u s.working)) [
    | inl missing ↦ absurd (ground arith)
    | inr (w, owner) ↦ elim (Option-cases (wallet w.id s.working)) [
      | inl missing ↦ absurd (ground arith)
      | inr (l, locked) ↦ (
        o,
        l,
        record {
          original = found;
          is_a_debit = ground arith;
          not_refunded = ground arith;
          owner = (w, owner, locked, ground (arith, eq_iff w.id o.wallet_id));
        },
        ground (arith, eq_iff w.id o.wallet_id),
      )
    ]
  ]
]

refund_refused :
    (f : Fresh) (u reason id : String) (s : Session) (o : WalletTransaction)
    → transaction id s.working ≡ some o
    → is_some (refund_of o.id s.working) ≡ true
    → is_debit o.type ≡ true
    → refund_transaction f u reason id s
      ≡ (err (value_error "Transaction has already been refunded"), s)
unfolding refund_transaction
refund_refused f u reason id s o found refunded type = ground arith

found_still :
    (id : String) (rows : List WalletTransaction) (r o : WalletTransaction)
    → lookup (λ x. x.id) id rows ≡ some o
    → lookup (λ x. x.id) id (rows ++ r ∷ []) ≡ some o
found_still id rows r o h = ground (arith, lookup-append (λ x. x.id) id rows (r ∷ []))

refund_of_reversal :
    (f : Fresh) (u reason : String) (o : WalletTransaction) (l : Wallet) (rows : List BillingLedger)
    → is_some (find (reverses o.id) (rows ++ reversal_row f u reason o l ∷ [])) ≡ true
refund_of_reversal f u reason o l rows =
    ground
      (arith, find-append (reverses o.id) rows (reversal_row f u reason o l ∷ []), eq_iff o.id o.id)

-- A transaction is refunded at most once: after a refund that succeeded, a second refund of it, for
-- any user and reason, raises and leaves the session as it is.
pub refund-once :
    (f f' : Fresh) (u u' reason reason' id : String) (s : Session) {t : WalletTransaction}
    → (refund_transaction f u reason id s).0 ≡ ok t
    → refund_transaction f' u' reason' id (refund_transaction f u reason id s).1 ≡ (
      err (value_error "Transaction has already been refunded"),
      (refund_transaction f u reason id s).1,
    )
unfolding refund_of
refund-once f f' u u' reason reason' id s done =
    let (o, l, needs, step) = refund_needs f u reason id s done in
    let (left, same) = refund_wallet-Refunded f u reason o l s (simp step at done) in
    let s' = (refund_transaction f u reason id s).1 in
    let found : transaction id s'.working ≡ some o = simp step (
      simp left.transactions (
        found_still id s.working.wallet_transactions (refund_row f u reason o l) o
          needs.original)) in
    let refunded : is_some (refund_of o.id s'.working) ≡ true =
      simp step (simp left.ledger (refund_of_reversal f u reason o l s.working.ledger)) in
    refund_refused f' u' reason' id s' o found refunded needs.is_a_debit

-- What the reconciliation says where the total spend is below the settled spend.
reports_total_spent :
    (now : Now) (u : String) (db : Db) (w : Wallet)
    → wallet_of_user u db ≡ some w
    → w.total_spent <ℤ settled_spend u db
    → mentions total_spent (reconcile_wallet now u db).mismatches ≡ true
unfolding reconcile_wallet
reports_total_spent now u db w owner short = ground arith

settled_spend-reversal :
    (f : Fresh) (u reason : String) (o : WalletTransaction) (l : Wallet) (before after : Db)
    → after.ledger ≡ before.ledger ++ reversal_row f u reason o l ∷ []
    → settled_spend u after ≡ settled_spend u before
unfolding settled_spend
settled_spend-reversal f u reason o l before after rows = simp rows (
    sum_of-keep_snoc (λ x. x.amount) (is_settled_spend u) before.ledger
      (reversal_row f u reason o l) (ground arith))

less_spent : (a b : ℤ) → pos 0 <ℤ a → pos 0 <ℤ b → max_ℤ (pos 0) (a -ℤ b) <ℤ a
less_spent a b p q = grind int_laws

-- The tables a refund leaves, reconciled.
unreconciled_after :
    (f : Fresh) (u reason : String) (now : Now) (o : WalletTransaction) (w : Wallet)
    (before after : Db)
    → Unique (λ x. x.id) before.wallets
    → wallet_of_user u before ≡ some w
    → pos 0 <ℤ o.amount
    → pos 0 <ℤ w.total_spent
    → w.total_spent ≡ settled_spend u before
    → Refunded f u reason o w before after
    → mentions total_spent (reconcile_wallet now u after).mismatches ≡ true
unfolding refunded_wallet
unreconciled_after f u reason now o w before after ids owner amount spent exact left =
    let put =
      lookup_other-replace (λ x. x.id) (λ x. x.user_id) u (refunded_wallet o w) before.wallets
        {old = w} ids owner refl refl in
    let kept = settled_spend-reversal f u reason o w before after left.ledger in
    reports_total_spent now u after (refunded_wallet o w) (simp left.wallets put)
      (simp kept (simp (sym exact) (less_spent w.total_spent o.amount spent amount)))

-- A refund unsettles the reconciliation: where the user's total spend was exactly the settled spend of
-- the ledger, and not zero, a refund of a positive debit that succeeds leaves the total spend below
-- the settled spend, and reconciling the wallet reports a mismatch of the total spend.
pub refund-unreconciled :
    (f : Fresh) (u reason id : String) (s : Session) (now : Now) (w : Wallet)
    (o : WalletTransaction) {t : WalletTransaction}
    → Unique (λ x. x.id) s.working.wallets
    → wallet_of_user u s.working ≡ some w
    → transaction id s.working ≡ some o
    → pos 0 <ℤ o.amount
    → pos 0 <ℤ w.total_spent
    → w.total_spent ≡ settled_spend u s.working
    → (refund_transaction f u reason id s).0 ≡ ok t
    → mentions total_spent
        (reconcile_wallet now u (refund_transaction f u reason id s).1.committed).mismatches
      ≡ true
unfolding refunded_wallet
refund-unreconciled f u reason id s now w o ids owner found amount spent exact done =
    let (o', l, needs, step) = refund_needs f u reason id s done in
    let (left, same) = refund_wallet-Refunded f u reason o' l s (simp step at done) in
    let (w', owner', locked, _) = needs.owner in
    let by_id = lookup_of_find (λ x. x.id) (λ x. str_eq x.user_id u) s.working.wallets ids owner in
    let same_o : o' ≡ o = ground (arith, needs.original) in
    let same_w : w' ≡ w = ground (arith, owner') in
    let same_l : l ≡ w = ground (arith, locked, by_id, same_w) in
    simp step (
      simp same (
        unreconciled_after f u reason now o' l s.working (refund_wallet f u reason o' l s).1.working
          ids (simp same_l owner) (simp same_o amount) (simp same_l spent) (simp same_l exact)
          left))
