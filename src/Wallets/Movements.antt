-- ===== src/Wallets/Movements.antt =====
-- What credits and debits do to a wallet.
use zyntry_backend.Prelude.{
  String, ◌≡◌, refl, none, some, Bool, false, List, [], ◌∷◌, find, keep, arith, str_eq, eq_iff,
  Option-cases, inl, inr,
}
use zyntry_backend.Prelude.Int.{ℤ, pos, ◌+ℤ◌, ◌-ℤ◌, ◌≤ℤ◌, ◌<ℤ◌, leb_ℤ, ltb_ℤ, int_laws}
use zyntry_backend.Rows.{Wallet, WalletTransaction}
use zyntry_backend.Session.{Session, ok, wallet, wallet_of_user}
use zyntry_backend.Tables.{lookup-replace}
use zyntry_backend.Tables.Unique.{Unique, lookup_of_find}
use zyntry_backend.Metered.{write_ledger}
use zyntry_backend.Wallets.{
  Fresh, WalletRequest, given, by_reference, is_ambiguous, has_reference, update_budget_spend,
}
use zyntry_backend.Wallets.Credits.{add_credit, deduct_credit}

-- The spend of a budget touches the budgets and notifications alone, and never raises.
module _ (u : String) (a : ℤ) (s : Session) where
  pub update_budget_spend-ok : (update_budget_spend u a s).0 ≡ ok tt
  unfolding update_budget_spend
  update_budget_spend-ok = ground arith

  pub wallets-update_budget_spend :
      ((update_budget_spend u a s).1.working.wallets ≡ s.working.wallets)
      × ((update_budget_spend u a s).1.working.ledger ≡ s.working.ledger)
      × ((update_budget_spend u a s).1.working.wallet_transactions ≡ s.working.wallet_transactions)
      × ((update_budget_spend u a s).1.working.reservations ≡ s.working.reservations)
  unfolding update_budget_spend
  wallets-update_budget_spend = (ground arith, ground arith, ground arith, ground arith)

abbrev pub credited : WalletRequest → Wallet → Wallet
credited req w = record w {
  balance = w.balance +ℤ req.amount;
  total_topups = w.total_topups +ℤ req.amount;
}

abbrev pub debited : WalletRequest → Wallet → Wallet
debited req w = record w {
  balance = w.balance -ℤ req.amount;
  total_spent = w.total_spent +ℤ req.amount;
}

keep-none :
    (p : WalletTransaction → Bool) (rows : List WalletTransaction)
    → find p rows ≡ none
    → keep p rows ≡ []
keep-none p [] h = refl
keep-none p (x ∷ xs) h = ground (arith, keep-none p xs)

module _ (f : Fresh) (req : WalletRequest) (s : Session) (w : Wallet)
    (ids : Unique (λ x. x.id) s.working.wallets)
    (found : wallet_of_user req.user_id s.working ≡ some w)
    (new : by_reference (given req.reference_id) s.working ≡ none) where
  one : is_ambiguous (given req.reference_id) s.working ≡ false
  unfolding by_reference is_ambiguous
  one = elim (Option-cases (given req.reference_id)) [
    | inl missing ↦ ground arith
    | inr (ref, there) ↦
        let none_yet : find (has_reference ref) s.working.wallet_transactions ≡ none =
          ground arith in
        ground (arith, keep-none (has_reference ref) s.working.wallet_transactions none_yet)
  ]

  by_id : wallet w.id s.working ≡ some w
  by_id = lookup_of_find (λ x. x.id) (λ x. str_eq x.user_id req.user_id) s.working.wallets ids found

  -- A credit with a new reference that succeeds adds its amount, which is positive, to the balance of
  -- the user's wallet and to its top-ups, reports the balances before and after, and is committed.
  pub add_credit_moves :
      {t : WalletTransaction}
      → (add_credit f req s).0 ≡ ok t
      → (pos 0 <ℤ req.amount)
        × (wallet w.id (add_credit f req s).1.committed ≡ some (credited req w))
        × (t.balance_before ≡ w.balance)
        × (t.balance_after ≡ w.balance +ℤ req.amount)
  unfolding add_credit write_ledger
  add_credit_moves h =
      let put = lookup-replace (λ x. x.id) (credited req w) s.working.wallets w.id by_id in
      (
        ground (arith, one, by_id),
        ground (arith, one, by_id, put, eq_iff w.id w.id),
        ground (arith, one, by_id),
        ground (arith, one, by_id),
      )

  deduct_credit_covered :
      {t : WalletTransaction}
      → (deduct_credit f req s).0 ≡ ok t
      → (leb_ℤ req.amount (pos 0) ≡ false) × (ltb_ℤ w.balance req.amount ≡ false)
  unfolding deduct_credit
  deduct_credit_covered h = (ground (arith, one, by_id), ground (arith, one, by_id))

  deduct_credit_balances :
      {t : WalletTransaction}
      → (deduct_credit f req s).0 ≡ ok t
      → (t.balance_before ≡ w.balance) × (t.balance_after ≡ w.balance -ℤ req.amount)
  unfolding deduct_credit
  deduct_credit_balances h =
      let (amount, covered) = deduct_credit_covered h in
      (ground (arith, one, by_id, amount, covered), ground (arith, one, by_id, amount, covered))

  wallet-deduct_credit :
      {t : WalletTransaction}
      → (deduct_credit f req s).0 ≡ ok t
      → wallet w.id (deduct_credit f req s).1.committed ≡ some (debited req w)
  unfolding deduct_credit
  wallet-deduct_credit h =
      let (amount, covered) = deduct_credit_covered h in
      let put = lookup-replace (λ x. x.id) (debited req w) s.working.wallets w.id by_id in
      ground (arith, one, by_id, put, eq_iff w.id w.id, amount, covered)

  -- A debit with a new reference that succeeds was covered by the balance; it takes its amount, which
  -- is positive, from the balance of the user's wallet, adds it to its total spend, reports the
  -- balances before and after, and is committed.
  pub deduct_credit_moves :
      {t : WalletTransaction}
      → (deduct_credit f req s).0 ≡ ok t
      → (pos 0 <ℤ req.amount)
        × (req.amount ≤ℤ w.balance)
        × (wallet w.id (deduct_credit f req s).1.committed ≡ some (debited req w))
        × (t.balance_before ≡ w.balance)
        × (t.balance_after ≡ w.balance -ℤ req.amount)
  deduct_credit_moves h =
      let (amount, covered) = deduct_credit_covered h in
      (
        grind (int_laws, amount),
        grind (int_laws, covered),
        wallet-deduct_credit h,
        (deduct_credit_balances h).0,
        (deduct_credit_balances h).1,
      )
