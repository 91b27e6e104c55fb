-- ===== src/Wallets/References.antt =====
-- Credits and debits with a reference that was used.
use zyntry_backend.Prelude.{
  String, ◌≡◌, Option, none, some, false, inl, inr, List, [], ◌∷◌, ◌++◌, arith, Option-cases,
  eq_iff, find, keep, length, ◌≤◌, ◌∙◌,
}
use zyntry_backend.Prelude.Int.{pos, ◌<ℤ◌}
use zyntry_backend.Rows.{Wallet, WalletTransaction}
use zyntry_backend.Session.{Session, ok, wallet, wallet_of_user}
use zyntry_backend.Tables.{find-append}
use zyntry_backend.Metered.{write_ledger}
use zyntry_backend.Wallets.{Fresh, WalletRequest, given, by_reference, has_reference, is_ambiguous}
use zyntry_backend.Wallets.Credits.{add_credit, deduct_credit}

module _ (f : Fresh) (req : WalletRequest) (s : Session) (w : Wallet) (t : WalletTransaction)
    (positive : pos 0 <ℤ req.amount) (owner : wallet_of_user req.user_id s.working ≡ some w)
    (used : by_reference (given req.reference_id) s.working ≡ some t)
    (one : is_ambiguous (given req.reference_id) s.working ≡ false) where
  add_credit_replays : add_credit f req s ≡ (ok t, s)
  unfolding add_credit
  add_credit_replays = ground arith

  deduct_credit_replays : deduct_credit f req s ≡ (ok t, s)
  unfolding deduct_credit
  deduct_credit_replays = ground arith

given_is : (r : Option String) {ref : String} → given r ≡ some ref → r ≡ some ref
given_is none h = absurd (ground arith)
given_is (some t) h = ground arith

-- The row that a credit adds with a new reference, of the locked wallet `l`.
add_credit_adds :
    (f : Fresh) (req : WalletRequest) (s : Session) {t : WalletTransaction} (w l : Wallet)
    → wallet_of_user req.user_id s.working ≡ some w
    → wallet w.id s.working ≡ some l
    → by_reference (given req.reference_id) s.working ≡ none
    → (add_credit f req s).0 ≡ ok t
    → ((add_credit f req s).1.working.wallet_transactions ≡ s.working.wallet_transactions ++ t ∷ [])
      × (t.reference_id ≡ req.reference_id)
unfolding add_credit write_ledger
add_credit_adds f req s w l owner locked new h = (ground arith, ground arith)

found_last :
    (ref : String) (rows : List WalletTransaction) (t : WalletTransaction)
    → find (has_reference ref) rows ≡ none
    → t.reference_id ≡ some ref
    → find (has_reference ref) (rows ++ t ∷ []) ≡ some t
found_last ref rows t new named =
    ground (arith, find-append (has_reference ref) rows (t ∷ []), eq_iff ref ref)

found_once :
    (ref : String) (rows : List WalletTransaction) (t : WalletTransaction)
    → find (has_reference ref) rows ≡ none
    → length (keep (has_reference ref) (rows ++ t ∷ [])) ≤ 1
found_once ref [] t new = ground arith
found_once ref (x ∷ xs) t new = ground (arith, found_once ref xs t)

-- A credit that succeeds leaves one row with its reference.
add_credit-one :
    (f : Fresh) (req : WalletRequest) (s : Session) {t : WalletTransaction} (w : Wallet)
    (ref : String)
    → wallet_of_user req.user_id s.working ≡ some w
    → given req.reference_id ≡ some ref
    → (add_credit f req s).0 ≡ ok t
    → is_ambiguous (some ref) (add_credit f req s).1.working ≡ false
unfolding add_credit by_reference is_ambiguous
add_credit-one f req s {t = t} w ref owner is_given h =
    elim (Option-cases (by_reference (some ref) s.working)) [
      | inr (old, used) ↦ ground arith
      | inl new ↦ elim (Option-cases (wallet w.id s.working)) [
        | inl missing ↦ absurd (ground arith)
        | inr (l, locked) ↦
            let (rows, named) =
              add_credit_adds f req s {t = t} w l owner locked (simp is_given new) h in
            let once = found_once ref s.working.wallet_transactions t new in
            simp rows (ground (arith, once))
      ]
    ]

-- A credit that succeeds is found by its reference.
add_credit_finds :
    (f : Fresh) (req : WalletRequest) (s : Session) {t : WalletTransaction} (w : Wallet)
    (ref : String)
    → wallet_of_user req.user_id s.working ≡ some w
    → given req.reference_id ≡ some ref
    → (add_credit f req s).0 ≡ ok t
    → by_reference (some ref) (add_credit f req s).1.working ≡ some t
unfolding add_credit by_reference
add_credit_finds f req s {t = t} w ref owner is_given h =
    elim (Option-cases (by_reference (some ref) s.working)) [
      | inr (old, used) ↦ ground arith
      | inl new ↦ elim (Option-cases (wallet w.id s.working)) [
        | inl missing ↦ absurd (ground arith)
        | inr (l, locked) ↦
            let (rows, named) =
              add_credit_adds f req s {t = t} w l owner locked (simp is_given new) h in
            simp rows (
              found_last ref s.working.wallet_transactions t new
                (named ∙ given_is req.reference_id is_given))
      ]
    ]

-- A reference is used once, whoever uses it: after a credit with a reference that succeeded, a credit
-- or a debit of any positive amount with the same reference, for any user who has a wallet, returns
-- that credit's transaction and moves no money: the session is left as it is.
pub add_credit-replays :
    (f f' : Fresh) (req req' : WalletRequest) (s : Session) {t : WalletTransaction} (w w' : Wallet)
    (ref : String)
    → wallet_of_user req.user_id s.working ≡ some w
    → given req.reference_id ≡ some ref
    → (add_credit f req s).0 ≡ ok t
    → given req'.reference_id ≡ some ref
    → wallet_of_user req'.user_id (add_credit f req s).1.working ≡ some w'
    → pos 0 <ℤ req'.amount
    → (add_credit f' req' (add_credit f req s).1 ≡ (ok t, (add_credit f req s).1))
      × (deduct_credit f' req' (add_credit f req s).1 ≡ (ok t, (add_credit f req s).1))
add_credit-replays f f' req req' s {t = t} w w' ref owner is_given done again owner' positive =
    let used = add_credit_finds f req s w ref owner is_given done in
    let s' = (add_credit f req s).1 in
    let one = add_credit-one f req s w ref owner is_given done in
    let one' : is_ambiguous (given req'.reference_id) s'.working ≡ false = simp again one in
    let used' : by_reference (given req'.reference_id) s'.working ≡ some t = simp again used in
    (
      add_credit_replays f' req' s' w' t positive owner' used' one',
      deduct_credit_replays f' req' s' w' t positive owner' used' one',
    )
