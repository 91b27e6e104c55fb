-- ===== src/Metered/Consistent.antt =====
-- The consistency of the billing tables, and the two ways in which the engine moves money between a
-- wallet's balance and what is held of it.
use zyntry_backend.Prelude.{
  String, ◌≡◌, ◌≢◌, refl, none, some, ◌&&◌, List, [], ◌∷◌, ◌++◌, arith, str_eq, eq_iff, All,
  if◌then◌else◌,
}
use zyntry_backend.Prelude.Int.{ℤ, pos, ◌+ℤ◌, sum_of, sum_of-snoc, int_laws}
use zyntry_backend.Rows.{Wallet, BillingReservation, is_reserved}
use zyntry_backend.Tables.{replace, key_of_lookup, lookup-replace, sum_of-replace, lookup-append}
use zyntry_backend.Tables.Unique.{Unique, replace-Unique, append-Unique}
use zyntry_backend.Metered.{held, new_wallet}
use zyntry_backend.Metered.Moves.{
  Opening, Closing, IsKept, wallet_in, reservation_in, put_wallet_in, put_reservation_in,
}

-- Primary keys are unique, each reservation's wallet exists, and each wallet's reserved balance is
-- what its open reservations hold.
pub record IsConsistent (ws : List Wallet) (rs : List BillingReservation) : Type 0 where
  pub wallet_ids : Unique (λ w. w.id) ws
  pub reservation_ids : Unique (λ r. r.id) rs
  pub owned : All (λ r. wallet_in r.wallet_id ws ≢ none) rs
  pub backed : (i : String) (w : Wallet) → wallet_in i ws ≡ some w → w.reserved_balance ≡ held i rs

-- What one reservation holds of a wallet.
abbrev pub holds : String → BillingReservation → ℤ
holds i r = if str_eq r.wallet_id i && is_reserved r.status then r.estimated_amount else pos 0

pub held-eq-sum : (i : String) (rs : List BillingReservation) → held i rs ≡ sum_of (holds i) rs
unfolding held sum_of
held-eq-sum i [] = refl
held-eq-sum i (r ∷ rs) = grind (int_laws, held-eq-sum i rs)

pub held-snoc :
    (i : String) (rs : List BillingReservation) (r : BillingReservation)
    → held i (rs ++ r ∷ []) ≡ held i rs +ℤ holds i r
held-snoc i rs r = simp held-eq-sum (sum_of-snoc (holds i) rs r)

pub held-replace :
    (i : String) (r : BillingReservation) (rs : List BillingReservation) {old : BillingReservation}
    → reservation_in r.id rs ≡ some old
    → held i (replace (λ x. x.id) r rs) +ℤ holds i old ≡ held i rs +ℤ holds i r
held-replace i r rs h = simp held-eq-sum (sum_of-replace (λ x. x.id) (holds i) r rs h)

-- A wallet that no reservation names holds nothing.
held_of_missing :
    (i : String) (ws : List Wallet) (rs : List BillingReservation)
    → All (λ r. wallet_in r.wallet_id ws ≢ none) rs
    → wallet_in i ws ≡ none
    → held i rs ≡ pos 0
unfolding held sum_of
held_of_missing i ws [] a m = refl
held_of_missing i ws (r ∷ rs) a m =
    grind (int_laws, held_of_missing i ws rs a.1 m, eq_iff r.wallet_id i)

abbrev Owned : List Wallet → List BillingReservation → Type 0
Owned ws rs = All (λ r. wallet_in r.wallet_id ws ≢ none) rs

Owned-put_wallet :
    (w : Wallet) (ws : List Wallet) (rs : List BillingReservation) {old : Wallet}
    → wallet_in w.id ws ≡ some old
    → Owned ws rs
    → Owned (replace (λ x. x.id) w ws) rs
Owned-put_wallet w ws [] h a = tt
Owned-put_wallet w ws (r ∷ rs) {old = old} h a = (
  λ e. ground (arith, lookup-replace (λ x. x.id) w ws r.wallet_id {old = old}, a.0),
  Owned-put_wallet w ws rs h a.1,
)

Owned-snoc :
    (ws : List Wallet) (rs : List BillingReservation) (r : BillingReservation)
    → wallet_in r.wallet_id ws ≢ none
    → Owned ws rs
    → Owned ws (rs ++ r ∷ [])
Owned-snoc ws [] r h a = (h, tt)
Owned-snoc ws (x ∷ rs) r h a = (a.0, Owned-snoc ws rs r h a.1)

Owned-put_reservation :
    (ws : List Wallet) (rs : List BillingReservation) (r : BillingReservation)
    → wallet_in r.wallet_id ws ≢ none
    → Owned ws rs
    → Owned ws (replace (λ x. x.id) r rs)
unfolding replace
Owned-put_reservation ws [] r h a = tt
Owned-put_reservation ws (x ∷ rs) r h a = ground (arith, Owned-put_reservation ws rs r)

Owned-add_wallet :
    (ws : List Wallet) (rs : List BillingReservation) (w : Wallet)
    → Owned ws rs
    → Owned (ws ++ w ∷ []) rs
Owned-add_wallet ws [] w a = tt
Owned-add_wallet ws (r ∷ rs) w a = (
  λ e. ground (arith, lookup-append (λ x. x.id) r.wallet_id ws (w ∷ []), a.0),
  Owned-add_wallet ws rs w a.1,
)

module _ (ws : List Wallet) (rs : List BillingReservation) (c : IsConsistent ws rs) where
  -- A new wallet, with nothing reserved.
  add_wallet-IsConsistent :
      (w : Wallet)
      → wallet_in w.id ws ≡ none
      → w.reserved_balance ≡ pos 0
      → IsConsistent (ws ++ w ∷ []) rs
  add_wallet-IsConsistent w fresh zero = record {
    wallet_ids = append-Unique (λ x. x.id) w ws fresh c.wallet_ids;
    reservation_ids = c.reservation_ids;
    owned = Owned-add_wallet ws rs w c.owned;
    backed = λ i v h. ground (
      arith,
      lookup-append (λ x. x.id) i ws (w ∷ []),
      c.backed i v,
      held_of_missing i ws rs c.owned,
      eq_iff w.id i,
    );
  }

  opens_keep :
      (w w' : Wallet) (r : BillingReservation)
      → wallet_in w.id ws ≡ some w
      → reservation_in r.id rs ≡ none
      → Opening w w' r
      → IsConsistent (put_wallet_in w' ws) (rs ++ r ∷ [])
  opens_keep w w' r found fresh o =
      let found' : wallet_in w'.id ws ≡ some w = simp o.same found in
      record {
        wallet_ids = replace-Unique (λ x. x.id) w' ws found' c.wallet_ids;
        reservation_ids = append-Unique (λ x. x.id) r rs fresh c.reservation_ids;
        owned =
            Owned-snoc _ rs r
              (λ e. ground (
                arith,
                lookup-replace (λ x. x.id) w' ws r.wallet_id found',
                eq_iff w'.id r.wallet_id,
              ))
              (Owned-put_wallet w' ws rs found' c.owned);
        backed = λ i v h. grind (
          int_laws,
          lookup-replace (λ x. x.id) w' ws i found',
          held-snoc i rs r,
          c.backed i v,
          c.backed i w,
          eq_iff w'.id i,
          eq_iff r.wallet_id i,
        );
      }

  closes_keep :
      (w w' : Wallet) (r r' : BillingReservation)
      → wallet_in r.wallet_id ws ≡ some w
      → reservation_in r.id rs ≡ some r
      → Closing w w' r r'
      → IsConsistent (put_wallet_in w' ws) (put_reservation_in r' rs)
  closes_keep w w' r r' found row o =
      let owner : w.id ≡ r.wallet_id = key_of_lookup (λ x. x.id) r.wallet_id ws found in
      let found' : wallet_in w'.id ws ≡ some w = simp (o.same, owner) found in
      let row' : reservation_in r'.id rs ≡ some r = simp o.same_row row in
      record {
        wallet_ids = replace-Unique (λ x. x.id) w' ws found' c.wallet_ids;
        reservation_ids = replace-Unique (λ x. x.id) r' rs row' c.reservation_ids;
        owned =
            Owned-put_reservation _ rs r'
              (λ e. ground (
                arith,
                lookup-replace (λ x. x.id) w' ws r'.wallet_id found',
                eq_iff w'.id r'.wallet_id,
              ))
              (Owned-put_wallet w' ws rs found' c.owned);
        backed = λ i v h. grind (
          int_laws,
          lookup-replace (λ x. x.id) w' ws i found',
          held-replace i r' rs row',
          c.backed i v,
          c.backed i w,
          eq_iff w'.id i,
          eq_iff r.wallet_id i,
          eq_iff r'.wallet_id i,
        );
      }

-- Consistency is kept by the three moves.
pub IsConsistent-kept : IsKept IsConsistent
IsConsistent-kept = record {
  ids = λ ws rs c. c.wallet_ids;
  adds = λ ws rs i u c fresh. add_wallet-IsConsistent ws rs c (new_wallet i u) fresh refl;
  opens = λ ws rs w w' r c. opens_keep ws rs c w w' r;
  closes = λ ws rs w w' r r' c. closes_keep ws rs c w w' r r';
}
