-- ===== src/Metered/Conserved.antt =====
-- Money is conserved: what the wallets hold, have reserved and have spent.
use zyntry_backend.Prelude.{◌≡◌, some, List}
use zyntry_backend.Prelude.Int.{ℤ, ◌+ℤ◌, sum_of, sum_of-snoc, int_laws}
use zyntry_backend.Rows.{Wallet, BillingReservation}
use zyntry_backend.Tables.{key_of_lookup, sum_of-replace}
use zyntry_backend.Tables.Unique.{Unique, replace-Unique, append-Unique}
use zyntry_backend.Metered.{new_wallet}
use zyntry_backend.Metered.Moves.{IsKept, wallet_in, put_wallet_in}

abbrev pub funds : Wallet → ℤ
funds w = w.balance +ℤ w.reserved_balance +ℤ w.total_spent

unfoldable pub total_funds : List Wallet → ℤ
total_funds = sum_of funds

-- The wallets, each with its own id, hold `n` together.
pub record Hold (n : ℤ) (ws : List Wallet) (rs : List BillingReservation) : Type 0 where
  pub wallet_ids : Unique (λ w. w.id) ws
  pub total : total_funds ws ≡ n

module _ (n : ℤ) (ws : List Wallet) (rs : List BillingReservation) (h : Hold n ws rs) where
  put-Hold :
      (w w' : Wallet) (rs' : List BillingReservation)
      → wallet_in w'.id ws ≡ some w
      → funds w' ≡ funds w
      → Hold n (put_wallet_in w' ws) rs'
  unfolding total_funds
  put-Hold w w' rs' found same = record {
    wallet_ids = replace-Unique (λ x. x.id) w' ws found h.wallet_ids;
    total = grind (int_laws, h.total, sum_of-replace (λ x. x.id) funds w' ws found, same);
  }

pub Hold-kept : (n : ℤ) → IsKept (Hold n)
unfolding total_funds
Hold-kept n = record {
  ids = λ ws rs h. h.wallet_ids;
  adds = λ ws rs i u h fresh. record {
    wallet_ids = append-Unique (λ x. x.id) (new_wallet i u) ws fresh h.wallet_ids;
    total = simp sum_of-snoc (grind (int_laws, h.total));
  };
  opens = λ ws rs w w' r h found fresh o.
      put-Hold n ws rs h w w' _ (simp o.same found)
        (grind (int_laws, o.balance, o.reserved, o.spent));
  closes = λ ws rs w w' r r' h found row o.
      put-Hold n ws rs h w w' _
        (simp (o.same, key_of_lookup (λ x. x.id) r.wallet_id ws found) found)
        (grind (int_laws, o.conserved, o.reserved));
}
