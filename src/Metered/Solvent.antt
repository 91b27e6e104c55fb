-- ===== src/Metered/Solvent.antt =====
-- No call of the engine makes a balance or the amount of a reservation negative.
use zyntry_backend.Prelude.{List, arith, All}
use zyntry_backend.Prelude.Int.{pos, ◌≤ℤ◌}
use zyntry_backend.Rows.{Wallet, BillingReservation}
use zyntry_backend.Tables.Every.{All-replace, All-snoc, All_at}
use zyntry_backend.Metered.{new_wallet}
use zyntry_backend.Metered.Moves.{IsKept}
use zyntry_backend.Metered.Consistent.{IsConsistent, IsConsistent-kept}

abbrev pub HasFunds : Wallet → Type 0
HasFunds w = pos 0 ≤ℤ w.balance

abbrev pub HasAmount : BillingReservation → Type 0
HasAmount r = pos 0 ≤ℤ r.estimated_amount

pub record IsSolvent (ws : List Wallet) (rs : List BillingReservation) : Type 0 where
  pub consistent : IsConsistent ws rs
  pub balances : All HasFunds ws
  pub amounts : All HasAmount rs

pub IsSolvent-kept : IsKept IsSolvent
IsSolvent-kept = record {
  ids = λ ws rs h. h.consistent.wallet_ids;
  adds = λ ws rs i u h fresh. record {
    consistent = IsConsistent-kept.adds ws rs i u h.consistent fresh;
    balances = All-snoc HasFunds ws (new_wallet i u) h.balances (omega arith);
    amounts = h.amounts;
  };
  opens = λ ws rs w w' r h found fresh o. record {
    consistent = IsConsistent-kept.opens ws rs w w' r h.consistent found fresh o;
    balances = All-replace (λ x. x.id) HasFunds w' ws h.balances o.stays_nonneg;
    amounts = All-snoc HasAmount rs r h.amounts (omega (arith, o.positive));
  };
  closes = λ ws rs w w' r r' h found row o.
      let b = All_at (λ x. x.id) HasFunds r.wallet_id ws h.balances found in
      let a = All_at (λ x. x.id) HasAmount r.id rs h.amounts row in
      record {
        consistent = IsConsistent-kept.closes ws rs w w' r r' h.consistent found row o;
        balances = All-replace (λ x. x.id) HasFunds w' ws h.balances (o.stays_nonneg b a);
        amounts = All-replace (λ x. x.id) HasAmount r' rs h.amounts (o.amount_nonneg a);
      };
}
