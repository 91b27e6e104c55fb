-- ===== src/Wallets/Operations.antt =====
-- Billing one operation, and its price (app/services/billing.py, `bill_operation` and
-- `calculate_cost`).
use zyntry_backend.Prelude.{
  ℕ, String, ◌≡◌, Option, some, Bool, false, ◌||◌, List, inl, inr, str_eq, if◌then◌else◌, arith,
}
use zyntry_backend.Prelude.Int.{ℤ, pos}
use zyntry_backend.Money.{Decimal}
use zyntry_backend.Rows.{BillingReservation, TransactionType, PricingRule, is_reserved}
use zyntry_backend.Session.{Db, Error, Session, ok, err, Result-cases, Action, ◌>>=◌, reservation}
use zyntry_backend.Tables.{key_of_lookup}
use zyntry_backend.Limits.{Now}
use zyntry_backend.Pricing.{Usage, calculate}
use zyntry_backend.Metered.{ReserveRequest, reserve, settle}
use zyntry_backend.Metered.Idempotent.{settle_finds}

-- `reserve`, and then `settle` of what it returns.
unfoldable pub bill_operation :
    ReserveRequest
    → Decimal
    → Decimal
    → TransactionType
    → Now
    → String
    → String
    → Option Db
    → Action BillingReservation
bill_operation req actual_cost provider_cost type now new_id new_wallet_id raced = do
  r ← reserve req now new_id new_wallet_id raced
  settle now r.id actual_cost provider_cost type

-- The operations that are not charged for each request.
abbrev pub is_metered_alone : String → Bool
is_metered_alone o =
    str_eq o "input_tokens"
    || str_eq o "output_tokens"
    || str_eq o "embeddings"
    || str_eq o "vector_search"
    || str_eq o "storage"

unfoldable pub calculate_cost : List PricingRule → ℕ → String → Option String → String → Usage → ℤ
calculate_cost rows now provider model operation u =
    (calculate rows now provider model
      (record u { requests = if is_metered_alone operation then pos 0 else u.requests })).amount

module _ (req : ReserveRequest) (actual provider_cost : Decimal) (type : TransactionType)
    (now : Now) (i j : String) (raced : Option Db) (s : Session) where
  bill_operation_step :
      (q : BillingReservation)
      → (reserve req now i j raced s).0 ≡ ok q
      → bill_operation req actual provider_cost type now i j raced s
        ≡ settle now q.id actual provider_cost type (reserve req now i j raced s).1
  unfolding bill_operation
  bill_operation_step q made = ground arith

  bill_operation_raises :
      (e : Error) {r : BillingReservation}
      → (reserve req now i j raced s).0 ≡ err e
      → (bill_operation req actual provider_cost type now i j raced s).0 ≡ ok r
      → ⊥
  unfolding bill_operation
  bill_operation_raises e raised done = ground arith

-- An operation that is billed leaves nothing held: what it returns is the row that its reservation is
-- found as afterwards, and that is no longer open.
pub bill_operation-closes :
    (req : ReserveRequest) (actual provider_cost : Decimal) (type : TransactionType) (now : Now)
    (i j : String) (raced : Option Db) (s : Session) {r : BillingReservation}
    → (bill_operation req actual provider_cost type now i j raced s).0 ≡ ok r
    → (reservation r.id (bill_operation req actual provider_cost type now i j raced s).1.working
        ≡ some r)
      × (is_reserved r.status ≡ false)
bill_operation-closes req actual provider_cost type now i j raced s {r = r} done =
    elim (Result-cases (reserve req now i j raced s).0) [
      | inr (e, raised) ↦
          absurd (bill_operation_raises req actual provider_cost type now i j raced s e raised done)
      | inl (q, made) ↦
          let step = bill_operation_step req actual provider_cost type now i j raced s q made in
          let (found, closed) =
            settle_finds now q.id actual provider_cost type (reserve req now i j raced s).1 {r = r}
              (simp step at done) in
          let named =
            key_of_lookup (λ x. x.id) q.id
              (settle now q.id actual provider_cost type
                (reserve req now i j raced s).1).1.working.reservations
              found in
          (simp (step, named) found, closed)
    ]
