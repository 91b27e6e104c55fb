-- ===== src/Limits.antt =====
-- Spending limits (app/services/metered_billing.py, `SpendingLimitService`).
-- The two values of the calendar that a check reads come from the datetime library, at the call.
pub mod Sound
mod Examples
use zyntry_backend.Prelude.{
  ℕ, ◌-◌, ◌%◌, ◌*◌, String, Option, none, some, Bool, true, false, not, ◌&&◌, List, [], ◌∷◌, ◌++◌,
  leb, keep, str_eq, str_append, if◌then◌else◌,
}
use zyntry_backend.Prelude.Int.{ℤ, ◌+ℤ◌, ltb_ℤ, sum_of}
use zyntry_backend.Money.{of_money, money}
use zyntry_backend.Rows.{
  TransactionType, ai_inference, embedding, reranking, rag, storage, compute, integration, Owner,
  BillingLedger, BillingReservation, SpendingLimit, is_reserved, is_settled,
}
use zyntry_backend.Session.{Db, Error, spending_limit}

-- `datetime.now(UTC)`, and that time with the day set to 1 and the time of day to 0.
pub record Now : Type 0 where
  pub at : ℕ
  pub month_start : ℕ

abbrev pub day : ℕ
day = 24 * 3600 * 1000000

-- `SPENDING_TRANSACTION_TYPES`.
abbrev pub is_spending : TransactionType → Bool
is_spending ai_inference = true
is_spending embedding = true
is_spending reranking = true
is_spending rag = true
is_spending storage = true
is_spending compute = true
is_spending integration = true
is_spending _ = false

pub data Scope : Type 0 where
  user organization project runtime api_key : Scope

abbrev pub scope_name : Scope → String
scope_name user = "user"
scope_name organization = "organization"
scope_name project = "project"
scope_name runtime = "runtime"
scope_name api_key = "api_key"

-- `getattr(row, f"{scope}_id")`.
abbrev pub scope_id : Scope → Owner → Option String
scope_id user o = some o.user_id
scope_id organization o = o.organization_id
scope_id project o = o.project_id
scope_id runtime o = o.runtime_id
scope_id api_key o = o.api_key_id

abbrev pub is_in : Scope → String → Owner → Bool
is_in scope i o = elim (scope_id scope o) [ none ↦ false | some j ↦ str_eq j i ]

unfoldable pub period_start : String → Now → ℕ
period_start period now =
    if str_eq period "daily"
    then now.at - now.at % day
    else if str_eq period "monthly"
    then now.month_start
    else 0

abbrev pub counts_as_spent : Scope → String → ℕ → BillingLedger → Bool
counts_as_spent scope i start l =
    is_settled l.status
    && is_spending l.transaction_type
    && leb start l.created_at
    && is_in scope i l.owner

unfoldable pub spent : Scope → String → ℕ → Db → ℤ
spent scope i start db = sum_of (λ l. l.amount) (keep (counts_as_spent scope i start) db.ledger)

-- `BillingReservation.id != exclude_reservation_id`, where one is given.
abbrev pub is_excluded : Option String → BillingReservation → Bool
is_excluded none r = false
is_excluded (some i) r = str_eq r.id i

abbrev pub counts_as_reserved : Scope → String → ℕ → Option String → BillingReservation → Bool
counts_as_reserved scope i start exclude r =
    is_reserved r.status
    && leb start r.created_at
    && is_in scope i r.owner
    && not (is_excluded exclude r)

unfoldable pub reserved_in : Scope → String → ℕ → Option String → Db → ℤ
reserved_in scope i start exclude db =
    sum_of (λ r. r.estimated_amount)
      (keep (counts_as_reserved scope i start exclude) db.reservations)

unfoldable pub projected : ℤ → Now → Option String → Db → Scope → String → String → ℤ
unfolding spent reserved_in period_start
projected amount now exclude db scope i period =
    let start = period_start period now in
    spent scope i start db +ℤ reserved_in scope i start exclude db +ℤ amount

-- The select of `check`: the active limits of one scope.
unfoldable pub limits_of : Scope → String → List SpendingLimit → List SpendingLimit
limits_of scope i =
    keep (λ l. str_eq l.scope_type (scope_name scope) && str_eq l.scope_id i && l.active)

-- `SpendingLimitError` rounds what it reports.
abbrev pub spending_limit_error : Scope → SpendingLimit → ℤ → Error
spending_limit_error scope l p =
    spending_limit (str_append (scope_name scope) (str_append " " l.period))
      (money (of_money l.amount)) (money (of_money p))

module _ (amount : ℤ) (owner : Owner) (now : Now) (exclude : Option String) (db : Db) where
  -- The loop over the limits of one scope: the first one that would be passed raises.
  unfoldable pub check_limits : Scope → String → List SpendingLimit → Option Error
  check_limits scope i [] = none
  check_limits scope i (l ∷ ls) =
      let rest = check_limits scope i ls in
      let p = projected amount now exclude db scope i l.period in
      if ltb_ℤ l.amount p then some (spending_limit_error scope l p) else rest

  -- The scopes that are given, in the source's order.
  unfoldable pub check_scopes : List Scope → Option Error
  unfolding check_limits
  check_scopes [] = none
  check_scopes (scope ∷ scopes) =
      let rest = check_scopes scopes in
      elim (scope_id scope owner) [
        | none ↦ rest
        | some i ↦ elim (check_limits scope i (limits_of scope i db.limits)) [
          | none ↦ rest
          | some e ↦ some e
        ]
      ]

  -- `check`: the error that it raises, if any.
  unfoldable pub check : Option Error
  unfolding check_scopes
  check = check_scopes (user ∷ organization ∷ project ∷ runtime ∷ api_key ∷ [])
