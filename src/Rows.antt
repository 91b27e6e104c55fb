-- ===== src/Rows.antt =====
-- The billing rows (app/models/billing.py). A UUID is its text, as `str(id)` gives it; a time is a
-- number of microseconds since the epoch; an amount in a `Numeric(12, 4)` column is an integer of the
-- column's quantum. The JSON metadata, `updated_at` and the ledger's own id are left out: the
-- services only store them.
use zyntry_backend.Prelude.{ℕ, String, Bool, true, false, Option}
use zyntry_backend.Prelude.Int.{ℤ}
use zyntry_backend.Money.{Decimal}

pub data WalletStatus : Type 0 where
  active suspended closed : WalletStatus

pub data TransactionType : Type 0 where
  credit debit refund topup reservation ai_inference embedding reranking rag : TransactionType
  storage compute integration reversal adjustment : TransactionType

pub data RowStatus : Type 0 where
  reserved settled released : RowStatus

pub record Wallet : Type 0 where
  pub id : String
  pub user_id : String
  pub balance : ℤ
  pub reserved_balance : ℤ
  pub total_spent : ℤ
  pub total_topups : ℤ
  pub currency : String
  pub status : WalletStatus

pub record WalletTransaction : Type 0 where
  pub id : String
  pub wallet_id : String
  pub type : TransactionType
  pub amount : ℤ
  pub balance_before : ℤ
  pub balance_after : ℤ
  pub reason : String
  pub reference_id : Option String

pub record PricingRule : Type 0 where
  pub id : String
  pub provider : String
  pub operation : String
  pub model : Option String
  pub price_per_unit : Decimal
  pub markup : Decimal
  pub effective_from : ℕ
  pub effective_until : Option ℕ
  pub version : ℕ
  pub active : Bool
  pub created_at : ℕ

pub record Budget : Type 0 where
  pub id : String
  pub user_id : String
  pub monthly_limit : Option ℤ
  pub current_spend : ℤ
  pub warning_80_sent : Bool
  pub warning_90_sent : Bool
  pub limit_reached : Bool
  pub auto_top_up_enabled : Bool
  pub auto_top_up_threshold : Option ℤ
  pub auto_top_up_amount : Option ℤ

-- The five columns that say whom a ledger row or a reservation is charged to.
pub record Owner : Type 0 where
  pub user_id : String
  pub organization_id : Option String
  pub project_id : Option String
  pub runtime_id : Option String
  pub api_key_id : Option String

pub record BillingLedger : Type 0 where
  pub transaction_type : TransactionType
  pub owner : Owner
  pub request_id : Option String
  pub idempotency_key : String
  pub resource_type : String
  pub resource_id : Option String
  pub amount : ℤ
  pub currency : String
  pub provider_cost : ℤ
  pub platform_markup : ℤ
  pub status : RowStatus
  pub created_at : ℕ

pub record BillingReservation : Type 0 where
  pub id : String
  pub wallet_id : String
  pub owner : Owner
  pub request_id : String
  pub idempotency_key : String
  pub estimated_amount : ℤ
  pub settled_amount : Option ℤ
  pub released_amount : ℤ
  pub currency : String
  pub status : RowStatus
  pub resource_type : String
  pub expires_at : ℕ
  pub created_at : ℕ

-- A notification (app/models/notifications.py), less its message and data.
pub record Notification : Type 0 where
  pub user_id : String
  pub type : String
  pub title : String

pub record SpendingLimit : Type 0 where
  pub scope_type : String
  pub scope_id : String
  pub period : String
  pub amount : ℤ
  pub active : Bool

abbrev pub status_name : WalletStatus → String
status_name active = "active"
status_name suspended = "suspended"
status_name closed = "closed"

abbrev pub is_active : WalletStatus → Bool
is_active active = true
is_active _ = false

-- `status == "reserved"` and `status == "settled"`.
abbrev pub is_reserved : RowStatus → Bool
is_reserved reserved = true
is_reserved _ = false

abbrev pub is_settled : RowStatus → Bool
is_settled settled = true
is_settled _ = false
