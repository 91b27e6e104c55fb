-- ===== src/Samples.antt =====
-- Concrete rows and sessions for the tests.
use zyntry_backend.Prelude.{none, true, [], ◌∷◌}
use zyntry_backend.Prelude.Int.{pos}
use zyntry_backend.Money.{Decimal}
use zyntry_backend.Rows.{Wallet, active, PricingRule, SpendingLimit}
use zyntry_backend.Session.{Db, Session}
use zyntry_backend.Limits.{Now}
use zyntry_backend.Wallets.{Fresh, user_owner}
use zyntry_backend.Metered.{ReserveRequest}

abbrev pub wallet_row : Wallet
wallet_row = record {
  id = "w";
  user_id = "u";
  balance = pos 1000000;
  reserved_balance = pos 0;
  total_spent = pos 0;
  total_topups = pos 1000000;
  currency = "usd";
  status = active;
}

abbrev pub rule_row : PricingRule
rule_row = record {
  id = "p";
  provider = "*";
  operation = "input_tokens";
  model = none;
  price_per_unit = record { coefficient = pos 3; places = 6 };
  markup = record { coefficient = pos 2; places = 1 };
  effective_from = 0;
  effective_until = none;
  version = 1;
  active = true;
  created_at = 0;
}

abbrev pub limit_row : SpendingLimit
limit_row = record {
  scope_type = "user";
  scope_id = "u";
  period = "daily";
  amount = pos 500000;
  active = true;
}

abbrev pub db : Db
db = record {
  wallets = wallet_row ∷ [];
  wallet_transactions = [];
  reservations = [];
  ledger = [];
  budgets = [];
  limits = limit_row ∷ [];
  pricing_rules = rule_row ∷ [];
  notifications = [];
}

abbrev pub session : Session
session = record { committed = db; working = db }

abbrev pub now : Now
now = record { at = 1000; month_start = 0 }

abbrev pub five : Decimal
five = record { coefficient = pos 5; places = 0 }

abbrev pub three : Decimal
three = record { coefficient = pos 3; places = 0 }

abbrev pub reserve_five : ReserveRequest
reserve_five = record {
  owner = user_owner "u";
  amount = five;
  request_id = "q";
  idempotency_key = "k";
  resource_type = "runtime_execution";
  ttl_seconds = pos 900;
}

abbrev pub fresh : Fresh
fresh = record { now = now; wallet_id = "w9"; transaction_id = "t"; raced = none }
