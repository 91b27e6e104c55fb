-- ===== src/Funding/Examples.antt =====
-- A cost of a monitored account.
use zyntry_backend.Prelude.{◌≡◌, refl, none, some, true, false, [], ◌∷◌, arith}
use zyntry_backend.Prelude.Int.{pos}
use zyntry_backend.Funding.{FundingAccount, manual, unknown, Store, record_provider_cost}
use zyntry_backend.Funding.Costs.{record_provider_cost-once}

abbrev account : FundingAccount
account = record {
  provider = "openai";
  account_label = "OpenAI";
  currency = "usd";
  funding_mode = manual;
  monitor_enabled = true;
  auto_top_up_enabled = false;
  current_balance = none;
  estimated_balance = pos 900;
  minimum_balance = pos 500;
  target_balance = pos 1000;
  max_top_up = pos 0;
  daily_top_up_limit = pos 0;
  status = unknown;
  last_checked_at = none;
  last_error = none;
}

abbrev store : Store
store = record { accounts = account ∷ []; events = [] }

record_provider_cost-once_example :
    (record_provider_cost "f" "openai"
      (pos 9)
      (some "q")
      (record_provider_cost "g" "openai" (pos 450) (some "q") store).1).1
    ≡ (record_provider_cost "g" "openai" (pos 450) (some "q") store).1
record_provider_cost-once_example =
    record_provider_cost-once "g" "f" "openai" "openai" (pos 450) (pos 9) "q" store account refl
      (omega arith) refl
