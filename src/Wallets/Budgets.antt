-- ===== src/Wallets/Budgets.antt =====
-- Budgets (app/services/billing.py, `check_budget`, `check_auto_top_up`, `create_or_update_budget` and
-- `update_budget`).
use zyntry_backend.Prelude.{
  String, Option, none, some, Bool, true, false, not, ◌&&◌, [], ◌∷◌, ◌++◌, if◌then◌else◌,
}
use zyntry_backend.Prelude.Int.{ℤ, pos, ◌+ℤ◌, ltb_ℤ, leb_ℤ, eqb_ℤ}
use zyntry_backend.Rows.{Wallet, Budget}
use zyntry_backend.Session.{
  Action, pure, gets, ◌>>=◌, ◌>>◌, modify, commit, budget_of_user, put_budget,
}
use zyntry_backend.Wallets.{
  Fresh, BudgetEvent, limit_reached, warning_90, warning_80, get_wallet, send_budget_notification,
  reaches_tenths,
}

-- One flag of `check_budget`: set, committed and announced unless it is set already.
abbrev pub flag_budget : Bool → String → BudgetEvent → Budget → Action Budget
flag_budget true u event b = pure b
flag_budget false u event b = do
  modify (put_budget b)
  commit
  send_budget_notification u event
  pure b

abbrev pub warn : Bool → Bool → String → BudgetEvent → Budget → Budget → Action Budget
warn reached sent u event b flagged =
    if reached && not sent then flag_budget false u event flagged else pure b

unfoldable pub check_limit : String → ℤ → ℤ → Budget → Action Bool
unfolding send_budget_notification
check_limit u limit projected b =
    if leb_ℤ limit projected
    then flag_budget b.limit_reached u limit_reached (record b { limit_reached = true })
      >> pure false
    else (do
      b ←
          warn (reaches_tenths 9 limit projected) b.warning_90_sent u warning_90 b
            (record b { warning_90_sent = true })
      warn (reaches_tenths 8 limit projected) b.warning_80_sent u warning_80 b
          (record b { warning_80_sent = true })
      pure true)

abbrev pub check_budget_row : String → ℤ → Option Budget → Action Bool
check_budget_row u estimated none = pure true
check_budget_row u estimated (some b) = elim b.monthly_limit [
  | none ↦ pure true
  | some limit ↦ check_limit u limit (b.current_spend +ℤ estimated) b
]

unfoldable pub check_budget : String → ℤ → Action Bool
check_budget u estimated = do budget ← gets (budget_of_user u); check_budget_row u estimated budget

-- `not budget.auto_top_up_threshold`, where zero counts as none.
abbrev pub amount_given : Option ℤ → Bool
amount_given none = false
amount_given (some n) = not (eqb_ℤ n (pos 0))

abbrev pub below_threshold : Budget → Wallet → Bool
below_threshold b w = elim b.auto_top_up_threshold [ none ↦ false | some n ↦ ltb_ℤ w.balance n ]

abbrev pub needs_top_up : Fresh → String → Option Budget → Action Bool
needs_top_up f u none = pure false
needs_top_up f u (some b) =
    if b.auto_top_up_enabled
      && amount_given b.auto_top_up_threshold
      && amount_given b.auto_top_up_amount
    then (do w ← get_wallet f u; pure (below_threshold b w))
    else pure false

-- Whether a top-up was queued.
unfoldable pub check_auto_top_up : Fresh → String → Action Bool
unfolding get_wallet
check_auto_top_up f u = do budget ← gets (budget_of_user u); needs_top_up f u budget

pub record BudgetCreate : Type 0 where
  pub monthly_limit : ℤ
  pub auto_top_up_enabled : Bool
  pub auto_top_up_threshold : Option ℤ
  pub auto_top_up_amount : Option ℤ

pub record BudgetUpdate : Type 0 where
  pub monthly_limit : Option ℤ
  pub auto_top_up_enabled : Option Bool
  pub auto_top_up_threshold : Option ℤ
  pub auto_top_up_amount : Option ℤ

abbrev pub created_budget : String → String → BudgetCreate → Budget
created_budget new_id u body = record {
  id = new_id;
  user_id = u;
  monthly_limit = some body.monthly_limit;
  current_spend = pos 0;
  warning_80_sent = false;
  warning_90_sent = false;
  limit_reached = false;
  auto_top_up_enabled = body.auto_top_up_enabled;
  auto_top_up_threshold = body.auto_top_up_threshold;
  auto_top_up_amount = body.auto_top_up_amount;
}

abbrev pub replaced_budget : BudgetCreate → Budget → Budget
replaced_budget body b = record b {
  monthly_limit = some body.monthly_limit;
  auto_top_up_enabled = body.auto_top_up_enabled;
  auto_top_up_threshold = body.auto_top_up_threshold;
  auto_top_up_amount = body.auto_top_up_amount;
}

abbrev pub save_budget : String → String → BudgetCreate → Option Budget → Action Budget
save_budget new_id u body none = do
  modify (λ db. record db { budgets = db.budgets ++ created_budget new_id u body ∷ [] })
  commit
  pure (created_budget new_id u body)
save_budget new_id u body (some b) = do
  modify (put_budget (replaced_budget body b))
  commit
  pure (replaced_budget body b)

unfoldable pub create_or_update_budget : String → String → BudgetCreate → Action Budget
create_or_update_budget new_id u body = do
  existing ← gets (budget_of_user u)
  save_budget new_id u body existing

-- `model_dump(exclude_none=True)`: a field that is not given keeps its value.
abbrev pub or_keep : {A : Type 0} → Option A → A → A
or_keep none a = a
or_keep (some b) a = b

abbrev pub or_keep_option : {A : Type 0} → Option A → Option A → Option A
or_keep_option none a = a
or_keep_option (some b) a = some b

abbrev pub updated_budget : BudgetUpdate → Budget → Budget
updated_budget body b = record b {
  monthly_limit = or_keep_option body.monthly_limit b.monthly_limit;
  auto_top_up_enabled = or_keep body.auto_top_up_enabled b.auto_top_up_enabled;
  auto_top_up_threshold = or_keep_option body.auto_top_up_threshold b.auto_top_up_threshold;
  auto_top_up_amount = or_keep_option body.auto_top_up_amount b.auto_top_up_amount;
}

abbrev pub patch_budget : BudgetUpdate → Option Budget → Action (Option Budget)
patch_budget body none = pure none
patch_budget body (some b) = do
  modify (put_budget (updated_budget body b))
  commit
  pure (some (updated_budget body b))

unfoldable pub update_budget : String → BudgetUpdate → Action (Option Budget)
update_budget u body = do budget ← gets (budget_of_user u); patch_budget body budget
