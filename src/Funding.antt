-- ===== src/Funding.antt =====
-- Provider funding accounts (app/services/provider_funding.py, `ProviderFundingService`). Amounts are
-- integers of the quantum of its `money`, a millionth; the rounding of finer amounts is left out.
-- Each operation commits once, at its end.
pub mod Costs
mod Examples
use zyntry_backend.Prelude.{
  ℕ, String, Option, none, some, Bool, true, false, not, ◌&&◌, ◌||◌, List, [], ◌∷◌, ◌++◌, str_eq,
  str_append, if◌then◌else◌,
}
use zyntry_backend.Prelude.Int.{ℤ, pos, ◌-ℤ◌, ltb_ℤ, leb_ℤ, max_ℤ}
use zyntry_backend.Session.{Error, value_error, Result, ok, err, is_some}
use zyntry_backend.Tables.{lookup, upsert}

pub data FundingMode : Type 0 where
  manual provider_auto_recharge zyntry_managed : FundingMode

pub data FundingStatus : Type 0 where
  unknown healthy low awaiting_recharge funding_unsupported error disabled : FundingStatus

pub record FundingAccount : Type 0 where
  pub provider : String
  pub account_label : String
  pub currency : String
  pub funding_mode : FundingMode
  pub monitor_enabled : Bool
  pub auto_top_up_enabled : Bool
  pub current_balance : Option ℤ
  pub estimated_balance : ℤ
  pub minimum_balance : ℤ
  pub target_balance : ℤ
  pub max_top_up : ℤ
  pub daily_top_up_limit : ℤ
  pub status : FundingStatus
  pub last_checked_at : Option ℕ
  pub last_error : Option String

pub record FundingEvent : Type 0 where
  pub provider : String
  pub event_type : String
  pub status : String
  pub amount : ℤ
  pub balance_after : ℤ
  pub request_id : Option String
  pub idempotency_key : String

pub record Store : Type 0 where
  pub accounts : List FundingAccount
  pub events : List FundingEvent

abbrev pub account_of : String → Store → Option FundingAccount
account_of provider s = lookup (λ a. a.provider) provider s.accounts

abbrev pub put_account : FundingAccount → Store → Store
put_account a s = record s { accounts = upsert (λ a. a.provider) a s.accounts }

abbrev pub add_event : FundingEvent → Store → Store
add_event e s = record s { events = s.events ++ e ∷ [] }

unfoldable pub effective_balance : FundingAccount → ℤ
effective_balance a = elim a.current_balance [ none ↦ a.estimated_balance | some b ↦ b ]

unfoldable pub balance_status : FundingAccount → FundingStatus
unfolding effective_balance
balance_status a = if leb_ℤ (effective_balance a) a.minimum_balance then low else healthy

-- The arguments of `configure`; none for a mode that is not one of the three.
pub record FundingConfig : Type 0 where
  pub provider : String
  pub title : String
  pub account_label : Option String
  pub currency : String
  pub funding_mode : Option FundingMode
  pub monitor_enabled : Bool
  pub auto_top_up_enabled : Bool
  pub current_balance : Option ℤ
  pub estimated_balance : ℤ
  pub minimum_balance : ℤ
  pub target_balance : ℤ
  pub max_top_up : ℤ
  pub daily_top_up_limit : ℤ

abbrev pub label_or : Option String → String → String
label_or none d = d
label_or (some t) d = if str_eq t "" then d else t

abbrev pub is_manual : FundingMode → Bool
is_manual manual = true
is_manual _ = false

abbrev pub balance_or : Option ℤ → ℤ → ℤ
balance_or none d = d
balance_or (some b) d = b

abbrev pub new_account : FundingConfig → FundingMode → FundingAccount
new_account c mode = record {
  provider = c.provider;
  account_label = label_or c.account_label c.title;
  currency = c.currency;
  funding_mode = mode;
  monitor_enabled = c.monitor_enabled;
  auto_top_up_enabled = c.auto_top_up_enabled;
  current_balance = c.current_balance;
  estimated_balance = balance_or c.current_balance c.estimated_balance;
  minimum_balance = c.minimum_balance;
  target_balance = c.target_balance;
  max_top_up = c.max_top_up;
  daily_top_up_limit = c.daily_top_up_limit;
  status = unknown;
  last_checked_at = none;
  last_error = none;
}

abbrev pub changed_account : FundingConfig → FundingMode → FundingAccount → FundingAccount
changed_account c mode a = record a {
  account_label = label_or c.account_label a.account_label;
  currency = c.currency;
  funding_mode = mode;
  monitor_enabled = c.monitor_enabled;
  auto_top_up_enabled = c.auto_top_up_enabled;
  current_balance = elim c.current_balance [ none ↦ a.current_balance | some b ↦ some b ];
  estimated_balance = elim c.current_balance [
    | some b ↦ b
    | none ↦ elim a.current_balance [ none ↦ c.estimated_balance | some b ↦ a.estimated_balance ]
  ];
  minimum_balance = c.minimum_balance;
  target_balance = c.target_balance;
  max_top_up = c.max_top_up;
  daily_top_up_limit = c.daily_top_up_limit;
}

abbrev pub are_bad_thresholds : FundingConfig → Bool
are_bad_thresholds c =
    ltb_ℤ c.minimum_balance (pos 0)
    || ltb_ℤ c.target_balance c.minimum_balance
    || ltb_ℤ c.max_top_up (pos 0)
    || ltb_ℤ c.daily_top_up_limit c.max_top_up

abbrev pub configured : FundingConfig → FundingMode → Option FundingAccount → FundingAccount
configured c mode none = new_account c mode
configured c mode (some a) = changed_account c mode a

-- `configure`, for a provider and a currency in lower case.
unfoldable pub configure : FundingConfig → Store → Result FundingAccount × Store
configure c s = elim c.funding_mode [
  | none ↦ (err (value_error "Unsupported provider funding mode"), s)
  | some mode ↦
      if are_bad_thresholds c
      then (
        err (
            value_error
              "Funding thresholds must satisfy 0 <= minimum <= target and max_top_up <= daily_top_up_limit"),
        s,
      )
      else if c.auto_top_up_enabled && is_manual mode
      then (
        err (
            value_error "Automatic funding requires provider_auto_recharge or zyntry_managed mode"),
        s,
      )
      else (let a = configured c mode (account_of c.provider s) in (ok a, put_account a s))
]

-- `record_provider_cost`: `fresh` is the text of a new UUID.
abbrev pub usage_key : String → Option String → String
usage_key fresh none = str_append "usage:" fresh
usage_key fresh (some r) = if str_eq r "" then str_append "usage:" fresh else str_append "usage:" r

abbrev pub charged : ℤ → FundingAccount → FundingAccount
charged cost a =
    let b = record a {
      estimated_balance = max_ℤ (pos 0) (a.estimated_balance -ℤ cost);
      current_balance = elim a.current_balance [
        | none ↦ none
        | some c ↦ some (max_ℤ (pos 0) (c -ℤ cost))
      ];
    } in
    record b { status = balance_status b }

abbrev pub usage_event : String → Option String → ℤ → FundingAccount → FundingEvent
usage_event key request_id cost a = record {
  provider = a.provider;
  event_type = "usage_cost";
  status = "recorded";
  amount = cost;
  balance_after = a.estimated_balance;
  request_id = request_id;
  idempotency_key = key;
}

abbrev pub has_event : String → Store → Bool
has_event key s = is_some (lookup (λ e. e.idempotency_key) key s.events)

abbrev pub charge_account :
    ℤ → String → Option String → FundingAccount → Store → Option FundingAccount × Store
charge_account cost key request_id a s = if has_event key s then (some a, s) else (
  some (charged cost a),
  add_event (usage_event key request_id cost (charged cost a)) (put_account (charged cost a) s),
)

unfoldable pub record_provider_cost :
    String → String → ℤ → Option String → Store → Option FundingAccount × Store
record_provider_cost fresh provider cost request_id s =
    if leb_ℤ cost (pos 0) then (none, s) else elim (account_of provider s) [
      | none ↦ (none, s)
      | some a ↦ charge_account cost (usage_key fresh request_id) request_id a s
    ]

-- The branches of `check_account` for a balance at or below the minimum: the status, the error and
-- the status of the event.
unfoldable pub low_status : FundingAccount → FundingStatus × String × String
low_status a = elim a.funding_mode [
  | provider_auto_recharge ↦
      if a.auto_top_up_enabled
      then (
        awaiting_recharge,
        "Provider-side auto-recharge must be enabled for this account; Zyntry does not debit customer wallets or store card data.",
        "awaiting_provider_recharge",
      )
      else plain
  | zyntry_managed ↦
      if a.auto_top_up_enabled
      then (
        funding_unsupported,
        "No safe provider top-up adapter is configured. Enable provider-side auto-recharge or add a verified billing adapter.",
        "adapter_required",
      )
      else plain
  | manual ↦ plain
]
  where
    plain : FundingStatus × String × String
    plain = (low, "Provider balance is at or below the configured minimum.", "low_balance")

-- `check_account`, with the time as it is and in ISO format.
unfoldable pub check_account : ℕ → String → FundingAccount → Store → FundingAccount × Store
unfolding low_status effective_balance
check_account at stamp a s =
    let seen = record a { last_checked_at = some at } in
    if not a.monitor_enabled
    then (let b = record seen { status = disabled } in (b, put_account b s))
    else if ltb_ℤ a.minimum_balance (effective_balance a)
    then (let b = record seen { status = healthy; last_error = none } in (b, put_account b s))
    else (let (status, message, event_status) = low_status a in
        let b = record seen { status = status; last_error = some message } in
        (
          b,
          add_event
              (record {
                provider = a.provider;
                event_type = "funding_check";
                status = event_status;
                amount = pos 0;
                balance_after = effective_balance a;
                request_id = none;
                idempotency_key =
                    str_append "check:" (str_append a.provider (str_append ":" stamp));
              })
              (put_account b s),
        ))

-- `reconcile`, with the text of a new UUID.
unfoldable pub reconcile_balance : String → String → ℤ → Store → Result FundingAccount × Store
unfolding balance_status
reconcile_balance fresh provider balance s = elim (account_of provider s) [
  | none ↦ (err (value_error "Provider funding account is not configured"), s)
  | some a ↦
      if ltb_ℤ balance (pos 0)
      then (err (value_error "Provider balance cannot be negative"), s)
      else (let b = record a { current_balance = some balance; estimated_balance = balance } in
          let c = record b { status = balance_status b; last_error = none } in
          (
            ok c,
            add_event
                (record {
                  provider = a.provider;
                  event_type = "balance_reconciled";
                  status = "recorded";
                  amount = balance;
                  balance_after = balance;
                  request_id = none;
                  idempotency_key =
                      str_append "reconcile:" (str_append a.provider (str_append ":" fresh));
                })
                (put_account c s),
          ))
]
