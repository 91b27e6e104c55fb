-- ===== src/Usage.antt =====
-- The usage that billed calls leave (app/services/billing.py, `record_usage`): the log, the analytics
-- and the provider's funding. Attributes are as they are assigned, before their columns round them; a
-- provider's cost is an integer of a millionth, as in Funding. Of the
-- published event only the reading of the analytics row is kept.
pub mod Recorded
mod Examples
use zyntry_backend.Prelude.{
  ℕ, ◌+◌, String, Option, none, some, Bool, true, false, not, ◌&&◌, List, [], ◌∷◌, ◌++◌, find,
  str_eq, if◌then◌else◌,
}
use zyntry_backend.Prelude.Int.{ℤ, pos, ltb_ℤ}
use zyntry_backend.Session.{is_some}
use zyntry_backend.Funding.{record_provider_cost}
use zyntry_backend.Funding

-- The arguments of `record_usage`.
pub record UsageRequest : Type 0 where
  pub user_id : String
  pub provider : String
  pub model : String
  pub operation : String
  pub cost : ℤ
  pub organization_id : Option String
  pub project_id : Option String
  pub runtime_id : Option String
  pub api_key_id : Option String
  pub request_id : Option String
  pub input_tokens : ℕ
  pub output_tokens : ℕ
  pub cached_tokens : ℕ
  pub embedding_tokens : ℕ
  pub vector_searches : ℕ
  pub storage_bytes : ℕ
  pub requests : ℕ
  pub latency_ms : Option ℕ
  pub provider_cost : ℤ
  pub platform_markup : ℤ

-- A row of `usage_logs` has the arguments' names and values.
pub record UsageLog : Type 0 where
  pub id : String
  pub attributes : UsageRequest

pub record UsageEvent : Type 0 where
  pub metric : String
  pub quantity : ℕ
  pub model : String
  pub provider : String
  pub project_id : String

pub record UsageStore : Type 0 where
  pub logs : List UsageLog
  pub analytics : List UsageEvent
  pub funding : Funding.Store

abbrev pub is_same : Option String → String → Bool
is_same none r = false
is_same (some x) r = str_eq x r

-- The select on the user and the request.
abbrev pub log_of_request : String → String → List UsageLog → Option UsageLog
log_of_request user request =
    find (λ l. str_eq l.attributes.user_id user && is_same l.attributes.request_id request)

-- The row of an earlier call with the request's id, if it has one that is not empty.
abbrev pub earlier_log : UsageRequest → List UsageLog → Option UsageLog
earlier_log u logs = elim u.request_id [
  | none ↦ none
  | some r ↦ if str_eq r "" then none else log_of_request u.user_id r logs
]

abbrev pub analytics_of : UsageRequest → List UsageEvent
analytics_of u = elim u.project_id [
  | none ↦ []
  | some p ↦
      record {
        metric = "runtime_invocation";
        quantity = u.input_tokens + u.output_tokens + u.embedding_tokens;
        model = u.model;
        provider = u.provider;
        project_id = p;
      }
      ∷ []
]

-- What reaches the funding monitor, which changes nothing where it raises: the session is rolled back
-- to the commit before it.
unfoldable pub funded :
    (String → String) → Bool → String → UsageRequest → Funding.Store → Funding.Store
unfolding record_provider_cost
funded normal raises fresh u s =
    if ltb_ℤ (pos 0) u.provider_cost && not raises
    then (record_provider_cost fresh (normal u.provider) u.provider_cost u.request_id s).1
    else s

-- What a call comes to: a row, or SQLAlchemy's error where an expired attribute is read outside an
-- awaited call.
pub data UsageOutcome : Type 0 where
  returned : UsageLog → UsageOutcome
  missing_greenlet : UsageOutcome

-- The rollback after a monitor that raises expires the analytics row, whose attributes the published
-- event then reads.
abbrev pub reads_expired : Bool → UsageRequest → Bool
reads_expired raises u = ltb_ℤ (pos 0) u.provider_cost && raises && is_some u.project_id

-- `record_usage`, with the id of the row, whether the monitor raises, and a new UUID for it; `normal`
-- is `provider.strip().lower()`.
unfoldable pub record_usage :
    (String → String)
    → String
    → Bool
    → String
    → UsageRequest
    → UsageStore
    → UsageOutcome × UsageStore
unfolding funded
record_usage normal id raises fresh u s = elim (earlier_log u s.logs) [
  | some log ↦ (returned log, s)
  | none ↦
      let log : UsageLog = record { id = id; attributes = u } in
      (
        if reads_expired raises u then missing_greenlet else returned log,
        record {
          logs = s.logs ++ log ∷ [];
          analytics = s.analytics ++ analytics_of u;
          funding = funded normal raises fresh u s.funding;
        },
      )
]
