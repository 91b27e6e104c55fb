-- ===== src/Scheduler.antt =====
-- The synchronisation schedules and the retries of failed jobs (app/services/scheduler.py,
-- `SchedulerService`). Times are microseconds.
pub mod Retries
mod Examples
use zyntry_backend.Prelude.{
  ℕ, suc, ◌+◌, ◌*◌, String, Option, none, some, Bool, true, false, not, ◌&&◌, ◌||◌, List, [], ◌∷◌,
  ◌++◌, ltb, leb, ◌==◌, keep, str_eq, if◌then◌else◌,
}
use zyntry_backend.Session.{Error, value_error, Result, ok, err}
use zyntry_backend.Tables.{lookup, replace}

pub record SyncSchedule : Type 0 where
  pub id : String
  pub source_id : String
  pub project_id : String
  pub frequency : String
  pub status : String
  pub last_run_at : Option ℕ
  pub next_run_at : Option ℕ
  pub retry_count : ℕ

pub record KnowledgeSource : Type 0 where
  pub id : String
  pub project_id : String
  pub is_active : Bool

pub record SyncJob : Type 0 where
  pub id : String
  pub source_id : String
  pub status : String
  pub retry_count : ℕ
  pub error_message : Option String
  pub retry_after : Option ℕ

abbrev pub minutes : ℕ → ℕ
minutes n = n * 60 * 1000000

abbrev pub hours : ℕ → ℕ
hours n = minutes (n * 60)

-- `_calculate_next_run`
unfoldable pub calculate_next_run : String → ℕ → Option ℕ
calculate_next_run frequency from_time =
    if str_eq frequency "hourly"
    then some (from_time + hours 1)
    else if str_eq frequency "daily"
    then some (from_time + hours 24)
    else if str_eq frequency "weekly"
    then some (from_time + hours 168)
    else if str_eq frequency "manual"
    then none
    else if str_eq frequency "priority"
    then some from_time
    else if str_eq frequency "incremental"
    then some (from_time + hours 1)
    else none

abbrev pub is_frequency : String → Bool
is_frequency f =
    str_eq f "hourly"
    || str_eq f "daily"
    || str_eq f "weekly"
    || str_eq f "manual"
    || str_eq f "priority"
    || str_eq f "incremental"

abbrev pub new_schedule : String → ℕ → KnowledgeSource → String → SyncSchedule
new_schedule new_id now source frequency = record {
  id = new_id;
  source_id = source.id;
  project_id = source.project_id;
  frequency = frequency;
  status = "active";
  last_run_at = none;
  next_run_at = calculate_next_run frequency now;
  retry_count = 0;
}

-- `schedule_sync`, with the id of the new row.
unfoldable pub schedule_sync :
    String
    → ℕ
    → String
    → String
    → List KnowledgeSource
    → List SyncSchedule
    → Result SyncSchedule × List SyncSchedule
schedule_sync new_id now source_id frequency sources schedules =
    elim (lookup (λ s. s.id) source_id sources) [
      | none ↦ (err (value_error "Knowledge source not found"), schedules)
      | some source ↦
          if is_frequency frequency
          then (let row = new_schedule new_id now source frequency in
              (ok row, schedules ++ row ∷ []))
          else (err (value_error "Invalid frequency"), schedules)
    ]

-- An entry of `triggered`, with the job where the synchronisation was started.
pub record Triggered : Type 0 where
  pub source_id : String
  pub job_id : Option String

-- `schedule.next_run_at` is there and not after now, and its source is active.
abbrev pub is_due : ℕ → List KnowledgeSource → SyncSchedule → Bool
is_due now sources s =
    str_eq s.status "active"
    && elim s.next_run_at [ none ↦ false | some at ↦ leb at now ]
    && elim (lookup (λ k. k.id) s.source_id sources) [ none ↦ false | some k ↦ k.is_active ]

abbrev pub ran : ℕ → SyncSchedule → SyncSchedule
ran now s = record s { last_run_at = some now; next_run_at = calculate_next_run s.frequency now }

-- `run_pending`. `sync` is the id of the job that `sync_source` starts, or none where it raises.
unfoldable pub run_pending :
    (SyncSchedule → Option String)
    → ℕ
    → List KnowledgeSource
    → List SyncSchedule
    → List Triggered × List SyncSchedule
run_pending sync now sources [] = ([], [])
run_pending sync now sources (s ∷ ss) =
    let (triggered, rest) = run_pending sync now sources ss in
    if is_due now sources s
    then elim (sync s) [
      | some job ↦
          (record { source_id = s.source_id; job_id = some job } ∷ triggered, ran now s ∷ rest)
      | none ↦ (record { source_id = s.source_id; job_id = none } ∷ triggered, s ∷ rest)
    ]
    else (triggered, s ∷ rest)

-- `_backoff_delay`
unfoldable pub backoff_delay : ℕ → ℕ
backoff_delay retry_count = if retry_count == 0 then 1 else if retry_count == 1 then 5 else 25

pub data RetryStatus : Type 0 where
  not_found not_failed max_retries_exceeded waiting_for_backoff retried : RetryStatus

abbrev pub is_waiting : ℕ → SyncJob → Bool
is_waiting now j = elim j.retry_after [ none ↦ false | some after ↦ ltb now after ]

unfoldable pub requeued : ℕ → SyncJob → SyncJob
unfolding backoff_delay
requeued now j = record j {
  retry_count = j.retry_count + 1;
  status = "queued";
  error_message = none;
  retry_after = some (now + minutes (backoff_delay j.retry_count));
}

-- What `retry_sync_job` does with the job that it finds.
unfoldable pub retry_job : ℕ → ℕ → SyncJob → RetryStatus × SyncJob
unfolding requeued
retry_job max_retries now j =
    if not (str_eq j.status "failed")
    then (not_failed, j)
    else if leb max_retries j.retry_count
    then (max_retries_exceeded, j)
    else if is_waiting now j
    then (waiting_for_backoff, j)
    else (retried, requeued now j)

unfoldable pub retry_sync_job : ℕ → ℕ → String → List SyncJob → RetryStatus × List SyncJob
unfolding retry_job
retry_sync_job max_retries now job_id jobs = elim (lookup (λ j. j.id) job_id jobs) [
  | none ↦ (not_found, jobs)
  | some j ↦ let (status, j') = retry_job max_retries now j in (status, replace (λ x. x.id) j' jobs)
]

abbrev pub may_retry : ℕ → SyncJob → Bool
may_retry max_retries j = str_eq j.status "failed" && ltb j.retry_count max_retries

-- `retry_failed`: the entries of `retried`, each with its status, and the jobs.
unfoldable pub retry_failed : ℕ → ℕ → List SyncJob → List (String × RetryStatus) × List SyncJob
unfolding requeued
retry_failed max_retries now [] = ([], [])
retry_failed max_retries now (j ∷ js) =
    let (entries, rest) = retry_failed max_retries now js in
    if may_retry max_retries j
    then (if is_waiting now j
        then ((j.id, waiting_for_backoff) ∷ entries, j ∷ rest)
        else ((j.id, retried) ∷ entries, requeued now j ∷ rest))
    else (entries, j ∷ rest)
