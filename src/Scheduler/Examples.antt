-- ===== src/Scheduler/Examples.antt =====
-- A job that fails and is retried.
use zyntry_backend.Prelude.{◌≤◌, ◌≡◌, refl, none, some, List, [], ◌∷◌, max}
use zyntry_backend.Scheduler.{SyncJob, retried, retry_job}
use zyntry_backend.Scheduler.Retries.{Step, ended, asked, after, retry_count-bounded}

abbrev job : SyncJob
job = record {
  id = "j";
  source_id = "s";
  status = "failed";
  retry_count = 0;
  error_message = some "timeout";
  retry_after = none;
}

abbrev steps : List Step
steps = asked 1 ∷ ended "failed" ∷ asked 90000000 ∷ []

retry_count-bounded_example :
    ((after 3 steps job).retry_count ≤ max 3 0) × (0 ≤ (after 3 steps job).retry_count)
retry_count-bounded_example = retry_count-bounded 3 steps job

retried_once : (retry_job 3 7 job).0 ≡ retried
unfolding retry_job
retried_once = refl
