-- ===== src/Scheduler/Retries.antt =====
-- How often and how soon a failed job is retried.
use zyntry_backend.Prelude.{ℕ, ◌+◌, ◌≤◌, ◌<◌, String, ◌≡◌, refl, List, [], ◌∷◌, map, arith, max}
use zyntry_backend.Scheduler.{
  SyncJob, retried, waiting_for_backoff, minutes, backoff_delay, retry_job, retry_failed,
}

-- What happens to a job: a worker ends it with a status, or a retry is asked for.
pub data Step : Type 0 where
  ended : String → Step
  asked : ℕ → Step

module _ (max_retries : ℕ) where
  unfoldable pub after : List Step → SyncJob → SyncJob
  after [] j = j
  after (ended status ∷ ss) j = after ss (record j { status = status })
  after (asked now ∷ ss) j = after ss (retry_job max_retries now j).1

  -- Whatever ends and retries follow one another, a job is retried no more often than the maximum,
  -- unless its count was above it before, and its count never falls.
  pub retry_count-bounded :
      (ss : List Step) (j : SyncJob)
      → ((after ss j).retry_count ≤ max max_retries j.retry_count)
        × (j.retry_count ≤ (after ss j).retry_count)
  unfolding after retry_job
  retry_count-bounded [] j = ground arith
  retry_count-bounded (ended status ∷ ss) j = retry_count-bounded ss (record j { status = status })
  retry_count-bounded (asked now ∷ ss) j =
      ground (arith, retry_count-bounded ss (retry_job max_retries now j).1)

  -- The retry of every failed job does to each job what the retry of that job alone does.
  pub retry_failed-each :
      (now : ℕ) (js : List SyncJob)
      → (retry_failed max_retries now js).1 ≡ map (λ j. (retry_job max_retries now j).1) js
  unfolding retry_failed retry_job
  retry_failed-each now [] = refl
  retry_failed-each now (j ∷ js) = ground (arith, retry_failed-each now js)

-- After a retry that requeued a job, when the job has failed again, a retry within the backoff of one,
-- five or, from the third retry on, twenty-five minutes leaves it failed and says that it waits,
-- unless it has used up its retries.
pub retry_job-waits :
    (max_retries now later : ℕ) (j : SyncJob)
    → (retry_job max_retries now j).0 ≡ retried
    → later < now + minutes (backoff_delay j.retry_count)
    → j.retry_count + 1 < max_retries
    → retry_job max_retries later (record (retry_job max_retries now j).1 { status = "failed" })
      ≡ (waiting_for_backoff, record (retry_job max_retries now j).1 { status = "failed" })
unfolding retry_job
retry_job-waits max_retries now later j done soon left = ground arith
