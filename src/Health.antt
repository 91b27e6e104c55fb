-- ===== src/Health.antt =====
-- Provider health and failover (app/services/provider_health.py, `ProviderHealth` and
-- `FailoverManager`). `normal` is `provider.strip().lower()`, times are microseconds of the monotonic
-- clock, and the wall-clock time of the last check is left out.
pub mod Streaks
pub mod Failover
mod Examples
use zyntry_backend.Prelude.{
  ℕ, suc, ◌+◌, ◌*◌, String, Option, none, some, Bool, true, false, not, ◌&&◌, ◌||◌, List, [], ◌∷◌,
  ◌++◌, leb, max, keep, str_eq, str_append, if◌then◌else◌,
}
use zyntry_backend.Tables.{lookup, upsert}

pub record ProviderHealthState : Type 0 where
  pub provider : String
  pub consecutive_failures : ℕ
  pub total_failures : ℕ
  pub total_successes : ℕ
  pub last_latency_ms : Option ℕ
  pub last_error : Option String
  pub unhealthy_until : Option ℕ

-- The settings of a `ProviderHealth`.
pub record Config : Type 0 where
  pub failure_threshold : ℕ
  pub cooldown_seconds : ℕ

-- The settings that the constructor keeps.
abbrev pub config_of : Config → Config
config_of c = record {
  failure_threshold = max 1 c.failure_threshold;
  cooldown_seconds = max 1 c.cooldown_seconds;
}

-- `ProviderHealthState.available`
abbrev pub available : ℕ → ProviderHealthState → Bool
available now s = elim s.unhealthy_until [ none ↦ true | some until ↦ leb until now ]

abbrev pub new_state : String → ProviderHealthState
new_state name = record {
  provider = name;
  consecutive_failures = 0;
  total_failures = 0;
  total_successes = 0;
  last_latency_ms = none;
  last_error = none;
  unhealthy_until = none;
}

abbrev pub state_or_new : String → Option ProviderHealthState → ProviderHealthState
state_or_new name none = new_state name
state_or_new name (some s) = s

-- The updates of `record_success` and `record_failure`.
abbrev pub after_success : Option ℕ → ProviderHealthState → ProviderHealthState
after_success latency_ms s = record s {
  consecutive_failures = 0;
  total_successes = s.total_successes + 1;
  last_latency_ms = latency_ms;
  last_error = none;
  unhealthy_until = none;
}

abbrev pub after_failure : Config → ℕ → String → ProviderHealthState → ProviderHealthState
after_failure config now error s = record s {
  consecutive_failures = s.consecutive_failures + 1;
  total_failures = s.total_failures + 1;
  last_error = some error;
  unhealthy_until =
      if leb config.failure_threshold (s.consecutive_failures + 1)
      then some (now + config.cooldown_seconds * 1000000)
      else s.unhealthy_until;
}

module _ (normal : String → String) where
  -- The state that `_get` returns; it adds a new one to the dictionary where there is none.
  unfoldable pub state_of : String → List ProviderHealthState → ProviderHealthState
  state_of provider states =
      state_or_new (normal provider) (lookup (λ s. s.provider) (normal provider) states)

  abbrev pub put : ProviderHealthState → List ProviderHealthState → List ProviderHealthState
  put = upsert (λ s. s.provider)

  unfoldable pub is_available :
      ℕ → String → List ProviderHealthState → Bool × List ProviderHealthState
  is_available now provider states =
      let s = state_of provider states in (available now s, put s states)

  unfoldable pub record_success :
      String → Option ℕ → List ProviderHealthState → List ProviderHealthState
  record_success provider latency_ms states =
      put (after_success latency_ms (state_of provider states)) states

  -- `error` is the first 500 characters of the error's text.
  unfoldable pub record_failure :
      Config → ℕ → String → String → List ProviderHealthState → List ProviderHealthState
  record_failure config now provider error states =
      put (after_failure config now error (state_of provider states)) states

  -- `reset`
  unfoldable pub reset : Option String → List ProviderHealthState → List ProviderHealthState
  reset none states = []
  reset (some provider) states = keep (λ s. not (str_eq s.provider (normal provider))) states

  abbrev pub redis_key : String → String
  redis_key provider = str_append "zyntry:provider_health:" (normal provider)

  -- `blocked` is what Redis holds under a key, or none where it does not answer in time.
  unfoldable pub is_available_async :
      Option (String → Option Bool)
      → ℕ
      → String
      → List ProviderHealthState
      → Bool × List ProviderHealthState
  is_available_async none now provider states = is_available now provider states
  is_available_async (some blocked) now provider states =
      let (here, next) = is_available now provider states in
      (here && elim (blocked (redis_key provider)) [ none ↦ true | some b ↦ not b ], next)

  -- `FailoverManager.eligible`, for the candidates' provider names.
  unfoldable pub eligible :
      ℕ → List String → List ProviderHealthState → List String × List ProviderHealthState
  eligible now [] states = ([], states)
  eligible now (c ∷ cs) states =
      let (here, next) = is_available now c states in
      let (rest, last) = eligible now cs next in (if here then c ∷ rest else rest, last)
