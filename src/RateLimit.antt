-- ===== src/RateLimit.antt =====
-- The rate limiters (app/middleware/rate_limit.py). Times are microseconds, so a window of `w` seconds
-- is `w * 1000000`; a limit below zero acts as zero does.
pub mod Window
pub mod Outage
mod Examples
use zyntry_backend.Prelude.{
  ℕ, ◌+◌, ◌*◌, ◌-◌, String, Option, none, some, Bool, true, false, not, ◌&&◌, List, [], ◌∷◌, ◌++◌,
  leb, ltb, length, keep, if◌then◌else◌,
}
use zyntry_backend.Tables.{lookup, upsert}

-- An entry of `_store`.
pub record Bucket : Type 0 where
  pub key : String
  pub timestamps : List ℕ

-- `(allowed, remaining, reset)`.
pub record Decision : Type 0 where
  pub allowed : Bool
  pub remaining : ℕ
  pub reset : ℕ

abbrev pub timestamps_of : Option Bucket → List ℕ
timestamps_of none = []
timestamps_of (some b) = b.timestamps

-- `self._store[key]` of the default dictionary.
abbrev pub stored : String → List Bucket → List ℕ
stored key store = timestamps_of (lookup (λ b. b.key) key store)

-- `t > now_ts - window`.
abbrev pub is_live : ℕ → ℕ → ℕ → Bool
is_live window now t = ltb now (t + window)

abbrev pub first_reset : ℕ → ℕ → List ℕ → ℕ
first_reset window now [] = now + window
first_reset window now (t ∷ ts) = t + window

-- `InMemoryRateLimiter.is_allowed`.
unfoldable pub is_allowed : String → ℕ → ℕ → ℕ → List Bucket → Decision × List Bucket
is_allowed key limit window now store =
    let live = keep (is_live window now) (stored key store) in
    if leb limit (length live)
    then (
      record { allowed = false; remaining = 0; reset = first_reset window now live },
      upsert (λ b. b.key) (record { key = key; timestamps = live }) store,
    )
    else (
      record { allowed = true; remaining = limit - length live - 1; reset = now + window },
      upsert (λ b. b.key) (record { key = key; timestamps = live ++ now ∷ [] }) store,
    )

-- `RedisRateLimiter.is_allowed`, given the count that the pipeline returned, or none where it raised.
unfoldable pub redis_is_allowed : Bool → ℕ → ℕ → ℕ → Option ℕ → Decision
redis_is_allowed fail_open limit window now none =
    if fail_open
    then record { allowed = true; remaining = limit - 1; reset = now + window }
    else record { allowed = false; remaining = 0; reset = now + window }
redis_is_allowed fail_open limit window now (some count) =
    if leb limit count
    then record { allowed = false; remaining = 0; reset = now + window }
    else record { allowed = true; remaining = limit - count - 1; reset = now + window }

-- What the pipeline asks of Redis, and whether it is answered; `member_at` is the text of the time and
-- the limiter's `id`.
pub record RedisServer {ℓ} (Redis : Type ℓ) : Type ℓ where
  pub answers : Redis → Bool
  pub member_at : ℕ → String
  pub zadd : String → String → ℕ → Redis → Redis
  pub zremrangebyscore : String → ℕ → ℕ → Redis → Redis
  pub zcard : String → Redis → ℕ
  pub expire : String → ℕ → Redis → Redis

-- The limiter that the middleware holds, with its state.
pub record Limiters {ℓ} (Redis : Type ℓ) : Type ℓ where
  pub redis : Redis
  pub local_fallback : List Bucket

module _ {ℓ} {Redis : Type ℓ} (server : RedisServer Redis) where
  -- `zremrangebyscore(key, 0, now_ts - window)`, where a range that ends below zero is empty.
  abbrev pub remove_expired : String → ℕ → ℕ → Redis → Redis
  remove_expired key window now r =
      if ltb now window then r else server.zremrangebyscore key 0 (now - window) r

  -- The pipeline of `RedisRateLimiter.is_allowed`: the count, or none where it raises.
  unfoldable pub pipeline : String → ℕ → ℕ → Redis → Option ℕ × Redis
  pipeline key window now r =
      let added = server.zadd key (server.member_at now) now r in
      let live = remove_expired key window now added in
      if server.answers r
      then (some (server.zcard key live), server.expire key (window + 1000000) live)
      else (none, r)

  module _ (fail_open : Bool) where
    is_available : Option ℕ → Bool
    is_available none = false
    is_available (some count) = true

    -- The decision of `RateLimitMiddleware.dispatch` where Redis is configured.
    unfoldable pub decide : String → ℕ → ℕ → ℕ → Limiters Redis → Decision × Limiters Redis
    unfolding is_available pipeline redis_is_allowed is_allowed
    decide key limit window now s =
        let (answer, redis) = pipeline key window now s.redis in
        let first = redis_is_allowed fail_open limit window now answer in
        if not first.allowed && not (is_available answer)
        then (let (second, local) = is_allowed key limit window now s.local_fallback in
            (second, record s { redis = redis; local_fallback = local }))
        else (first, record s { redis = redis })
