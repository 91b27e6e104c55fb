-- ===== src/Security.antt =====
-- The security controls of a runtime's requests (app/services/runtime_security.py,
-- `RuntimeSecurityService`). Redis is an argument, a record of its operations; each says where it
-- raises. The events that the controls log and the text of a refusal are left out.
pub mod Settings
pub mod Bans
pub mod Outages
mod Examples
use zyntry_backend.Prelude.{
  ℕ, String, Option, none, some, Bool, true, false, not, ◌&&◌, List, [], ◌∷◌, leb, ltb, ◌==◌,
  length, str_eq, if◌then◌else◌,
}
use zyntry_backend.Chunking.{Tests, Text, is_empty}
use zyntry_backend.Actions.{any, validate_prompt}

-- What `normalize_runtime_security_policy` returns, less what it only keeps.
pub record Policy : Type 0 where
  pub enabled : Bool
  pub block_suspicious_requests : Bool
  pub prompt_injection_protection : Bool
  pub pii_redaction : Bool
  pub max_input_chars : ℕ
  pub rate_limit_per_minute : ℕ
  pub ip_ban_enabled : Bool
  pub violation_threshold : ℕ
  pub ban_duration_seconds : ℕ
  pub allowed_ips : List Text
  pub blocked_ips : List Text
  pub fails_closed : Bool

-- The keys `runtime:security:<kind>:<runtime>:<ip>`.
pub data Kind : Type 0 where
  rate violations block : Kind

pub record Key : Type 0 where
  pub kind : Kind
  pub runtime_id : String
  pub client_ip : String

-- The operations of the Redis client, on what Redis holds: `get` gives the truth of the value, and
-- none, or false for `expire`, `set` and `delete`, stands for an exception.
pub record Redis (R : Type 0) : Type 0 where
  pub get : Key → R → Option Bool
  pub incr : Key → R → Option ℕ × R
  pub expire : Key → ℕ → R → Bool × R
  pub set : Key → String → ℕ → R → Bool × R
  pub delete : List Key → R → Bool × R

-- The status and the code of a `RuntimeSecurityViolation`.
pub record Violation : Type 0 where
  pub status_code : ℕ
  pub code : String

pub data Check : Type 0 where
  passes : Check
  refuses : Violation → Check

-- What `enforce` returns or raises.
pub data Verdict : Type 0 where
  unchecked : Verdict
  checked : (suspicious : Bool) → Verdict
  refused : Violation → Verdict

abbrev pub unavailable : Violation
unavailable = record { status_code = 503; code = "security_unavailable" }

abbrev pub ip_blocked : Violation
ip_blocked = record { status_code = 403; code = "ip_blocked" }

abbrev pub not_allowlisted : Violation
not_allowlisted = record { status_code = 403; code = "ip_not_allowlisted" }

abbrev pub rate_limited : Violation
rate_limited = record { status_code = 429; code = "runtime_rate_limited" }

abbrev pub too_large : Violation
too_large = record { status_code = 413; code = "input_too_large" }

abbrev pub suspicious_request : Violation
suspicious_request = record { status_code = 403; code = "suspicious_request" }

-- `except Exception`
abbrev pub on_outage : Policy → Check
on_outage p = if p.fails_closed then refuses unavailable else passes

abbrev pub key_of : Kind → String → String → Key
key_of k runtime ip = record { kind = k; runtime_id = runtime; client_ip = ip }

-- A request: the runtime, the client's address and the prompt.
pub record Request : Type 0 where
  pub runtime_id : String
  pub client_ip : String
  pub prompt : Text

module _ {R : Type 0} (redis : Redis R) where
  unfoldable pub is_blocked : Policy → Request → R → Check
  is_blocked p q s = elim (redis.get (key_of block q.runtime_id q.client_ip) s) [
    | none ↦ on_outage p
    | some b ↦ if b then refuses ip_blocked else passes
  ]

  -- `await self.redis.expire(key, seconds)`, after the first increment.
  abbrev pub expire_first : Key → ℕ → ℕ → R → Bool × R
  expire_first k seconds count s = if count == 1 then redis.expire k seconds s else (true, s)

  unfoldable pub enforce_rate_limit : Policy → Request → R → Check × R
  enforce_rate_limit p q s =
      let k = key_of rate q.runtime_id q.client_ip in
      let (answer, s1) = redis.incr k s in
      elim answer [
        | none ↦ (on_outage p, s1)
        | some count ↦
            let (done, s2) = expire_first k 60 count s1 in
            (
              if done
                  then (if ltb p.rate_limit_per_minute count then refuses rate_limited else passes)
                  else on_outage p,
              s2,
            )
      ]

  unfoldable pub record_violation : Policy → Request → R → Check × R
  record_violation p q s =
      let k = key_of violations q.runtime_id q.client_ip in
      let seconds = p.ban_duration_seconds in
      if not p.ip_ban_enabled
      then (passes, s)
      else (let (answer, s1) = redis.incr k s in
          elim answer [
            | none ↦ (on_outage p, s1)
            | some count ↦
                let (done, s2) = expire_first k seconds count s1 in
                if not done
                then (on_outage p, s2)
                else if leb p.violation_threshold count
                then (let (set_it, s3) =
                      redis.set (key_of block q.runtime_id q.client_ip) "1" seconds s2 in
                    (if set_it then passes else on_outage p, s3))
                else (passes, s2)
          ])

  -- The violation is recorded first; what that raises hides it.
  abbrev pub refuse_with : Violation → Check × R → Verdict × R
  refuse_with v (passes, s) = (refused v, s)
  refuse_with v (refuses u, s) = (refused u, s)

  -- `clear_ip_block`, which no exception leaves.
  unfoldable pub clear_ip_block : String → String → R → R
  clear_ip_block runtime ip s =
      (redis.delete (key_of block runtime ip ∷ key_of violations runtime ip ∷ []) s).1

  -- `matches` is `_ip_matches_rules` of one rule.
  module _ (matches : String → Text → Bool) (tests : Tests) (is_injection : Text → Bool) where
    abbrev pub is_blocklisted : Policy → Request → Bool
    is_blocklisted p q = any (matches q.client_ip) p.blocked_ips

    abbrev pub is_off_allowlist : Policy → Request → Bool
    is_off_allowlist p q =
        not (is_empty p.allowed_ips) && not (any (matches q.client_ip) p.allowed_ips)

    abbrev pub is_invalid : Request → Bool
    is_invalid q = elim (validate_prompt tests is_injection q.prompt) [
      | none ↦ false
      | some x ↦ true
    ]

    -- The tests of the prompt, after the rate limit.
    unfoldable pub inspect : Policy → Request → R → Verdict × R
    unfolding record_violation validate_prompt
    inspect p q s =
        if ltb p.max_input_chars (length q.prompt)
        then refuse_with too_large (record_violation p q s)
        else if is_invalid q && p.block_suspicious_requests
        then refuse_with suspicious_request (record_violation p q s)
        else (checked (is_invalid q), s)

    -- `enforce`
    unfoldable pub enforce : Policy → Request → R → Verdict × R
    unfolding is_blocked enforce_rate_limit inspect
    enforce p q s =
        if not p.enabled
        then (unchecked, s)
        else if is_blocklisted p q
        then (refused ip_blocked, s)
        else if is_off_allowlist p q
        then (refused not_allowlisted, s)
        else elim (is_blocked p q s) [
          | refuses v ↦ (refused v, s)
          | passes ↦
              let (limited, s1) = enforce_rate_limit p q s in
              elim limited [ refuses v ↦ (refused v, s1) | passes ↦ inspect p q s1 ]
        ]
