-- ===== src/Security/Outages.antt =====
-- What the controls decide while Redis raises.
use zyntry_backend.Prelude.{
  String, ◌≡◌, none, Bool, false, not, ◌&&◌, arith, ltb, length, Bool-cases, inl, inr,
  if◌then◌else◌,
}
use zyntry_backend.Chunking.{Tests, Text}
use zyntry_backend.Security.{
  Policy, Key, Redis, Request, Verdict, unchecked, checked, refused, ip_blocked, not_allowlisted,
  unavailable, too_large, suspicious_request, enforce, is_blocklisted, is_off_allowlist, is_invalid,
  record_violation, enforce_rate_limit, is_blocked, inspect, on_outage, passes, key_of, rate,
  violations, block,
}

pub record IsDown {R : Type 0} (redis : Redis R) : Type 0 where
  pub get_fails : (k : Key) (s : R) → redis.get k s ≡ none
  pub incr_fails : (k : Key) (s : R) → (redis.incr k s).0 ≡ none

module _ {R : Type 0} (redis : Redis R) (matches : String → Text → Bool) (tests : Tests)
    (is_injection : Text → Bool) where
  -- The tests that read no Redis.
  abbrev pub local_verdict : Policy → Request → Verdict
  local_verdict p q =
      if ltb p.max_input_chars (length q.prompt)
      then refused too_large
      else if is_invalid redis matches tests is_injection q && p.block_suspicious_requests
      then refused suspicious_request
      else checked (is_invalid redis matches tests is_injection q)

  abbrev pub outage_verdict : Policy → Request → Verdict
  outage_verdict p q =
      if not p.enabled
      then unchecked
      else if is_blocklisted redis matches tests is_injection p q
      then refused ip_blocked
      else if is_off_allowlist redis matches tests is_injection p q
      then refused not_allowlisted
      else if p.fails_closed
      then refused unavailable
      else local_verdict p q

  violation-outage :
      (p : Policy) (q : Request) (s : R)
      → IsDown redis
      → p.fails_closed ≡ false
      → (record_violation redis p q s).0 ≡ passes
  unfolding record_violation
  violation-outage p q s down opens =
      ground (arith, opens, down.incr_fails (key_of violations q.runtime_id q.client_ip) s)

  inspect-outage :
      (p : Policy) (q : Request) (s : R)
      → IsDown redis
      → p.fails_closed ≡ false
      → (inspect redis matches tests is_injection p q s).0 ≡ local_verdict p q
  unfolding inspect
  inspect-outage p q s down opens = ground (arith, violation-outage p q s down opens)

  rate-outage :
      (p : Policy) (q : Request) (s : R)
      → IsDown redis
      → (enforce_rate_limit redis p q s).0 ≡ on_outage p
  unfolding enforce_rate_limit
  rate-outage p q s down = ground (arith, down.incr_fails (key_of rate q.runtime_id q.client_ip) s)

  -- While Redis raises, a policy that fails closed refuses as unavailable each request that the lists let
  -- through, and one that fails open decides it by its prompt alone; the lists act as ever, and a policy
  -- that is off checks nothing.
  pub enforce-outage :
      (p : Policy) (q : Request) (s : R)
      → IsDown redis
      → (enforce redis matches tests is_injection p q s).0 ≡ outage_verdict p q
  unfolding enforce is_blocked
  enforce-outage p q s down =
      let got = down.get_fails (key_of block q.runtime_id q.client_ip) s in
      elim (Bool-cases p.fails_closed) [
        | inl closes ↦ ground (arith, got, closes)
        | inr opens ↦
            let next = (enforce_rate_limit redis p q s).1 in
            let told = inspect-outage p q next down opens in
            ground (arith, got, opens, rate-outage p q s down, told)
      ]
