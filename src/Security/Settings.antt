-- ===== src/Security/Settings.antt =====
-- The settings of the security controls (app/services/runtime_security.py,
-- `normalize_runtime_security_policy` and `_normalize_ip_rules`), from the JSON object of a runtime.
use zyntry_backend.Prelude.{
  ℕ, String, Option, none, some, Bool, true, not, ◌&&◌, List, [], ◌∷◌, ◌++◌, ◌≤◌, max, min, str_eq,
  if◌then◌else◌, arith, ◌≡◌, Option-cases, inl, inr,
}
use mathlib.Core.Path.{subst}
use zyntry_backend.Prelude.Int.{ℤ, pos, negsuc}
use zyntry_backend.Json.{
  Json, null, boolean, array, Items, item, no_items, Fields, field, no_fields, truthy,
}
use zyntry_backend.Session.{value_error, Result, Result-cases, ok, err}
use zyntry_backend.Chunking.{Text, is_empty}
use zyntry_backend.Actions.{any}
use zyntry_backend.Security.{Policy}

-- What the Python library says: `int` of a text or of another value, none where it raises; `str` of a
-- value, stripped; the canonical form of an address or a network, none where it raises; whether
-- `str(x).strip().lower()` is "fail_open"; and the equality of texts.
pub record Library : Type 0 where
  pub int_of : Json → Option ℤ
  pub stripped : Json → Text
  pub canonical : Text → Option Text
  pub is_fail_open : Json → Bool
  pub same : Text → Text → Bool

-- `value.get(key)` of the object.
abbrev pub get_field : String → Fields → Option Json
get_field k no_fields = none
get_field k (field j v fs) = if str_eq j k then some v else get_field k fs

-- The merge with a default.
abbrev pub or_default : Option Json → Json → Json
or_default none d = d
or_default (some j) d = j

-- `max(minimum, min(maximum, n))`
abbrev pub clamp : ℕ → ℕ → ℤ → ℕ
clamp lo hi (pos n) = max lo (min hi n)
clamp lo hi (negsuc n) = lo

clamp-bounds : (lo hi : ℕ) (z : ℤ) → lo ≤ hi → (lo ≤ clamp lo hi z) × (clamp lo hi z ≤ hi)
clamp-bounds lo hi (pos n) h = (omega arith, omega arith)
clamp-bounds lo hi (negsuc n) h = (omega arith, h)

module _ (l : Library) where
  -- An integer of the settings, between its limits; a value that is no integer gives the default.
  unfoldable pub limited : String → ℕ → ℕ → ℕ → Fields → ℕ
  limited k lo hi default value = elim (get_field k value) [
    | none ↦ max lo (min hi default)
    | some j ↦ elim (l.int_of j) [ none ↦ default | some z ↦ clamp lo hi z ]
  ]

  abbrev pub flag : String → Fields → Bool
  flag k value = truthy (or_default (get_field k value) (boolean true))

  -- The loop of `_normalize_ip_rules`, from the rules so far.
  unfoldable pub normalize_items : Items → List Text → Result (List Text)
  normalize_items no_items acc = ok acc
  normalize_items (item j js) acc =
      let t = l.stripped j in
      if is_empty t then normalize_items js acc else elim (l.canonical t) [
        | none ↦ err (value_error "Invalid IP address or CIDR rule")
        | some c ↦ normalize_items js (if any (l.same c) acc then acc else acc ++ c ∷ [])
      ]

  unfoldable pub normalize_ip_rules : Option Json → Result (List Text)
  unfolding normalize_items
  normalize_ip_rules none = ok []
  normalize_ip_rules (some null) = ok []
  normalize_ip_rules (some (array js)) = normalize_items js []
  normalize_ip_rules (some _) = err (value_error "IP allow/block lists must be arrays")

  -- `str(merged.get("redis_failure_mode") or "fail_closed")` is other than "fail_open".
  abbrev pub fails_closed_by : Option Json → Bool
  fails_closed_by none = true
  fails_closed_by (some j) = not (truthy j && l.is_fail_open j)

  abbrev pub policy_of : Fields → List Text → List Text → Policy
  policy_of value allowed blocked = record {
    enabled = flag "enabled" value;
    block_suspicious_requests = elim (get_field "prompt_injection_protection" value) [
      | none ↦ flag "block_suspicious_requests" value
      | some j ↦ truthy j
    ];
    prompt_injection_protection = flag "prompt_injection_protection" value;
    pii_redaction = flag "pii_redaction" value;
    max_input_chars = limited "max_input_chars" 1000 1000000 10000 value;
    rate_limit_per_minute = limited "rate_limit_per_minute" 1 100000 120 value;
    ip_ban_enabled = flag "ip_ban_enabled" value;
    violation_threshold = limited "violation_threshold" 1 100 3 value;
    ban_duration_seconds = limited "ban_duration_seconds" 60 86400 900 value;
    allowed_ips = allowed;
    blocked_ips = blocked;
    fails_closed = fails_closed_by (get_field "redis_failure_mode" value);
  }

  -- `normalize_runtime_security_policy`
  unfoldable pub normalize_policy : Fields → Result Policy
  unfolding normalize_ip_rules limited truthy
  normalize_policy value = elim (normalize_ip_rules (get_field "allowed_ips" value)) [
    | err x ↦ err x
    | ok allowed ↦ elim (normalize_ip_rules (get_field "blocked_ips" value)) [
      | err x ↦ err x
      | ok blocked ↦ ok (policy_of value allowed blocked)
    ]
  ]

  limited-bounds :
      (k : String) (lo hi default : ℕ) (value : Fields)
      → lo ≤ default
      → default ≤ hi
      → (lo ≤ limited k lo hi default value) × (limited k lo hi default value ≤ hi)
  unfolding limited
  limited-bounds k lo hi default value low high = elim (Option-cases (get_field k value)) [
    | inl missing ↦ ground (arith, missing)
    | inr (j, found) ↦ elim (Option-cases (l.int_of j)) [
      | inl bad ↦ ground (arith, found, bad)
      | inr (z, read) ↦ ground (arith, found, read, clamp-bounds lo hi z (omega arith))
    ]
  ]

  pub record IsBounded (p : Policy) : Type 0 where
    pub chars : (1000 ≤ p.max_input_chars) × (p.max_input_chars ≤ 1000000)
    pub requests : (1 ≤ p.rate_limit_per_minute) × (p.rate_limit_per_minute ≤ 100000)
    pub threshold : (1 ≤ p.violation_threshold) × (p.violation_threshold ≤ 100)
    pub ban : (60 ≤ p.ban_duration_seconds) × (p.ban_duration_seconds ≤ 86400)

  policy_of-IsBounded :
      (value : Fields) (allowed blocked : List Text) → IsBounded (policy_of value allowed blocked)
  policy_of-IsBounded value allowed blocked = record {
    chars = limited-bounds "max_input_chars" 1000 1000000 10000 value (omega arith) (omega arith);
    requests =
        limited-bounds "rate_limit_per_minute" 1 100000 120 value (omega arith) (omega arith);
    threshold = limited-bounds "violation_threshold" 1 100 3 value (omega arith) (omega arith);
    ban = limited-bounds "ban_duration_seconds" 60 86400 900 value (omega arith) (omega arith);
  }

  -- Whatever object the settings come from, if they are not refused, each of their four numbers is
  -- within its limits.
  pub normalize_policy-IsBounded :
      (value : Fields) {p : Policy} → normalize_policy value ≡ ok p → IsBounded p
  unfolding normalize_policy
  normalize_policy-IsBounded value {p = p} h =
      elim (Result-cases (normalize_ip_rules (get_field "allowed_ips" value))) [
        | inr (x, bad) ↦ absurd (ground (arith, bad))
        | inl (allowed, good) ↦
            elim (Result-cases (normalize_ip_rules (get_field "blocked_ips" value))) [
              | inr (x, bad) ↦ absurd (ground (arith, good, bad))
              | inl (blocked, fine) ↦
                  let made : policy_of value allowed blocked ≡ p = ground (arith, good, fine) in
                  subst IsBounded made (policy_of-IsBounded value allowed blocked)
            ]
      ]
