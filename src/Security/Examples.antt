-- ===== src/Security/Examples.antt =====
-- A client whose prompts are too long, with a Redis that runs and one that is down.
use zyntry_backend.Prelude.{
  ℕ, ◌+◌, String, ◌≡◌, refl, none, some, Bool, true, false, List, [], ◌∷◌, arith, if◌then◌else◌,
  eq_iff,
}
use zyntry_backend.Tokens.{chars}
use zyntry_backend.Chunking.{Tests, Text}
use zyntry_backend.Security.{
  Policy, Kind, Key, block, rate, violations, Redis, Request, refused, ip_blocked, enforce,
}
use zyntry_backend.Security.Bans.{
  same_kind, same_key, IsRunning, enforced, after_prompts, with_prompt, enforce-bans,
}
use zyntry_backend.Security.Outages.{outage_verdict, enforce-outage}

-- The counts and the values of keys.
record Held : Type 0 where
  counts : Key → ℕ
  values : Key → Bool

abbrev running : Redis Held
running = record {
  get = λ k s. some (s.values k);
  incr = λ k s. (
    some (s.counts k + 1),
    record {
      counts = λ j. if same_key k j then s.counts j + 1 else s.counts j;
      values = λ j. if same_key k j then true else s.values j;
    },
  );
  expire = λ k n s. (true, s);
  set = λ k v n s. (true, record s { values = λ j. if same_key k j then true else s.values j });
  delete = λ ks s. (true, s);
}

same_kind_refl : (k : Kind) → same_kind k k ≡ true
same_kind_refl rate = refl
same_kind_refl violations = refl
same_kind_refl block = refl

running-IsRunning : IsRunning running (λ k s. s.counts k) (λ k s. s.values k)
running-IsRunning = record {
  get_is = λ k s. refl;
  incr_is = λ k s. refl;
  incr_counts = λ k j s. refl;
  incr_keeps = λ k j s other. ground (arith, other);
  expire_is = λ k n s. refl;
  expire_counts = λ k j n s. refl;
  expire_keeps = λ k j n s. refl;
  set_is = λ k v n s. refl;
  set_counts = λ k j v n s other. refl;
  set_sets = λ k v n s. set_itself k (s.values k);
}
  where
    set_itself : (k : Key) (b : Bool) → (if same_key k k then true else b) ≡ true
    set_itself k b =
        let same : same_key k k ≡ true = ground (
          arith,
          same_kind_refl k.kind,
          eq_iff k.runtime_id k.runtime_id,
          eq_iff k.client_ip k.client_ip,
        ) in
        ground (arith, same)

abbrev empty : Held
empty = record { counts = λ k. 0; values = λ k. false }

abbrev tests : Tests
tests = record { is_space = λ c. false; is_import = λ t. false; is_code_boundary = λ t. false }

abbrev matches : String → Text → Bool
matches ip rule = false

abbrev is_injection : Text → Bool
is_injection t = false

abbrev policy : Policy
policy = record {
  enabled = true;
  block_suspicious_requests = true;
  prompt_injection_protection = true;
  pii_redaction = true;
  max_input_chars = 3;
  rate_limit_per_minute = 5;
  ip_ban_enabled = true;
  violation_threshold = 2;
  ban_duration_seconds = 60;
  allowed_ips = [];
  blocked_ips = [];
  fails_closed = true;
}

abbrev request : Request
request = record { runtime_id = "r"; client_ip = "i"; prompt = chars "hi" }

abbrev prompts : List Text
prompts = chars "too long" ∷ chars "longer" ∷ []

abbrev later : Held
later =
    after_prompts running (λ k s. s.counts k) (λ k s. s.values k) running-IsRunning matches tests
      is_injection policy request prompts empty

enforce-bans_example :
    enforced running
      (λ k s. s.counts k)
      (λ k s. s.values k)
      running-IsRunning
      matches
      tests
      is_injection
      policy
      (with_prompt running
        (λ k s. s.counts k)
        (λ k s. s.values k)
        running-IsRunning
        request
        (chars "hi"))
      later
    ≡ (refused ip_blocked, later)
enforce-bans_example =
    enforce-bans running (λ k s. s.counts k) (λ k s. s.values k) running-IsRunning matches tests
      is_injection policy request prompts empty
      (record { on = refl; unlisted = refl; allowed = refl; bans = refl }) (refl, (refl, tt))
      (omega arith) (omega arith) (record { violated = refl; requested = refl; banned = refl })
      (chars "hi")

abbrev down : Redis Held
down = record {
  get = λ k s. none;
  incr = λ k s. (none, s);
  expire = λ k n s. (false, s);
  set = λ k v n s. (false, s);
  delete = λ ks s. (false, s);
}

enforce-outage_example :
    (enforce down matches tests is_injection policy request empty).0
    ≡ outage_verdict down matches tests is_injection policy request
enforce-outage_example =
    enforce-outage down matches tests is_injection policy request empty
      (record { get_fails = λ k s. refl; incr_fails = λ k s. refl })
