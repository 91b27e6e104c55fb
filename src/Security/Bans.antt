-- ===== src/Security/Bans.antt =====
-- What repeated violations lead to, while Redis answers.
use zyntry_backend.Prelude.{
  ℕ, String, ◌≡◌, refl, some, Bool, true, false, ◌&&◌, ◌||◌, List, [], ◌∷◌, ◌≤◌, ◌<◌, ◌+◌, All,
  arith, leb, ltb, length, str_eq, eq_iff, ◌∙◌, ◌==◌, Bool-cases, inl, inr, if◌then◌else◌,
}
use mathlib.Core.Path.{subst}
use zyntry_backend.Chunking.{Tests, Text}
use zyntry_backend.Security.{
  Policy, Kind, Key, key_of, rate, violations, block, Redis, Request, Verdict, refused, ip_blocked,
  enforce, is_blocklisted, is_off_allowlist, is_invalid, record_violation, enforce_rate_limit,
  passes, expire_first, is_blocked, inspect,
}

abbrev pub same_kind : Kind → Kind → Bool
same_kind rate rate = true
same_kind violations violations = true
same_kind block block = true
same_kind _ _ = false

abbrev pub same_key : Key → Key → Bool
same_key a b =
    same_kind a.kind b.kind && str_eq a.runtime_id b.runtime_id && str_eq a.client_ip b.client_ip

-- What the Redis commands do, by their documentation, while no exception is raised and no key expires: the
-- count of a key that `incr` counts, and whether a key has a value that is true.
pub record IsRunning {R : Type 0} (redis : Redis R) (count : Key → R → ℕ) (is_set : Key → R → Bool)
    : Type 0 where
  pub get_is : (k : Key) (s : R) → redis.get k s ≡ some (is_set k s)
  pub incr_is : (k : Key) (s : R) → (redis.incr k s).0 ≡ some (count k s + 1)
  pub incr_counts :
      (k j : Key) (s : R)
      → count j (redis.incr k s).1 ≡ (if same_key k j then count j s + 1 else count j s)
  pub incr_keeps :
      (k j : Key) (s : R) → same_key k j ≡ false → is_set j (redis.incr k s).1 ≡ is_set j s
  pub expire_is : (k : Key) (n : ℕ) (s : R) → (redis.expire k n s).0 ≡ true
  pub expire_counts : (k j : Key) (n : ℕ) (s : R) → count j (redis.expire k n s).1 ≡ count j s
  pub expire_keeps : (k j : Key) (n : ℕ) (s : R) → is_set j (redis.expire k n s).1 ≡ is_set j s
  pub set_is : (k : Key) (v : String) (n : ℕ) (s : R) → (redis.set k v n s).0 ≡ true
  pub set_counts :
      (k j : Key) (v : String) (n : ℕ) (s : R)
      → same_key k j ≡ false
      → count j (redis.set k v n s).1 ≡ count j s
  pub set_sets : (k : Key) (v : String) (n : ℕ) (s : R) → is_set k (redis.set k v n s).1 ≡ true

module _ {R : Type 0} (redis : Redis R) (count : Key → R → ℕ) (is_set : Key → R → Bool)
    (running : IsRunning redis count is_set) where
  -- What a step does to the counts and the block of one client.
  pub record Counts (q : Request) (v r : ℕ) (b : Bool) (s : R) : Type 0 where
    pub violated : count (key_of violations q.runtime_id q.client_ip) s ≡ v
    pub requested : count (key_of rate q.runtime_id q.client_ip) s ≡ r
    pub banned : is_set (key_of block q.runtime_id q.client_ip) s ≡ b

  -- The state after an increment and the expiry that may follow it.
  abbrev bumped : Key → ℕ → R → R
  bumped k n s = (expire_first redis k n (count k s + 1) (redis.incr k s).1).1

  expire_first_is : (k : Key) (n c : ℕ) (s : R) → (expire_first redis k n c s).0 ≡ true
  expire_first_is k n c s = elim (Bool-cases (c == 1)) [
    | inl first ↦ ground (arith, first, running.expire_is k n s)
    | inr later ↦ ground (arith, later)
  ]

  bumped-counts :
      (k j : Key) (n : ℕ) (s : R)
      → count j (bumped k n s) ≡ (if same_key k j then count j s + 1 else count j s)
  bumped-counts k j n s = elim (Bool-cases ((count k s + 1) == 1)) [
    | inl first ↦
        ground
          (arith, first, running.incr_counts k j s, running.expire_counts k j n (redis.incr k s).1)
    | inr later ↦ ground (arith, later, running.incr_counts k j s)
  ]

  bumped-keeps :
      (k j : Key) (n : ℕ) (s : R) → same_key k j ≡ false → is_set j (bumped k n s) ≡ is_set j s
  bumped-keeps k j n s other = elim (Bool-cases ((count k s + 1) == 1)) [
    | inl first ↦ ground (
      arith,
      first,
      running.incr_keeps k j s other,
      running.expire_keeps k j n (redis.incr k s).1,
    )
    | inr later ↦ ground (arith, later, running.incr_keeps k j s other)
  ]

  same_key_refl :
      (k : Kind) (r i : String)
      → same_kind k k ≡ true
      → same_key (key_of k r i) (key_of k r i) ≡ true
  same_key_refl k r i h = ground (arith, h, eq_iff r r, eq_iff i i)

  rate-Counts :
      (p : Policy) (q : Request) (s : R) {v r : ℕ} {b : Bool}
      → Counts q v r b s
      → r < p.rate_limit_per_minute
      → ((enforce_rate_limit redis p q s).0 ≡ passes)
        × Counts q v (r + 1) b (enforce_rate_limit redis p q s).1
  unfolding enforce_rate_limit
  rate-Counts p q s {v = v} {r = r} {b = b} h room =
      let k = key_of rate q.runtime_id q.client_ip in
      let answer = running.incr_is k s in
      let done = expire_first_is k 60 (count k s + 1) (redis.incr k s).1 in
      let within : ltb p.rate_limit_per_minute (count k s + 1) ≡ false =
        ground (arith, h.requested) in
      let same = same_key_refl rate q.runtime_id q.client_ip refl in
      let after : (enforce_rate_limit redis p q s).1 ≡ bumped k 60 s = ground (arith, answer) in
      let counts : Counts q v (r + 1) b (bumped k 60 s) = record {
        violated = bumped-counts k (key_of violations q.runtime_id q.client_ip) 60 s ∙ h.violated;
        requested = ground (arith, bumped-counts k k 60 s, same, h.requested);
        banned = bumped-keeps k (key_of block q.runtime_id q.client_ip) 60 s refl ∙ h.banned;
      } in
      (ground (arith, answer, done, within), simp after counts)

  violation-Counts :
      (p : Policy) (q : Request) (s : R) {v r : ℕ}
      → p.ip_ban_enabled ≡ true
      → Counts q v r false s
      → ((record_violation redis p q s).0 ≡ passes)
        × Counts q (v + 1) r (leb p.violation_threshold (v + 1)) (record_violation redis p q s).1
  unfolding record_violation
  violation-Counts p q s {v = v} {r = r} bans h =
      let k = key_of violations q.runtime_id q.client_ip in
      let b = key_of block q.runtime_id q.client_ip in
      let n = p.ban_duration_seconds in
      let answer = running.incr_is k s in
      let done = expire_first_is k n (count k s + 1) (redis.incr k s).1 in
      let same = same_key_refl violations q.runtime_id q.client_ip refl in
      let counts : Counts q (v + 1) r false (bumped k n s) = record {
        violated = ground (arith, bumped-counts k k n s, same, h.violated);
        requested = bumped-counts k (key_of rate q.runtime_id q.client_ip) n s ∙ h.requested;
        banned = bumped-keeps k b n s refl ∙ h.banned;
      } in
      elim (Bool-cases (leb p.violation_threshold (v + 1))) [
        | inl reached ↦
            let set_it = running.set_is b "1" n (bumped k n s) in
            let after : (record_violation redis p q s).1 ≡ (redis.set b "1" n (bumped k n s)).1 =
              ground (arith, bans, answer, done, reached, h.violated) in
            let both : Counts q (v + 1) r true (redis.set b "1" n (bumped k n s)).1 = record {
              violated = running.set_counts b k "1" n (bumped k n s) refl ∙ counts.violated;
              requested =
                  running.set_counts b (key_of rate q.runtime_id q.client_ip) "1" n (bumped k n s)
                    refl
                  ∙ counts.requested;
              banned = running.set_sets b "1" n (bumped k n s);
            } in
            (
              ground (arith, bans, answer, done, reached, set_it, h.violated),
              simp (after, reached) both,
            )
        | inr below ↦
            let after : (record_violation redis p q s).1 ≡ bumped k n s =
              ground (arith, bans, answer, done, below, h.violated) in
            (ground (arith, bans, answer, done, below, h.violated), simp (after, below) counts)
      ]

  abbrev pub with_prompt : Request → Text → Request
  with_prompt q x = record q { prompt = x }

  Counts-prompt :
      (q : Request) (x : Text) {v r : ℕ} {b : Bool} {s : R}
      → Counts q v r b s
      → Counts (with_prompt q x) v r b s
  Counts-prompt q x h = record { violated = h.violated; requested = h.requested; banned = h.banned }

  Counts-unprompt :
      (q : Request) (x : Text) {v r : ℕ} {b : Bool} {s : R}
      → Counts (with_prompt q x) v r b s
      → Counts q v r b s
  Counts-unprompt q x h = record {
    violated = h.violated;
    requested = h.requested;
    banned = h.banned;
  }

  module _ (matches : String → Text → Bool) (tests : Tests) (is_injection : Text → Bool)
      (p : Policy) where
    abbrev pub enforced : Request → R → Verdict × R
    enforced = enforce redis matches tests is_injection p

    -- A request that the tests of the prompt refuse.
    abbrev pub violates : Request → Bool
    violates q =
        ltb p.max_input_chars (length q.prompt)
        || (is_invalid redis matches tests is_injection q && p.block_suspicious_requests)

    -- The client passes the lists, and the policy bans it for violations.
    pub record IsSubject (q : Request) : Type 0 where
      pub on : p.enabled ≡ true
      pub unlisted : is_blocklisted redis matches tests is_injection p q ≡ false
      pub allowed : is_off_allowlist redis matches tests is_injection p q ≡ false
      pub bans : p.ip_ban_enabled ≡ true

    IsSubject-prompt : (q : Request) (x : Text) → IsSubject q → IsSubject (with_prompt q x)
    IsSubject-prompt q x h = record {
      on = h.on;
      unlisted = h.unlisted;
      allowed = h.allowed;
      bans = h.bans;
    }

    enforced-blocked :
        (q : Request) (s : R) {v r : ℕ}
        → IsSubject q
        → Counts q v r true s
        → enforced q s ≡ (refused ip_blocked, s)
    unfolding enforce is_blocked
    enforced-blocked q s subject h =
        let got = running.get_is (key_of block q.runtime_id q.client_ip) s in
        ground (arith, subject.on, subject.unlisted, subject.allowed, got, h.banned)

    inspect-Counts :
        (q : Request) (s : R) {v r : ℕ}
        → IsSubject q
        → violates q ≡ true
        → Counts q v r false s
        → Counts q
            (v + 1)
            r
            (leb p.violation_threshold (v + 1))
            (inspect redis matches tests is_injection p q s).1
    unfolding inspect
    inspect-Counts q s subject bad h =
        let noted = violation-Counts p q s subject.bans h in
        elim (Bool-cases (ltb p.max_input_chars (length q.prompt))) [
          | inl long ↦
              let after : (inspect redis matches tests is_injection p q s).1
                  ≡ (record_violation redis p q s).1 =
                ground (arith, long, noted.0) in
              simp after noted.1
          | inr short ↦
              let after : (inspect redis matches tests is_injection p q s).1
                  ≡ (record_violation redis p q s).1 =
                ground (arith, short, bad, noted.0) in
              simp after noted.1
        ]

    enforced-Counts :
        (q : Request) (s : R) {v r : ℕ}
        → IsSubject q
        → violates q ≡ true
        → r < p.rate_limit_per_minute
        → Counts q v r false s
        → Counts q (v + 1) (r + 1) (leb p.violation_threshold (v + 1)) (enforced q s).1
    unfolding enforce is_blocked
    enforced-Counts q s {v = v} {r = r} subject bad room h =
        let got = running.get_is (key_of block q.runtime_id q.client_ip) s in
        let limited = rate-Counts p q s h room in
        let after : (enforced q s).1
            ≡ (inspect redis matches tests is_injection p q (enforce_rate_limit redis p q s).1).1 =
          ground (arith, subject.on, subject.unlisted, subject.allowed, got, h.banned, limited.0) in
        simp after (inspect-Counts q (enforce_rate_limit redis p q s).1 subject bad limited.1)

    -- What is held after requests of one client with these prompts.
    unfoldable pub after_prompts : Request → List Text → R → R
    after_prompts q [] s = s
    after_prompts q (x ∷ xs) s = after_prompts q xs (enforced (with_prompt q x) s).1

    -- While Redis runs and no key expires: where the policy is on and bans, and a client that no list stops has
    -- some violations below the threshold, then after as many more requests with prompts that the
    -- policy refuses as are missing to the threshold, and within the rate limit, each request of the
    -- client is refused as blocked, whatever its prompt, and nothing more is counted.
    pub enforce-bans :
        (q : Request) (xs : List Text) (s : R) {v r : ℕ}
        → IsSubject q
        → All (λ x. violates (with_prompt q x) ≡ true) xs
        → v + length xs ≡ p.violation_threshold
        → r + length xs ≤ p.rate_limit_per_minute
        → Counts q v r (leb p.violation_threshold v) s
        → (x : Text)
        → enforced (with_prompt q x) (after_prompts q xs s)
          ≡ (refused ip_blocked, after_prompts q xs s)
    unfolding after_prompts
    enforce-bans q [] s {v = v} {r = r} subject bad reach room h x =
        let full : leb p.violation_threshold v ≡ true = ground arith in
        let banned : Counts q v r true s = subst (λ b. Counts q v r b s) full h in
        enforced-blocked (with_prompt q x) s (IsSubject-prompt q x subject)
          (Counts-prompt q x banned)
    enforce-bans q (y ∷ ys) s {v = v} {r = r} subject bad reach room h x =
        let below : leb p.violation_threshold v ≡ false = ground arith in
        let free : Counts q v r false s = subst (λ b. Counts q v r b s) below h in
        let next = Counts-unprompt q y (
          enforced-Counts (with_prompt q y) s (IsSubject-prompt q y subject) bad.0 (omega arith)
            (Counts-prompt q y free)) in
        enforce-bans q ys (enforced (with_prompt q y) s).1 subject bad.1 (omega arith) (omega arith)
          next x
