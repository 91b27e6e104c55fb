-- ===== src/RateLimit/Outage.antt =====
-- The limiter of the middleware: what Redis answers, and what happens while it does not.
use zyntry_backend.Prelude.{
  ℕ, ◌+◌, ◌-◌, ◌<◌, String, ◌≡◌, refl, Option, none, some, Bool, true, false, not, ◌&&◌, List, [],
  ◌∷◌, ltb, leb, length, keep, arith, Bool-cases, inl, inr, if◌then◌else◌,
}
use zyntry_backend.Tables.{lookup}
use zyntry_backend.RateLimit.{
  RedisServer, Limiters, is_allowed, redis_is_allowed, pipeline, decide, is_live, stored,
  remove_expired,
}

-- How many scores pass a test.
abbrev pub count_scores : (ℕ → Bool) → List (String × ℕ) → ℕ
count_scores p members = length (keep (λ m. p m.1) members)

abbrev pub is_none : Option (String × ℕ) → Bool
is_none none = true
is_none (some m) = false

-- What Redis documents of the commands on a sorted set, whose members and scores `members` gives: ZADD
-- adds a member that is not there, ZREMRANGEBYSCORE removes the members with a score within the
-- bounds, and ZCARD is the number of members.
pub record IsSortedSets {ℓ} {Redis : Type ℓ} (server : RedisServer Redis)
    (members : String → Redis → List (String × ℕ)) : Type ℓ where
  pub zadd_adds :
      (key member : String) (score : ℕ) (r : Redis) (p : ℕ → Bool)
      → is_none (lookup (λ m. m.0) member (members key r)) ≡ true
      → count_scores p (members key (server.zadd key member score r))
        ≡ (if p score then 1 else 0) + count_scores p (members key r)
  pub zrem_removes :
      (key : String) (low high : ℕ) (r : Redis) (p : ℕ → Bool)
      → count_scores p (members key (server.zremrangebyscore key low high r))
        ≡ count_scores (λ t. p t && not (leb low t && leb t high)) (members key r)
  pub zcard_counts :
      (key : String) (r : Redis) → server.zcard key r ≡ count_scores (λ t. true) (members key r)

count_scores-same :
    (p q : ℕ → Bool) (members : List (String × ℕ))
    → ((t : ℕ) → p t ≡ q t)
    → count_scores p members ≡ count_scores q members
count_scores-same p q [] same = refl
count_scores-same p q ((m, t) ∷ ms) same = ground (arith, same t, count_scores-same p q ms same)

module _ {ℓ} {Redis : Type ℓ} (server : RedisServer Redis) where
  -- While Redis fails and the limiter does not fail open, the decision and the state of the limiter
  -- are those of the in-memory limiter; where it fails open, the request is admitted and the
  -- in-memory limiter is left as it is.
  pub decide-outage :
      (key : String) (limit window now : ℕ) (s : Limiters Redis)
      → server.answers s.redis ≡ false
      → let local = is_allowed key limit window now s.local_fallback in
        let strict = decide server false key limit window now s in
        let open_ = decide server true key limit window now s in
        (strict.0 ≡ local.0)
        × (strict.1.local_fallback ≡ local.1)
        × (open_.0.allowed ≡ true)
        × (open_.1.local_fallback ≡ s.local_fallback)
  unfolding decide redis_is_allowed pipeline
  decide-outage key limit window now s down =
      (ground arith, ground arith, ground arith, ground arith)

module _ {ℓ} {Redis : Type ℓ} (server : RedisServer Redis)
    (members : String → Redis → List (String × ℕ)) (laws : IsSortedSets server members) where
  -- What is left after the removal counts as live.
  remove_expired-counts :
      (key : String) (window now : ℕ) (r : Redis)
      → server.zcard key (remove_expired server key window now r)
        ≡ count_scores (is_live window now) (members key r)
  remove_expired-counts key window now r = elim (Bool-cases (ltb now window)) [
    | inl early ↦
        let all =
          count_scores-same (λ t. true) (is_live window now) (members key r)
            (λ t. ground (arith, early)) in
        ground (arith, early, laws.zcard_counts key r, all)
    | inr late ↦
        let kept = laws.zrem_removes key 0 (now - window) r (λ t. true) in
        let rest =
          count_scores-same (λ t. true && not (leb 0 t && leb t (now - window)))
            (is_live window now) (members key r) (λ t. ground (arith, late)) in
        ground (
          arith,
          late,
          laws.zcard_counts key (server.zremrangebyscore key 0 (now - window) r),
          kept,
          rest,
        )
  ]

  pipeline-counts :
      (key : String) (window now : ℕ) (r : Redis)
      → 0 < window
      → server.answers r ≡ true
      → is_none (lookup (λ m. m.0) (server.member_at now) (members key r)) ≡ true
      → (pipeline server key window now r).0
        ≡ some (1 + count_scores (is_live window now) (members key r))
  unfolding pipeline
  pipeline-counts key window now r lasts up fresh =
      let added = server.zadd key (server.member_at now) now r in
      let one = laws.zadd_adds key (server.member_at now) now r (is_live window now) fresh in
      let counted = remove_expired-counts key window now added in ground (arith, one, counted)

  -- While Redis answers, a request whose member is new is admitted exactly where the requests of its
  -- window, with itself among them, are fewer than the limit, whether the limiter fails open or not, and
  -- the in-memory limiter is left as it is; which itself admits a request where those before it
  -- are fewer than the limit.
  pub decide-counts_itself :
      (fail_open : Bool) (key : String) (limit window now : ℕ) (s : Limiters Redis)
      → 0 < window
      → server.answers s.redis ≡ true
      → is_none (lookup (λ m. m.0) (server.member_at now) (members key s.redis)) ≡ true
      → let decided = decide server fail_open key limit window now s in
        let before = count_scores (is_live window now) (members key s.redis) in
        (decided.0.allowed ≡ ltb (1 + before) limit)
        × (decided.1.local_fallback ≡ s.local_fallback)
        × ((is_allowed key limit window now s.local_fallback).0.allowed
            ≡ ltb (length (keep (is_live window now) (stored key s.local_fallback))) limit)
  unfolding decide redis_is_allowed is_allowed
  decide-counts_itself fail_open key limit window now s lasts up fresh =
      let counted = pipeline-counts key window now s.redis lasts up fresh in
      (ground (arith, counted), ground (arith, counted), ground arith)
