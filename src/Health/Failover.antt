-- ===== src/Health/Failover.antt =====
-- The candidates that failover keeps.
use zyntry_backend.Prelude.{ℕ, ◌≤◌, String, ◌≡◌, refl, Bool, List, [], ◌∷◌, ◌++◌, arith, keep}
use zyntry_backend.Health.{ProviderHealthState, Config, is_available, eligible}
use zyntry_backend.Health.Streaks.{Event, asked, after, streak, open_at, is_available-after}

module _ (normal : String → String) (config : Config) where
  after-asked :
      (now : ℕ) (c : String) (es : List Event) (states : List ProviderHealthState)
      → after normal config (es ++ asked now c ∷ []) states
        ≡ (is_available normal now c (after normal config es states)).1
  unfolding after
  after-asked now c [] states = refl
  after-asked now c (Event.succeeded p latency ∷ es) states = after-asked now c es _
  after-asked now c (Event.failed at p error ∷ es) states = after-asked now c es _
  after-asked now c (asked at p ∷ es) states = after-asked now c es _

  streak-asked :
      (now : ℕ) (c p : String) (es : List Event) (s : ℕ × ℕ)
      → streak normal config p (es ++ asked now c ∷ []) s ≡ streak normal config p es s
  unfolding streak
  streak-asked now c p [] s = refl
  streak-asked now c p (Event.succeeded q latency ∷ es) s = streak-asked now c p es _
  streak-asked now c p (Event.failed at q error ∷ es) s = streak-asked now c p es _
  streak-asked now c p (asked at q ∷ es) s = streak-asked now c p es _

  keep-same :
      (p q : String → Bool) (cs : List String) → ((c : String) → p c ≡ q c) → keep p cs ≡ keep q cs
  keep-same p q [] h = refl
  keep-same p q (c ∷ cs) h = ground (arith, keep-same p q cs h, h c)

  abbrev pub is_open : ℕ → List Event → String → Bool
  is_open now es c = open_at normal config now (streak normal config c es (0, 0))

  -- After any sequence of successes, failures and queries from an empty registry, failover keeps, in
  -- their order, exactly the candidates whose provider is not in a cooldown by its own streak of
  -- failures, however often the registry is asked.
  pub eligible-after :
      (es : List Event) (now : ℕ) (cs : List String)
      → 1 ≤ config.failure_threshold
      → (eligible normal now cs (after normal config es [])).0 ≡ keep (is_open now es) cs
  unfolding eligible
  eligible-after es now [] positive = refl
  eligible-after es now (c ∷ cs) positive =
      let next = es ++ asked now c ∷ [] in
      let rest = eligible-after next now cs positive in
      let same =
        keep-same (is_open now next) (is_open now es) cs
          (λ d. simp (streak-asked now c d es (0, 0)) refl) in
      ground (
        arith,
        rest,
        same,
        after-asked now c es [],
        is_available-after normal config es c now positive,
      )
