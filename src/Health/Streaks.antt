-- ===== src/Health/Streaks.antt =====
-- A provider's availability follows from its latest streak of failures.
use zyntry_backend.Prelude.{
  ℕ, ◌+◌, ◌*◌, ◌≤◌, String, ◌≡◌, refl, Option, none, some, Bool, true, false, List, [], ◌∷◌, leb,
  arith, str_eq, eq_iff, if◌then◌else◌, Option-cases, inl, inr, Bool-cases, ◌∙◌,
}
use zyntry_backend.Tables.{lookup, lookup-upsert, key_of_lookup}
use zyntry_backend.Health.{
  ProviderHealthState, Config, state_of, put, is_available, record_success, record_failure,
  after_success, after_failure,
}

pub data Event : Type 0 where
  succeeded : String → Option ℕ → Event
  failed : ℕ → String → String → Event
  asked : ℕ → String → Event

if_same {ℓ} : {A : Type ℓ} (b : Bool) (x : A) → (if b then x else x) ≡ x
if_same true x = refl
if_same false x = refl

module _ (normal : String → String) (config : Config) where
  unfoldable pub after : List Event → List ProviderHealthState → List ProviderHealthState
  after [] states = states
  after (succeeded p latency ∷ es) states = after es (record_success normal p latency states)
  after (failed now p error ∷ es) states =
      after es (record_failure normal config now p error states)
  after (asked now p ∷ es) states = after es (is_available normal now p states).1

  -- The failures of the provider `p` since its last success, and the time of the last one, given
  -- those before the events.
  unfoldable pub streak : String → List Event → ℕ × ℕ → ℕ × ℕ
  streak p [] s = s
  streak p (succeeded q latency ∷ es) s =
      streak p es (if str_eq (normal q) (normal p) then (0, 0) else s)
  streak p (failed now q error ∷ es) s =
      streak p es (if str_eq (normal q) (normal p) then (s.0 + 1, now) else s)
  streak p (asked now q ∷ es) s = streak p es s

  -- What the streak says of the availability.
  abbrev pub open_at : ℕ → ℕ × ℕ → Bool
  open_at now s =
      if leb config.failure_threshold s.0
      then leb (s.1 + config.cooldown_seconds * 1000000) now
      else true

  record Follows (p : String) (states : List ProviderHealthState) (s : ℕ × ℕ) : Type 0 where
    failures : (state_of normal p states).consecutive_failures ≡ s.0
    until : (state_of normal p states).unhealthy_until ≡ (
        if leb config.failure_threshold s.0
        then some (s.1 + config.cooldown_seconds * 1000000)
        else none)

  state_of-put :
      (q p : String) (s : ProviderHealthState) (states : List ProviderHealthState)
      → s.provider ≡ normal q
      → state_of normal p (put normal s states)
        ≡ (if str_eq (normal q) (normal p) then s else state_of normal p states)
  unfolding state_of
  state_of-put q p s states named =
      ground (arith, lookup-upsert (λ s. s.provider) s states (normal p))

  provider-state_of :
      (q : String) (states : List ProviderHealthState)
      → (state_of normal q states).provider ≡ normal q
  unfolding state_of
  provider-state_of q states = elim (Option-cases (lookup (λ s. s.provider) (normal q) states)) [
    | inl missing ↦ ground arith
    | inr (s, found) ↦ ground (arith, key_of_lookup (λ s. s.provider) (normal q) states {r = s})
  ]

  state_of-same :
      (q p : String) (states : List ProviderHealthState)
      → normal q ≡ normal p
      → state_of normal q states ≡ state_of normal p states
  unfolding state_of
  state_of-same q p states same = ground arith

  -- What an event on the provider `q` writes, followed at the provider `p`.
  Follows-put :
      (q p : String) (n : ProviderHealthState) (states : List ProviderHealthState) (s t : ℕ × ℕ)
      → n.provider ≡ (state_of normal q states).provider
      → (normal q ≡ normal p → n.consecutive_failures ≡ t.0)
      → (normal q ≡ normal p
          → n.unhealthy_until ≡ (
              if leb config.failure_threshold t.0
              then some (t.1 + config.cooldown_seconds * 1000000)
              else none))
      → Follows p states s
      → Follows p (put normal n states) (if str_eq (normal q) (normal p) then t else s)
  Follows-put q p n states s t named failures until h =
      let after_put = state_of-put q p n states (named ∙ provider-state_of q states) in
      elim (Bool-cases (str_eq (normal q) (normal p))) [
        | inl same ↦
            let e = (eq_iff (normal q) (normal p)).0 same in
            simp same (record {
              failures = ground (arith, after_put, failures e);
              until = ground (arith, after_put, until e);
            })
        | inr other ↦ simp other (record {
          failures = ground (arith, after_put, h.failures);
          until = ground (arith, after_put, h.until);
        })
      ]

  Follows-after :
      (p : String) (es : List Event) (states : List ProviderHealthState) (s : ℕ × ℕ)
      → 1 ≤ config.failure_threshold
      → Follows p states s
      → Follows p (after es states) (streak p es s)
  unfolding after streak record_success record_failure is_available
  Follows-after p [] states s positive h = h
  Follows-after p (succeeded q latency ∷ es) states s positive h =
      Follows-after p es (record_success normal q latency states)
        (if str_eq (normal q) (normal p) then (0, 0) else s) positive
        (Follows-put q p (after_success latency (state_of normal q states)) states s (0, 0) refl
          (λ e. refl) (λ e. ground arith) h)
  Follows-after p (failed now q error ∷ es) states s positive h =
      let old = state_of-same q p states in
      Follows-after p es (record_failure normal config now q error states)
        (if str_eq (normal q) (normal p) then (s.0 + 1, now) else s) positive
        (Follows-put q p (after_failure config now error (state_of normal q states)) states s
          (s.0 + 1, now) refl (λ e. ground (arith, old e, h.failures))
          (λ e. ground (arith, old e, h.failures, h.until)) h)
  Follows-after p (asked now q ∷ es) states s positive h =
      let old = state_of-same q p states in
      Follows-after p es (is_available normal now q states).1 s positive (
        simp (if_same (str_eq (normal q) (normal p)) s) at (
          Follows-put q p (state_of normal q states) states s s refl
            (λ e. ground (arith, old e, h.failures)) (λ e. ground (arith, old e, h.until)) h))

-- After any sequence of successes, failures and queries of any providers from an empty registry, a
-- provider is available exactly where its failures since its last success are fewer than the
-- threshold, or the cooldown after the last of them is over; names with the same normal form are the
-- same provider.
pub is_available-after :
    (normal : String → String) (config : Config) (es : List Event) (p : String) (now : ℕ)
    → 1 ≤ config.failure_threshold
    → (is_available normal now p (after normal config es [])).0
      ≡ open_at normal config now (streak normal config p es (0, 0))
unfolding is_available state_of
is_available-after normal config es p now positive =
    let start : Follows normal config p [] (0, 0) = record {
      failures = refl;
      until = ground arith;
    } in
    let end_ = Follows-after normal config p es [] (0, 0) positive start in
    ground (arith, end_.until)
