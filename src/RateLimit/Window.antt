-- ===== src/RateLimit/Window.antt =====
-- The in-memory limiter admits no more than its limit in a window.
use zyntry_backend.Prelude.{
  ℕ, ◌≤◌, String, ◌≡◌, refl, List, [], ◌∷◌, ◌++◌, ltb, arith, ◌&&◌, length, keep, if◌then◌else◌,
  str_eq, eq_iff,
}
use zyntry_backend.Tables.{lookup-upsert}
use zyntry_backend.RateLimit.{Bucket, stored, is_live, is_allowed}

pub record Call : Type 0 where
  pub key : String
  pub at : ℕ

-- The calls' times never go back, from the time `last` on.
abbrev pub AreInOrder : ℕ → List Call → Type 0
AreInOrder last [] = Unit
AreInOrder last (c ∷ cs) = (last ≤ c.at) × AreInOrder c.at cs

module _ (limit window : ℕ) where
  -- The times of the admitted calls with the key `k`, the newest first, after `log`.
  unfoldable pub admitted : String → List Call → List Bucket → List ℕ → List ℕ
  admitted k [] store log = log
  admitted k (c ∷ cs) store log =
      let step = is_allowed c.key limit window c.at store in
      admitted k cs step.1 (if step.0.allowed && str_eq c.key k then c.at ∷ log else log)

  -- The store after the calls.
  unfoldable pub store_after : List Call → List Bucket → List Bucket
  store_after [] store = store
  store_after (c ∷ cs) store = store_after cs (is_allowed c.key limit window c.at store).1

  -- Each admitted call, with those before it, is one of at most `limit` in the window that ends with it.
  unfoldable pub AreWithin : List ℕ → Type 0
  AreWithin [] = Unit
  AreWithin (t ∷ ts) = (length (keep (is_live window t) (t ∷ ts)) ≤ limit) × AreWithin ts

  abbrev pub live_count : ℕ → List ℕ → ℕ
  live_count now ts = length (keep (is_live window now) ts)

  -- What the calls after the time `last` see of the bucket is what they see of the log.
  abbrev Agrees : ℕ → List ℕ → List ℕ → Type 0
  Agrees last bucket log = (n : ℕ) → last ≤ n → live_count n bucket ≡ live_count n log

  live_count-keep :
      (now n : ℕ) (ts : List ℕ)
      → now ≤ n
      → live_count n (keep (is_live window now) ts) ≡ live_count n ts
  live_count-keep now n [] h = refl
  live_count-keep now n (t ∷ ts) h = ground (arith, live_count-keep now n ts h)

  live_count-snoc : (n t : ℕ) (ts : List ℕ) → live_count n (ts ++ t ∷ []) ≡ live_count n (t ∷ ts)
  live_count-snoc n t [] = refl
  live_count-snoc n t (x ∷ xs) = ground (arith, live_count-snoc n t xs)

  stored-is_allowed :
      (key k : String) (now : ℕ) (store : List Bucket)
      → let step = is_allowed key limit window now store in
        let live = keep (is_live window now) (stored key store) in
        stored k step.1 ≡ (
          if str_eq key k
          then (if step.0.allowed then live ++ now ∷ [] else live)
          else stored k store)
  unfolding is_allowed
  stored-is_allowed key k now store =
      let live = keep (is_live window now) (stored key store) in
      ground (
        arith,
        lookup-upsert (λ b. b.key) (record { key = key; timestamps = live }) store k,
        lookup-upsert (λ b. b.key) (record { key = key; timestamps = live ++ now ∷ [] }) store k,
      )

  is_allowed-allowed :
      (key : String) (now : ℕ) (store : List Bucket)
      → (is_allowed key limit window now store).0.allowed
        ≡ ltb (live_count now (stored key store)) limit
  unfolding is_allowed
  is_allowed-allowed key now store = ground arith

  -- One call keeps the bucket and the log in agreement.
  Agrees-is_allowed :
      (k : String) (last : ℕ) (c : Call) (store : List Bucket) (log : List ℕ)
      → last ≤ c.at
      → Agrees last (stored k store) log
      → let step = is_allowed c.key limit window c.at store in
        Agrees c.at (stored k step.1) (if step.0.allowed && str_eq c.key k then c.at ∷ log else log)
  Agrees-is_allowed k last c store log later h n le = ground (
    arith,
    stored-is_allowed c.key k c.at store,
    eq_iff c.key k,
    live_count-keep c.at n (stored k store) le,
    h n,
    live_count-snoc n c.at (keep (is_live window c.at) (stored k store)),
  )

  AreWithin-admitted :
      (k : String) (last : ℕ) (cs : List Call) (store : List Bucket) (log : List ℕ)
      → AreInOrder last cs
      → Agrees last (stored k store) log
      → AreWithin log
      → AreWithin (admitted k cs store log)
  unfolding admitted AreWithin
  AreWithin-admitted k last [] store log order agrees within = within
  AreWithin-admitted k last (c ∷ cs) store log order agrees within =
      let step = is_allowed c.key limit window c.at store in
      AreWithin-admitted k c.at cs step.1
        (if step.0.allowed && str_eq c.key k then c.at ∷ log else log) order.1
        (Agrees-is_allowed k last c store log order.0 agrees)
        (ground (arith, is_allowed-allowed c.key c.at store, agrees c.at, eq_iff c.key k))

  allowed_iff-full :
      (c : Call) (last : ℕ) (cs : List Call) (store : List Bucket) (log : List ℕ)
      → AreInOrder last (cs ++ c ∷ [])
      → Agrees last (stored c.key store) log
      → (is_allowed c.key limit window c.at (store_after cs store)).0.allowed
        ≡ ltb (live_count c.at (admitted c.key cs store log)) limit
  unfolding admitted store_after
  allowed_iff-full c last [] store log order agrees =
      ground (arith, is_allowed-allowed c.key c.at store, agrees c.at)
  allowed_iff-full c last (d ∷ cs) store log order agrees =
      let step = is_allowed d.key limit window d.at store in
      allowed_iff-full c d.at cs step.1
        (if step.0.allowed && str_eq d.key c.key then d.at ∷ log else log) order.1
        (Agrees-is_allowed c.key last d store log order.0 agrees)

-- Of the calls for a key that the in-memory limiter admits, on a new limiter and with a clock that
-- does not go back, whatever calls for other keys come between, no more than the limit lie in the
-- window that ends with any one of them.
pub admitted-AreWithin :
    (limit window : ℕ) (k : String) (cs : List Call)
    → AreInOrder 0 cs
    → AreWithin limit window (admitted limit window k cs [] [])
unfolding AreWithin
admitted-AreWithin limit window k cs order =
    AreWithin-admitted limit window k 0 cs [] [] order (λ n le. refl) tt

-- After any calls on a new limiter, with a clock that does not go back, the next call is admitted
-- exactly where fewer calls for its key than the limit were admitted in the window that ends with it:
-- refused calls and the calls for other keys do not count.
pub admits-exactly :
    (limit window : ℕ) (cs : List Call) (c : Call)
    → AreInOrder 0 (cs ++ c ∷ [])
    → (is_allowed c.key limit window c.at (store_after limit window cs [])).0.allowed
      ≡ ltb (live_count limit window c.at (admitted limit window c.key cs [] [])) limit
admits-exactly limit window cs c order =
    allowed_iff-full limit window c 0 cs [] [] order (λ n le. refl)
