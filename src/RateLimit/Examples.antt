-- ===== src/RateLimit/Examples.antt =====
-- The limiters on concrete calls.
use zyntry_backend.Prelude.{
  ℕ, ◌+◌, String, ◌≡◌, refl, false, List, [], ◌∷◌, arith, ltb, leb, length, keep, not, ◌&&◌, ◌==◌,
  Bool, true, if◌then◌else◌,
}
use zyntry_backend.Tables.{lookup, upsert}
use zyntry_backend.RateLimit.{RedisServer, Limiters, is_allowed, decide}
use zyntry_backend.RateLimit.Window.{
  Call, admitted, AreWithin, store_after, live_count, admitted-AreWithin, admits-exactly,
}
use zyntry_backend.RateLimit.Outage.{decide-counts_itself, IsSortedSets, count_scores, is_none}

abbrev calls : List Call
calls =
    record { key = "a"; at = 1 }
    ∷ record { key = "a"; at = 2 }
    ∷ record { key = "b"; at = 2 }
    ∷ record { key = "a"; at = 3 }
    ∷ []

admitted-AreWithin_example : AreWithin 2 60 (admitted 2 60 "a" calls [] [])
admitted-AreWithin_example =
    admitted-AreWithin 2 60 "a" calls (omega arith, (omega arith, (omega arith, (omega arith, tt))))

abbrev next_call : Call
next_call = record { key = "a"; at = 70 }

admits-exactly_example :
    (is_allowed "a" 2 60 70 (store_after 2 60 calls [])).0.allowed
    ≡ ltb (live_count 2 60 70 (admitted 2 60 "a" calls [] [])) 2
admits-exactly_example =
    admits-exactly 2 60 calls next_call
      (omega arith, (omega arith, (omega arith, (omega arith, (omega arith, tt)))))

-- A server with one sorted set, which keeps its members in the order in which they come.
abbrev server : RedisServer (List (String × ℕ))
server = record {
  answers = λ r. true;
  member_at = λ now. if now == 5 then "5:1" else "1:1";
  zadd = λ key member score r. upsert (λ m. m.0) (member, score) r;
  zremrangebyscore = λ key low high r. keep (λ m. not (leb low m.1 && leb m.1 high)) r;
  zcard = λ key r. length r;
  expire = λ key seconds r. r;
}

abbrev members : String → List (String × ℕ) → List (String × ℕ)
members key r = r

adds :
    (member : String) (score : ℕ) (r : List (String × ℕ)) (p : ℕ → Bool)
    → is_none (lookup (λ m. m.0) member r) ≡ true
    → count_scores p (upsert (λ m. m.0) (member, score) r)
      ≡ (if p score then 1 else 0) + count_scores p r
unfolding upsert
adds member score [] p fresh = ground arith
adds member score ((m, t) ∷ r) p fresh = ground (arith, adds member score r p)

removes :
    (low high : ℕ) (r : List (String × ℕ)) (p : ℕ → Bool)
    → count_scores p (keep (λ m. not (leb low m.1 && leb m.1 high)) r)
      ≡ count_scores (λ t. p t && not (leb low t && leb t high)) r
removes low high [] p = refl
removes low high ((m, t) ∷ r) p = ground (arith, removes low high r p)

counts : (r : List (String × ℕ)) → length r ≡ count_scores (λ t. true) r
counts [] = refl
counts (m ∷ r) = ground (arith, counts r)

laws : IsSortedSets server members
laws = record {
  zadd_adds = λ key member score r p fresh. adds member score r p fresh;
  zrem_removes = λ key low high r p. removes low high r p;
  zcard_counts = λ key r. counts r;
}

abbrev limiters : Limiters (List (String × ℕ))
limiters = record { redis = ("1:1", 1) ∷ []; local_fallback = [] }

decide-counts_itself_example :
    ((decide server false "a" 2 60 5 limiters).0.allowed ≡ ltb (1 + 1) 2)
    × ((decide server false "a" 2 60 5 limiters).1.local_fallback ≡ [])
    × ((is_allowed "a" 2 60 5 []).0.allowed ≡ ltb 0 2)
decide-counts_itself_example =
    decide-counts_itself server members laws false "a" 2 60 5 limiters (omega arith) refl refl
