-- ===== src/Routing/Choice.antt =====
-- What routing chooses.
use zyntry_backend.Prelude.{
  String, ◌≡◌, refl, some, Bool, true, false, not, ◌&&◌, List, [], ◌∷◌, ◌++◌, All, arith, keep, map,
  Option-cases, Bool-cases, inl, inr,
}
use mathlib.Core.Path.{subst}
use zyntry_backend.Prelude.Lists.{sort, insert_sorted}
use zyntry_backend.Prelude.Int.{ltb_ℤ, ℤ, ◌≤ℤ◌, int_laws}
use zyntry_backend.Routing.{
  Model, ModelCandidate, RoutingPreference, Catalog, Credential, qualifies, score_model, mentions,
  has_key, keys_of, or_registered, ordered_providers, provider_priority, candidates_from,
  build_from, build_candidates, outranks, route, first,
}

module _ {A : Type 0} (P : A → Type 0) where
  All-append : (xs ys : List A) → All P xs → All P ys → All P (xs ++ ys)
  All-append [] ys h k = k
  All-append (x ∷ xs) ys h k = (h.0, All-append xs ys h.1 k)

  All-insert_sorted :
      (before : A → A → Bool) (a : A) (xs : List A)
      → P a
      → All P xs
      → All P (insert_sorted before a xs)
  unfolding insert_sorted
  All-insert_sorted before a [] p h = (p, h)
  All-insert_sorted before a (x ∷ xs) p h = ground (arith, All-insert_sorted before a xs p h.1)

  All-sort : (before : A → A → Bool) (xs : List A) → All P xs → All P (sort before xs)
  unfolding sort
  All-sort before [] h = h
  All-sort before (x ∷ xs) h =
      All-insert_sorted before x (sort before xs) h.0 (All-sort before xs h.1)

-- What a preference asks of a candidate.
module _ (k : Catalog) (p : RoutingPreference) (creds : List Credential) where
  pub record IsEligible (c : ModelCandidate) : Type 0 where
    pub qualified : qualifies k p c.model_info ≡ true
    pub scored : c.score ≡ score_model c.model_info p c.provider_name
    pub allowed : mentions c.provider_name p.excluded_providers ≡ false
    pub keyed : has_key c.provider_name creds ≡ true

  abbrev IsAllowed : String → Type 0
  IsAllowed n = mentions n p.excluded_providers ≡ false

  abbrev candidates_of : String → List Model → List ModelCandidate
  candidates_of n ms =
      map (λ m. record { model_info = m; provider_name = n; score = score_model m p n })
        (keep (qualifies k p) ms)

  candidates-IsEligible :
      (n : String) (ms : List Model)
      → IsAllowed n
      → has_key n creds ≡ true
      → All IsEligible (candidates_of n ms)
  candidates-IsEligible n [] allowed keyed = tt
  candidates-IsEligible n (m ∷ ms) allowed keyed =
      let rest = candidates-IsEligible n ms allowed keyed in
      let made : ModelCandidate = record {
        model_info = m;
        provider_name = n;
        score = score_model m p n;
      } in
      elim (Bool-cases (qualifies k p m)) [
        | inl holds ↦
            let step : candidates_of n (m ∷ ms) ≡ made ∷ candidates_of n ms = ground arith in
            let good : IsEligible made = record {
              qualified = holds;
              scored = refl;
              allowed = allowed;
              keyed = keyed;
            } in
            simp step (good, rest)
        | inr fails ↦
            let step : candidates_of n (m ∷ ms) ≡ candidates_of n ms = ground arith in
            simp step rest
      ]

  build_from-IsEligible :
      (ns : List String) → All IsAllowed ns → All IsEligible (build_from k p creds ns).0
  unfolding build_from
  build_from-IsEligible [] h = tt
  build_from-IsEligible (n ∷ ns) h =
      let rest = build_from-IsEligible ns h.1 in
      let skip : (build_from k p creds (n ∷ ns)).0 ≡ (build_from k p creds ns).0
          → All IsEligible (build_from k p creds (n ∷ ns)).0 =
        λ step. simp step rest in
      elim (Bool-cases (has_key n creds)) [
        | inr fails ↦ skip (ground arith)
        | inl holds ↦ elim (Bool-cases (k.is_supported n)) [
          | inr fails ↦ skip (ground arith)
          | inl supported ↦ elim (Option-cases (k.list_models n)) [
            | inl raised ↦ skip (ground arith)
            | inr (ms, found) ↦
                let step : (build_from k p creds (n ∷ ns)).0
                    ≡ candidates_from k p n ms ++ (build_from k p creds ns).0 =
                  ground arith in
                simp step (
                  All-append IsEligible _ _
                    (candidates-IsEligible n (or_registered k n ms) h.0 holds) rest)
          ]
        ]
      ]

  keep-IsAllowed :
      (q : String → Bool) (ns : List String)
      → All IsAllowed (keep (λ n. q n && not (mentions n p.excluded_providers)) ns)
  keep-IsAllowed q [] = tt
  keep-IsAllowed q (n ∷ ns) = ground (arith, keep-IsAllowed q ns)

  build_candidates-IsEligible : All IsEligible (build_candidates k p creds).0
  unfolding build_candidates ordered_providers
  build_candidates-IsEligible = build_from-IsEligible (ordered_providers p creds) (
      All-append IsAllowed _ _ (keep-IsAllowed _ (provider_priority p.goal))
        (All-sort IsAllowed _ _ (keep-IsAllowed _ (keys_of creds))))

-- The best candidate comes first.
abbrev pub NotAbove : ℤ → ModelCandidate → Type 0
NotAbove top c = c.score ≤ℤ top

abbrev IsRanked : List ModelCandidate → Type 0
IsRanked [] = Unit
IsRanked (c ∷ cs) = All (NotAbove c.score) cs

NotAbove-trans :
    (a b : ℤ) (cs : List ModelCandidate) → a ≤ℤ b → All (NotAbove a) cs → All (NotAbove b) cs
NotAbove-trans a b [] h k = tt
NotAbove-trans a b (c ∷ cs) h k = (grind (int_laws, h, k.0), NotAbove-trans a b cs h k.1)

insert_sorted-IsRanked :
    (c : ModelCandidate) (cs : List ModelCandidate)
    → IsRanked cs
    → IsRanked (insert_sorted outranks c cs)
unfolding insert_sorted
insert_sorted-IsRanked c [] h = tt
insert_sorted-IsRanked c (d ∷ ds) h = elim (Bool-cases (ltb_ℤ c.score d.score)) [
  | inl below ↦
      let low : c.score ≤ℤ d.score = grind (int_laws, below) in
      let step : insert_sorted outranks c (d ∷ ds) ≡ d ∷ insert_sorted outranks c ds =
        ground arith in
      simp step (All-insert_sorted (NotAbove d.score) outranks c ds low h)
  | inr above ↦
      let low : d.score ≤ℤ c.score = grind (int_laws, above) in
      let step : insert_sorted outranks c (d ∷ ds) ≡ c ∷ d ∷ ds = ground arith in
      simp step (low, NotAbove-trans d.score c.score ds low h)
]

sort-IsRanked : (cs : List ModelCandidate) → IsRanked (sort outranks cs)
unfolding sort
sort-IsRanked [] = tt
sort-IsRanked (c ∷ cs) = insert_sorted-IsRanked c (sort outranks cs) (sort-IsRanked cs)

-- The candidate that routing returns meets each requirement of the preference, is of a provider that
-- has a key and is not excluded, has the score of its model, and no candidate that it ranks below it
-- has a higher score.
pub route-IsEligible :
    (k : Catalog) (p : RoutingPreference) (creds : List Credential) {c : ModelCandidate}
    → route k p creds ≡ some c
    → IsEligible k p creds c
      × ((rest : List ModelCandidate) × (sort outranks (build_candidates k p creds).0 ≡ c ∷ rest)
          × All (NotAbove c.score) rest)
unfolding route
route-IsEligible k p creds h =
    first_of (sort outranks (build_candidates k p creds).0)
      (All-sort (IsEligible k p creds) outranks _ (build_candidates-IsEligible k p creds))
      (sort-IsRanked (build_candidates k p creds).0) h
  where
    first_of :
        (cs : List ModelCandidate) {c : ModelCandidate}
        → All (IsEligible k p creds) cs
        → IsRanked cs
        → first cs ≡ some c
        → IsEligible k p creds c
          × ((rest : List ModelCandidate) × (cs ≡ c ∷ rest) × All (NotAbove c.score) rest)
    first_of [] a r e = absurd (ground arith)
    first_of (d ∷ ds) {c = c} a r e =
        let same : d ≡ c = ground arith in
        subst
          (λ x.
            IsEligible k p creds x
            × ((rest : List ModelCandidate) × (d ∷ ds ≡ x ∷ rest) × All (NotAbove x.score) rest))
          same (a.0, (ds, refl, r))
