-- ===== src/Routing.antt =====
-- The choice of a model (app/services/model_router.py, `ModelRouter`). Prices and scores are integers
-- of a millionth. The catalog of a provider and the registry are arguments, as is what the regular
-- expression `_NON_GENERATION_MODEL` says of an identifier.
pub mod Choice
pub mod Invoke
pub mod Attempts
mod Examples
use zyntry_backend.Prelude.{
  ℕ, zero, suc, ◌+◌, ◌*◌, String, Option, none, some, Bool, true, false, not, ◌&&◌, ◌||◌, List, [],
  ◌∷◌, ◌++◌, leb, ltb, ◌==◌, keep, sort, take, str_eq, str_append, if◌then◌else◌, map, str_before,
}
use zyntry_backend.Prelude.Int.{ℤ, pos, ◌+ℤ◌, ◌-ℤ◌, ◌*ℤ◌, ltb_ℤ}
use zyntry_backend.Tables.{lookup}

pub data RoutingGoal : Type 0 where
  fastest cheapest balanced reasoning coding vision long_context : RoutingGoal

pub record RoutingPreference : Type 0 where
  pub goal : RoutingGoal
  pub preferred_providers : List String
  pub excluded_providers : List String
  pub max_cost_per_1k : Option ℤ
  pub min_context : Option ℕ
  pub required_context_tokens : Option ℕ
  pub requires_vision : Bool
  pub requires_tools : Bool
  pub requires_streaming : Bool
  pub failover_enabled : Bool

pub record Model : Type 0 where
  pub id : String
  pub provider : String
  pub max_context : ℕ
  pub max_output_tokens : ℕ
  pub supports_vision : Bool
  pub supports_tools : Bool
  pub supports_streaming : Bool
  pub supports_embeddings : Bool
  pub latency_tier : String
  pub quality_tier : String
  pub input_price_per_1k : Option ℤ

pub record ModelCandidate : Type 0 where
  pub model_info : Model
  pub provider_name : String
  pub score : ℤ

-- An entry of `available_providers`: the provider and its key.
pub record Credential : Type 0 where
  pub provider : String
  pub api_key : String

abbrev pub mentions : String → List String → Bool
mentions p [] = false
mentions p (x ∷ xs) = str_eq x p || mentions p xs

-- `PROVIDER_PRIORITY`
abbrev pub provider_priority : RoutingGoal → List String
provider_priority coding = "anthropic" ∷ "openai" ∷ "deepseek" ∷ "groq" ∷ []
provider_priority fastest = "groq" ∷ "deepseek" ∷ "openrouter" ∷ "openai" ∷ []
provider_priority cheapest = "deepseek" ∷ "groq" ∷ "openrouter" ∷ "mistral" ∷ []
provider_priority reasoning = "anthropic" ∷ "openai" ∷ "deepseek" ∷ []
provider_priority balanced = "openai" ∷ "anthropic" ∷ "groq" ∷ "deepseek" ∷ []
provider_priority vision = "openai" ∷ "anthropic" ∷ "google" ∷ []
provider_priority long_context = "anthropic" ∷ "openai" ∷ "deepseek" ∷ []

-- `preference.required_context_tokens or preference.min_context`, where zero counts as none.
abbrev pub or_context : Option ℕ → Option ℕ → ℕ
or_context none none = 0
or_context none (some m) = m
or_context (some zero) none = 0
or_context (some zero) (some m) = m
or_context (some (suc n)) m = suc n

abbrev pub required_context : RoutingPreference → ℕ
required_context p = or_context p.required_context_tokens p.min_context

abbrev pub points : ℕ → ℤ
points n = pos (n * 1000000)

abbrev pub bonus : Bool → ℕ → ℤ
bonus true n = points n
bonus false n = pos 0

abbrev pub price_times : ℕ → Option ℤ → ℤ
price_times n none = pos 0
price_times n (some p) = p *ℤ pos n

abbrev pub is_high_quality : Model → Bool
is_high_quality m = str_eq m.quality_tier "high" || str_eq m.quality_tier "premium"

-- The part of the score that depends on the goal.
unfoldable pub goal_score : RoutingGoal → Model → String → ℤ
goal_score cheapest m p =
    bonus (str_eq m.latency_tier "fast") 5 -ℤ price_times 10 m.input_price_per_1k
goal_score fastest m p =
    (if str_eq m.latency_tier "fast" then points 30 else bonus (str_eq m.latency_tier "medium") 10)
    -ℤ price_times 2 m.input_price_per_1k
goal_score coding m p =
    bonus m.supports_tools 20
    +ℤ bonus (is_high_quality m) 15
    +ℤ bonus (str_eq p "anthropic" || str_eq p "openai") 10
goal_score reasoning m p = bonus (is_high_quality m) 25 +ℤ bonus (leb 128000 m.max_context) 10
goal_score vision m p =
    bonus m.supports_vision 30
    +ℤ bonus (str_eq p "openai" || str_eq p "anthropic" || str_eq p "google") 10
goal_score long_context m p =
    if leb 200000 m.max_context
    then points 30
    else if leb 128000 m.max_context
    then points 20
    else bonus (leb 32000 m.max_context) 10
goal_score balanced m p = pos 0

abbrev pub is_above : Option ℤ → Option ℤ → Bool
is_above none _ = false
is_above (some limit) none = false
is_above (some limit) (some price) = ltb_ℤ limit price

-- `_score_model`
unfoldable pub score_model : Model → RoutingPreference → String → ℤ
unfolding goal_score
score_model m p provider =
    points 50
    +ℤ goal_score p.goal m provider
    -ℤ bonus (is_above p.max_cost_per_1k m.input_price_per_1k) 100
    +ℤ bonus (mentions provider p.preferred_providers) 15

-- What routing reads from outside: the catalog, none where it raises; the registry; the providers
-- that are supported; and the names that are not for generation.
pub record Catalog : Type 0 where
  pub list_models : String → Option (List Model)
  pub registered : String → List Model
  pub is_supported : String → Bool
  pub is_special : String → Bool

-- `_is_generation_model`
abbrev pub is_generation_model : Catalog → Model → Bool
is_generation_model k m =
    not m.supports_embeddings
    && ltb 0 m.max_output_tokens
    && not (k.is_special (str_append m.provider (str_append "/" m.id)))

-- The tests of the loop over a provider's models.
unfoldable pub qualifies : Catalog → RoutingPreference → Model → Bool
qualifies k p m =
    is_generation_model k m
    && (not p.requires_vision || m.supports_vision)
    && (not p.requires_tools || m.supports_tools)
    && (not p.requires_streaming || m.supports_streaming)
    && leb (required_context p) m.max_context

abbrev pub keys_of : List Credential → List String
keys_of cs = map (λ c. c.provider) cs

-- The goal's order first, and then every other provider by name.
unfoldable pub ordered_providers : RoutingPreference → List Credential → List String
ordered_providers p creds =
    let prioritized =
      keep (λ n. mentions n (keys_of creds) && not (mentions n p.excluded_providers))
        (provider_priority p.goal) in
    prioritized
    ++ sort str_before (
        keep (λ n. not (mentions n prioritized) && not (mentions n p.excluded_providers))
          (keys_of creds))

abbrev pub has_key : String → List Credential → Bool
has_key n creds = elim (lookup (λ c. c.provider) n creds) [
  | none ↦ false
  | some c ↦ not (str_eq c.api_key "")
]

abbrev pub or_registered : Catalog → String → List Model → List Model
or_registered k n [] = k.registered n
or_registered k n (m ∷ ms) = m ∷ ms

abbrev pub candidates_from : Catalog → RoutingPreference → String → List Model → List ModelCandidate
candidates_from k p n ms =
    map (λ m. record { model_info = m; provider_name = n; score = score_model m p n })
      (keep (qualifies k p) (or_registered k n ms))

-- The loop of `_build_candidates`: the candidates, and the providers whose catalog raised, for which
-- it records a failure.
unfoldable pub build_from :
    Catalog → RoutingPreference → List Credential → List String → List ModelCandidate × List String
unfolding qualifies score_model
build_from k p creds [] = ([], [])
build_from k p creds (n ∷ ns) =
    let (rest, failed) = build_from k p creds ns in
    if has_key n creds && k.is_supported n
    then elim (k.list_models n) [
      | none ↦ (rest, n ∷ failed)
      | some ms ↦ (candidates_from k p n ms ++ rest, failed)
    ]
    else (rest, failed)

unfoldable pub build_candidates :
    Catalog → RoutingPreference → List Credential → List ModelCandidate × List String
unfolding ordered_providers
build_candidates k p creds = build_from k p creds (ordered_providers p creds)

-- `candidates.sort(key=lambda c: c.score, reverse=True)`
abbrev pub outranks : ModelCandidate → ModelCandidate → Bool
outranks a b = ltb_ℤ b.score a.score

unfoldable pub route_with_fallback :
    Catalog → RoutingPreference → List Credential → List ModelCandidate
unfolding build_candidates
route_with_fallback k p creds =
    let ranked = sort outranks (build_candidates k p creds).0 in
    if p.failover_enabled then ranked else take 1 ranked

abbrev pub first : List ModelCandidate → Option ModelCandidate
first [] = none
first (c ∷ cs) = some c

-- `route`
unfoldable pub route : Catalog → RoutingPreference → List Credential → Option ModelCandidate
unfolding build_candidates
route k p creds = first (sort outranks (build_candidates k p creds).0)
