-- ===== src/Routing/Examples.antt =====
-- Two models of two providers, of which the better one fails.
use zyntry_backend.Prelude.{
  String, ◌≡◌, refl, none, some, true, false, List, [], ◌∷◌, All, str_eq, if◌then◌else◌,
}
use zyntry_backend.Prelude.Lists.{sort}
use zyntry_backend.Prelude.Int.{◌+ℤ◌, ◌-ℤ◌}
use zyntry_backend.Routing.{
  reasoning, RoutingPreference, Model, ModelCandidate, Credential, Catalog, route, build_candidates,
  build_from, outranks, score_model,
}
use zyntry_backend.Routing.Choice.{IsEligible, NotAbove, route-IsEligible}
use zyntry_backend.Routing.Invoke.{Service, attempt_each}
use zyntry_backend.Routing.Attempts.{Course, attempt_each-Course}

abbrev model : String → String → String → Model
model id provider quality = record {
  id = id;
  provider = provider;
  max_context = 128000;
  max_output_tokens = 4096;
  supports_vision = false;
  supports_tools = true;
  supports_streaming = true;
  supports_embeddings = false;
  latency_tier = "fast";
  quality_tier = quality;
  input_price_per_1k = none;
}

abbrev catalog : Catalog
catalog = record {
  list_models = λ p.
      if str_eq p "openai"
      then some (model "a" "openai" "high" ∷ [])
      else some (model "b" "groq" "low" ∷ []);
  registered = λ p. [];
  is_supported = λ p. true;
  is_special = λ n. false;
}

abbrev preference : RoutingPreference
preference = record {
  goal = reasoning;
  preferred_providers = [];
  excluded_providers = [];
  max_cost_per_1k = none;
  min_context = some 1000;
  required_context_tokens = none;
  requires_vision = false;
  requires_tools = true;
  requires_streaming = false;
  failover_enabled = true;
}

abbrev credentials : List Credential
credentials =
    record { provider = "groq"; api_key = "g" } ∷ record { provider = "openai"; api_key = "o" } ∷ []

abbrev candidate : String → String → String → ModelCandidate
candidate id provider quality = record {
  model_info = model id provider quality;
  provider_name = provider;
  score = score_model (model id provider quality) preference provider;
}

-- The first provider breaks off after its first piece.
abbrev service : Service
service = record {
  streams = true;
  reply = λ p m n.
      if str_eq p "openai"
      then record { pieces = "" ∷ []; failure = some "timeout"; latency_ms = 10 }
      else record { pieces = "Hel" ∷ "lo" ∷ []; failure = none; latency_ms = 20 };
  short = λ x. x;
  catalog_error = λ p. "";
  normal = λ x. x;
  config = record { failure_threshold = 3; cooldown_seconds = 60 };
  now = 0;
}

abbrev candidates : List ModelCandidate
candidates = candidate "a" "openai" "high" ∷ candidate "b" "groq" "low" ∷ []

chosen : route catalog preference credentials ≡ some (candidate "a" "openai" "high")
unfolding route sort build_from ◌+ℤ◌ ◌-ℤ◌
chosen = refl

route-IsEligible_example :
    IsEligible catalog preference credentials (candidate "a" "openai" "high")
    × ((rest : List ModelCandidate) × (sort outranks
            (build_candidates catalog preference credentials).0
          ≡ candidate "a" "openai" "high" ∷ rest)
        × All (NotAbove (candidate "a" "openai" "high").score) rest)
route-IsEligible_example =
    route-IsEligible catalog preference credentials {c = candidate "a" "openai" "high"} chosen

attempt_each-Course_example :
    Course service catalog 1000 candidates (attempt_each service catalog 1000 candidates [] "")
attempt_each-Course_example = attempt_each-Course service catalog 1000 candidates [] ""
