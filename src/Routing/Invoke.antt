-- ===== src/Routing/Invoke.antt =====
-- The attempts of an invocation (app/services/model_router.py, `_invoke_with_fallback` and
-- `invoke_fixed`). What a provider answers is an argument: the pieces of text it gives and the error
-- that it raises after them, if any. Latencies are in milliseconds, the clock stands still, and the
-- usage of the answer is left out.
use zyntry_backend.Prelude.{
  ℕ, zero, suc, String, Option, none, some, Bool, true, false, not, List, [], ◌∷◌, keep, min,
  str_eq, str_append, if◌then◌else◌, map,
}
use zyntry_backend.Prelude.Int.{pos}
use zyntry_backend.Tables.{lookup}
use zyntry_backend.Health.{
  ProviderHealthState, Config, is_available_async, record_success, record_failure,
}
use zyntry_backend.Routing.{
  Catalog, RoutingPreference, Credential, Model, ModelCandidate, build_candidates,
  route_with_fallback, has_key,
}

-- `pieces` is the one answer of `chat_completion`, or what `chat_completion_stream` yields.
pub record Reply : Type 0 where
  pub pieces : List String
  pub failure : Option String
  pub latency_ms : ℕ

pub data AttemptStatus : Type 0 where
  started completed : AttemptStatus
  failed : String → AttemptStatus

pub record Attempt : Type 0 where
  pub provider : String
  pub model : String
  pub status : AttemptStatus

-- The text, the model, the provider and the error that an invocation returns.
pub record Invocation : Type 0 where
  pub text : Option String
  pub model : String
  pub provider : String
  pub error : String

-- What a loop over models does: its answer, the attempts it appends, the pieces it shows to
-- `on_token`, the health it leaves, and `last_invoked_candidate`.
pub record Run : Type 0 where
  pub answer : Invocation
  pub attempts : List Attempt
  pub shown : List String
  pub health : List ProviderHealthState
  pub invoked : Option ModelCandidate

-- What the loops read: whether `on_token` is given, what the provider replies for its model and a
-- limit of output tokens, the first 500 characters of an error, and of the error of a provider's catalog,
-- and the health service's.
pub record Service : Type 0 where
  pub streams : Bool
  pub reply : String → String → ℕ → Reply
  pub short : String → String
  pub catalog_error : String → String
  pub normal : String → String
  pub config : Config
  pub now : ℕ

abbrev pub join : List String → String
join [] = ""
join (x ∷ xs) = str_append x (join xs)

-- A piece that is empty is skipped.
abbrev pub shown_of : Service → Reply → List String
shown_of s r = if s.streams then keep (λ x. not (str_eq x "")) r.pieces else []

abbrev pub is_silent : List String → Bool
is_silent [] = true
is_silent (x ∷ xs) = false

abbrev pub attempt_of : String → String → AttemptStatus → Attempt
attempt_of p m status = record { provider = p; model = m; status = status }

abbrev pub refused : Option String → String → String → Invocation
refused text provider error = record { text = text; model = ""; provider = provider; error = error }

-- `model_info.max_output_tokens or max_tokens`
abbrev pub output_limit : ℕ → ℕ → ℕ
output_limit max_tokens zero = max_tokens
output_limit max_tokens (suc n) = min max_tokens (suc n)

abbrev pub text_of : Service → Reply → String
text_of s r = if s.streams then join (shown_of s r) else join r.pieces

-- An entry of `availability`.
pub record Seen : Type 0 where
  pub provider : String
  pub is_up : Bool

-- `FailoverManager.eligible_async`, which asks the health service once for each provider.
unfoldable pub eligible_async :
    Service
    → Option (String → Option Bool)
    → List Seen
    → List ModelCandidate
    → List ProviderHealthState
    → List ModelCandidate × List ProviderHealthState
eligible_async s blocked seen [] health = ([], health)
eligible_async s blocked seen (c ∷ cs) health =
    let p = s.normal c.provider_name in
    elim (lookup (λ x. x.provider) p seen) [
      | some x ↦
          let (rest, last) = eligible_async s blocked seen cs health in
          (if x.is_up then c ∷ rest else rest, last)
      | none ↦
          let (here, next) = is_available_async s.normal blocked s.now p health in
          let (rest, last) =
            eligible_async s blocked (record { provider = p; is_up = here } ∷ seen) cs next in
          (if here then c ∷ rest else rest, last)
    ]

-- What one candidate comes to.
pub data Outcome : Type 0 where
  skipped : Outcome
  answered : Reply → Outcome
  broken : Reply → String → Outcome

unfoldable pub outcome : Service → Catalog → ℕ → ModelCandidate → Outcome
outcome s k max_tokens c =
    let m = c.model_info in
    let r = s.reply c.provider_name m.id (output_limit max_tokens m.max_output_tokens) in
    if k.is_supported c.provider_name
    then elim r.failure [ none ↦ answered r | some e ↦ broken r e ]
    else skipped

-- The loop over the candidates, from the health and the last error it has.
unfoldable pub attempt_each :
    Service → Catalog → ℕ → List ModelCandidate → List ProviderHealthState → String → Run
unfolding outcome
attempt_each s k max_tokens [] health last_error = record {
  answer = refused none "" last_error;
  attempts = [];
  shown = [];
  health = health;
  invoked = none;
}
attempt_each s k max_tokens (c ∷ cs) health last_error =
    let p = c.provider_name in
    let id = c.model_info.id in
    elim (outcome s k max_tokens c) [
      | skipped ↦
          let rest = attempt_each s k max_tokens cs health last_error in
          record rest { attempts = attempt_of p id started ∷ rest.attempts }
      | answered r ↦ record {
        answer = record { text = some (text_of s r); model = id; provider = p; error = "" };
        attempts = attempt_of p id completed ∷ [];
        shown = shown_of s r;
        health = record_success s.normal p (some r.latency_ms) health;
        invoked = some c;
      }
      | broken r e ↦
          let after = record_failure s.normal s.config s.now p (s.short e) health in
          let rest = attempt_each s k max_tokens cs after e in
          if is_silent (shown_of s r)
          then record rest { attempts = attempt_of p id (failed (s.short e)) ∷ rest.attempts }
          else record {
            answer = refused none "" e;
            attempts = attempt_of p id (failed (s.short e)) ∷ [];
            shown = shown_of s r;
            health = after;
            invoked = none;
          }
    ]

-- The failures that `_build_candidates` records for the providers whose catalog raises.
abbrev pub record_failures :
    Service → List String → List ProviderHealthState → List ProviderHealthState
record_failures s [] health = health
record_failures s (p ∷ ps) health =
    record_failures s ps (record_failure s.normal s.config s.now p (s.catalog_error p) health)

-- `_invoke_with_fallback`
unfoldable pub invoke_with_fallback :
    Service
    → Catalog
    → Option (String → Option Bool)
    → RoutingPreference
    → List Credential
    → ℕ
    → List ProviderHealthState
    → Run
unfolding eligible_async attempt_each route_with_fallback build_candidates
invoke_with_fallback s k blocked p creds max_tokens health =
    let before = record_failures s (build_candidates k p creds).1 health in
    let (candidates, next) = eligible_async s blocked [] (route_with_fallback k p creds) before in
    elim candidates [
      | [] ↦ record {
        answer = refused none "" "No healthy provider is currently available for this request";
        attempts = [];
        shown = [];
        health = next;
        invoked = none;
      }
      | ◌∷◌ c cs ↦ attempt_each s k max_tokens (c ∷ cs) next ""
    ]

-- The models that `invoke_fixed` is given, less the blank ones; `strip` is `str.strip`.
abbrev pub named_models : (String → String) → List String → List String
named_models strip names = keep (λ x. not (str_eq x "")) (map strip names)

-- `last_error or "No configured model was available"`
abbrev pub or_unavailable : String → String
or_unavailable e = if str_eq e "" then "No configured model was available" else e

-- The loop of `invoke_fixed` over the models of one provider; `info` is `model_info_for`.
unfoldable pub attempt_models :
    Service → (String → Model) → String → ℕ → List String → List ProviderHealthState → String → Run
attempt_models s info p max_tokens [] health last_error = record {
  answer = refused (some "") p (or_unavailable last_error);
  attempts = [];
  shown = [];
  health = health;
  invoked = none;
}
attempt_models s info p max_tokens (name ∷ names) health last_error =
    let m = info name in
    let r = s.reply p name (output_limit max_tokens m.max_output_tokens) in
    elim r.failure [
      | none ↦ record {
        answer = record { text = some (text_of s r); model = name; provider = p; error = "" };
        attempts = attempt_of p name completed ∷ [];
        shown = shown_of s r;
        health = record_success s.normal p (some r.latency_ms) health;
        invoked = some (record { model_info = m; provider_name = p; score = pos 0 });
      }
      | some e ↦
          let after = record_failure s.normal s.config s.now p (s.short e) health in
          let rest = attempt_models s info p max_tokens names after e in
          if is_silent (shown_of s r)
          then record rest { attempts = attempt_of p name (failed (s.short e)) ∷ rest.attempts }
          else record {
            answer = refused (some "") p e;
            attempts = attempt_of p name (failed (s.short e)) ∷ [];
            shown = shown_of s r;
            health = after;
            invoked = none;
          }
    ]

-- `invoke_fixed`
unfoldable pub invoke_fixed :
    Service
    → Catalog
    → (String → Model)
    → (String → String)
    → String
    → List String
    → List Credential
    → ℕ
    → List ProviderHealthState
    → Run
unfolding attempt_models
invoke_fixed s k info strip provider_name model_names creds max_tokens health =
    let p = s.normal provider_name in
    let stop : String → Run = λ error. record {
      answer = refused (some "") p error;
      attempts = [];
      shown = [];
      health = health;
      invoked = none;
    } in
    if has_key p creds
    then if k.is_supported p
      then attempt_models s info p max_tokens (named_models strip model_names) health ""
      else stop (str_append "Provider '" (str_append p "' is not supported"))
    else stop (str_append "No credentials are configured for provider '" (str_append p "'"))
