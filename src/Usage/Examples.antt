-- ===== src/Usage/Examples.antt =====
-- A request that is recorded twice.
use zyntry_backend.Prelude.{String, ◌≡◌, refl, none, some, true, false, [], ◌∷◌, ◌++◌}
use zyntry_backend.Prelude.Int.{pos}
use zyntry_backend.Usage.{
  UsageRequest, UsageLog, UsageStore, analytics_of, funded, record_usage, missing_greenlet,
  returned,
}
use zyntry_backend.Usage.Recorded.{record_usage-once}

abbrev same : String → String
same s = s

abbrev usage : UsageRequest
usage = record {
  user_id = "u";
  provider = "openai";
  model = "m";
  operation = "chat";
  cost = pos 12;
  organization_id = none;
  project_id = some "p";
  runtime_id = none;
  api_key_id = none;
  request_id = some "q";
  input_tokens = 10;
  output_tokens = 5;
  cached_tokens = 0;
  embedding_tokens = 0;
  vector_searches = 0;
  storage_bytes = 0;
  requests = 1;
  latency_ms = some 30;
  provider_cost = pos 1000;
  platform_markup = pos 2;
}

abbrev store : UsageStore
store = record { logs = []; analytics = []; funding = record { accounts = []; events = [] } }

abbrev row : UsageLog
row = record { id = "l"; attributes = usage }

record_usage-once_example :
    let first = record_usage same "l" true "f" usage store in
    (first.0 ≡ missing_greenlet)
    × (first.1.logs ≡ store.logs ++ row ∷ [])
    × (first.1.analytics ≡ store.analytics ++ analytics_of usage)
    × (first.1.funding ≡ funded same true "f" usage store.funding)
    × (record_usage same "l2" false "g" usage first.1 ≡ (returned row, first.1))
record_usage-once_example =
    record_usage-once same "l" "l2" "f" "g" true false usage usage "q" store refl refl refl refl
      refl
