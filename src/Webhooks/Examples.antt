-- ===== src/Webhooks/Examples.antt =====
-- A delivery that fails, and its retry.
use zyntry_backend.Prelude.{ℕ, ◌≤◌, String, ◌≡◌, ◌≢◌, refl, none, some, true, List, [], ◌∷◌, ◌++◌}
use zyntry_backend.Webhooks.{
  WebhookSubscription, Store, Attempt, status, deliver, delivered, ProcessedWebhookEvent, failed,
}
use zyntry_backend.Webhooks.Once.Events.{count}
use zyntry_backend.Webhooks.Once.{deliver_all, empty_store, deliver-once, deliver-known}

abbrev hash : ℕ → ℕ
hash n = 0

abbrev subscriptions : List WebhookSubscription
subscriptions =
    record { id = "s"; project_id = "p"; url = "https://example.org"; events = []; active = true }
    ∷ []

abbrev attempt : ℕ → ℕ → Attempt
attempt n at = record {
  subscription_id = "s";
  event_type = "billing.paid";
  event_id = some "e";
  retries = n;
  now = at;
  drawn = "d";
  url_refused = none;
  answer = status 503;
}

-- A retry of the task that `deliver_event` starts.
abbrev unnamed : Attempt
unnamed = record (attempt 1 900000000) { event_id = none; drawn = "d2" }

abbrev runs : List (List WebhookSubscription × Attempt)
runs =
    (subscriptions, record (attempt 0 0) { event_id = none })
    ∷ (subscriptions, attempt 1 900000000)
    ∷ []

deliver-once_example :
    let before = deliver_all hash runs (empty_store hash) in
    (count "d" before.posts ≤ 1)
    × ((deliver hash subscriptions unnamed before).1.posts ≡ before.posts ++ "d2" ∷ [])
unfolding deliver
deliver-once_example = deliver-once hash runs "d" subscriptions unnamed refl refl refl refl refl

abbrev failed_event : ProcessedWebhookEvent
failed_event = record {
  event_id = "e";
  event_type = "billing.paid";
  status = failed;
  error = some "Webhook failed";
  received_at = 0;
}

abbrev store : Store
store = record { events = failed_event ∷ []; deliveries = []; posts = "e" ∷ [] }

deliver-known_example :
    ((deliver hash subscriptions (attempt 1 900000000) store).1 ≡ store)
    × ((i : String) (n : ℕ)
        → (deliver hash subscriptions (attempt 1 900000000) store).0 ≢ delivered i n)
deliver-known_example =
    deliver-known hash subscriptions (attempt 1 900000000) store {e = failed_event} refl
