-- ===== src/Webhooks.antt =====
-- The delivery of webhooks (app/tasks/webhooks.py, `deliver_webhook_task`; app/services/webhooks.py,
-- `deliver_event`). What the receiver answers and what `validate_outbound_url` says are arguments, as
-- is the hash of a text; times are microseconds. `deliver_event` starts
-- each task without an event id, so that every attempt of it draws its own. The payload's body and its
-- signature are left out, and a row of `WebhookDelivery` keeps what the answer decides.
pub mod Once
mod Examples
use zyntry_backend.Prelude.{
  ℕ, ◌+◌, ◌*◌, ◌%◌, ◌/◌, ◌^◌, min, String, Option, none, some, Bool, true, false, not, ◌&&◌, ◌||◌,
  List, [], ◌∷◌, ◌++◌, leb, ltb, map, keep, str_eq, if◌then◌else◌,
}
use zyntry_backend.Tables.{lookup}
use zyntry_backend.Chunking.{is_empty}
use zyntry_backend.Actions.{any}

pub record WebhookSubscription : Type 0 where
  pub id : String
  pub project_id : String
  pub url : String
  pub events : List String
  pub active : Bool

pub data EventStatus : Type 0 where
  processing processed failed : EventStatus

pub record ProcessedWebhookEvent : Type 0 where
  pub event_id : String
  pub event_type : String
  pub status : EventStatus
  pub error : Option String
  pub received_at : ℕ

pub record WebhookDelivery : Type 0 where
  pub subscription_id : String
  pub event_type : String
  pub response_status : ℕ
  pub attempts : ℕ

-- The tables, and the ids of the events that requests were posted for, in order.
pub record Store : Type 0 where
  pub events : List ProcessedWebhookEvent
  pub deliveries : List WebhookDelivery
  pub posts : List String

-- What the receiver does: a status, or the text of the exception.
pub data Answer : Type 0 where
  status : ℕ → Answer
  raised : String → Answer

-- An attempt of a task: its arguments and its number, and what it reads: the time, the id that it draws
-- where none is given, whether the URL is refused and why, and the answer to a post.
pub record Attempt : Type 0 where
  pub subscription_id : String
  pub event_type : String
  pub event_id : Option String
  pub retries : ℕ
  pub now : ℕ
  pub drawn : String
  pub url_refused : Option String
  pub answer : Answer

pub data Outcome : Type 0 where
  skipped conflict : Outcome
  deduplicated in_progress backs_off : String → Outcome
  delivered : String → ℕ → Outcome
  -- `self.retry`: the seconds to wait.
  retries_in : ℕ → Outcome
  gives_up : String → Outcome

abbrev pub max_retries : ℕ
max_retries = 7

-- `_exponential_backoff`, with its defaults; `hash` is that of the number's text.
unfoldable pub exponential_backoff : (ℕ → ℕ) → ℕ → ℕ
exponential_backoff hash retries =
    let delay = min (10 * 2 ^ retries) 900 in delay + hash retries % min (delay / 10) 10

abbrev pub event : String → List ProcessedWebhookEvent → Option ProcessedWebhookEvent
event i rows = lookup (λ e. e.event_id) i rows

abbrev pub with_outcome :
    EventStatus → Option String → ProcessedWebhookEvent → ProcessedWebhookEvent
with_outcome s error e = record e { status = s; error = error }

abbrev pub update_event :
    String
    → (ProcessedWebhookEvent → ProcessedWebhookEvent)
    → List ProcessedWebhookEvent
    → List ProcessedWebhookEvent
update_event i f rows = map (λ e. if str_eq e.event_id i then f e else e) rows

abbrev pub or_drawn : Option String → String → String
or_drawn none d = d
or_drawn (some i) d = if str_eq i "" then d else i

abbrev pub is_missing : Option String → Bool
is_missing none = true
is_missing (some e) = str_eq e ""

-- A text is in itself once, so a failed event with an error counts one retry.
abbrev pub retries_of : Option String → ℕ
retries_of e = if is_missing e then 0 else 1

module _ (hash : ℕ → ℕ) where
  -- Why an event that is known is not delivered now.
  abbrev pub hold_back : ℕ → ProcessedWebhookEvent → Option Outcome
  hold_back now e = elim e.status [
    | processed ↦ some (deduplicated e.event_id)
    | processing ↦ some (in_progress e.event_id)
    | failed ↦
        if ltb now (e.received_at + exponential_backoff hash (retries_of e.error) * 1000000)
        then some (backs_off e.event_id)
        else none
  ]

  -- `self.retry(exc=exc, countdown=...)`, which raises the exception after the last retry.
  abbrev pub retry : ℕ → String → Outcome
  retry retries error =
      if leb max_retries retries
      then gives_up error
      else retries_in (exponential_backoff hash retries)

  abbrev pub fail : String → String → Store → Store
  fail i error s = record s { events = update_event i (with_outcome failed (some error)) s.events }

  -- The text of the error, less the status that it ends with.
  abbrev pub http_error : String
  http_error = "Webhook failed"

  -- The post and what follows it.
  unfoldable pub post : Attempt → WebhookSubscription → String → Store → Outcome × Store
  unfolding exponential_backoff
  post a sub i s = elim a.url_refused [
    | some reason ↦ (retry a.retries reason, fail i reason s)
    | none ↦
        let sent : Store = record s { posts = s.posts ++ i ∷ [] } in
        elim a.answer [
          | raised error ↦ (retry a.retries error, fail i error sent)
          | status code ↦
              let row : WebhookDelivery = record {
                subscription_id = sub.id;
                event_type = a.event_type;
                response_status = code;
                attempts = a.retries + 1;
              } in
              let kept : Store = record sent { deliveries = s.deliveries ++ row ∷ [] } in
              if leb 400 code then (retry a.retries http_error, fail i http_error kept) else (
                delivered i (a.retries + 1),
                record kept {
                  events = update_event i (λ e. record e { status = processed }) kept.events;
                },
              )
        ]
  ]

  -- The insertion of the event, which the unique column refuses, and the post.
  unfoldable pub begin : Attempt → WebhookSubscription → String → Store → Outcome × Store
  unfolding post
  begin a sub i s = elim (event i s.events) [
    | some e ↦ (conflict, s)
    | none ↦
        let row : ProcessedWebhookEvent = record {
          event_id = i;
          event_type = a.event_type;
          status = processing;
          error = none;
          received_at = a.now;
        } in
        post a sub i (record s { events = s.events ++ row ∷ [] })
  ]

  -- `deliver_webhook_task`
  unfoldable pub deliver : List WebhookSubscription → Attempt → Store → Outcome × Store
  unfolding begin exponential_backoff
  deliver subs a s = elim (lookup (λ x. x.id) a.subscription_id subs) [
    | none ↦ (skipped, s)
    | some sub ↦
        let i = or_drawn a.event_id a.drawn in
        if not sub.active then (skipped, s) else elim (event i s.events) [
          | none ↦ begin a sub i s
          | some e ↦ elim (hold_back a.now e) [ some held ↦ (held, s) | none ↦ begin a sub i s ]
        ]
  ]

-- The subscriptions that `deliver_event` starts a task for.
unfoldable pub receivers :
    Option String → String → List WebhookSubscription → List WebhookSubscription
receivers none event_type subs = []
receivers (some project) event_type subs =
    keep
      (λ x.
        str_eq x.project_id project
        && x.active
        && (is_empty x.events || any (λ t. str_eq t event_type) x.events))
      subs
