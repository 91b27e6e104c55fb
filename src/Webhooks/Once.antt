-- ===== src/Webhooks/Once.antt =====
-- How often an event is posted.
pub mod Events
use zyntry_backend.Prelude.{
  ℕ, ◌+◌, ◌≤◌, String, ◌≡◌, ◌≢◌, refl, ◌⊎◌, none, some, true, false, ◌||◌, List, [], ◌∷◌, ◌++◌,
  arith, Bool-cases, Option-cases, inl, inr, str_eq, eq_iff, if◌then◌else◌, leb,
}
use zyntry_backend.Session.{is_some}
use zyntry_backend.Tables.{lookup}
use zyntry_backend.Webhooks.{
  ProcessedWebhookEvent, WebhookSubscription, WebhookDelivery, Store, Attempt, Answer, status,
  raised, delivered, event, update_event, with_outcome, or_drawn, hold_back, post, begin, deliver,
  fail, http_error, failed, processed, processing,
}
use zyntry_backend.Webhooks.Once.Events.{
  count, count-snoc, IsOnce, IsPost, IsOnce-post, Answer-cases, IsPost-of,
}

module _ (hash : ℕ → ℕ) where
  -- After the insertion of the event's row.
  post-IsPost :
      (a : Attempt) (sub : WebhookSubscription) (id : String) (s : Store)
      (row : ProcessedWebhookEvent)
      → row.event_id ≡ id
      → event id s.events ≡ none
      → IsPost id s (post hash a sub id (record s { events = s.events ++ row ∷ [] })).1
  unfolding post
  post-IsPost a sub id s row named fresh =
      let start : Store = record s { events = s.events ++ row ∷ [] } in
      elim (Option-cases a.url_refused) [
        | inr (reason, bad) ↦
            let step : (post hash a sub id start).1 ≡ record start {
              events = update_event id (with_outcome failed (some reason)) start.events;
            } =
              ground (arith, bad) in
            simp step (
              IsPost-of id s row (with_outcome failed (some reason)) s.posts _ named fresh
                (λ e. refl) (λ i. omega arith))
        | inl fine ↦ elim (Answer-cases a.answer) [
          | inr (error, answered) ↦
              let step : (post hash a sub id start).1 ≡ record start {
                posts = s.posts ++ id ∷ [];
                events = update_event id (with_outcome failed (some error)) start.events;
              } =
                ground (arith, fine, answered) in
              simp step (
                IsPost-of id s row (with_outcome failed (some error)) (s.posts ++ id ∷ []) _ named
                  fresh (λ e. refl) (λ i. ground (arith, count-snoc i id s.posts)))
          | inl (code, answered) ↦
              let told : (i : String)
                  → count i (s.posts ++ id ∷ [])
                    ≤ count i s.posts + (if str_eq id i then 1 else 0) =
                λ i. ground (arith, count-snoc i id s.posts) in
              let row_of : WebhookDelivery = record {
                subscription_id = sub.id;
                event_type = a.event_type;
                response_status = code;
                attempts = a.retries + 1;
              } in
              let kept : Store = record start {
                posts = s.posts ++ id ∷ [];
                deliveries = s.deliveries ++ row_of ∷ [];
              } in
              elim (Bool-cases (leb 400 code)) [
                | inl bad ↦
                    let step : (post hash a sub id start).1 ≡ fail hash id (http_error hash) kept =
                      ground (arith, fine, answered, bad) in
                    simp step (
                      IsPost-of id s row (with_outcome failed (some (http_error hash)))
                        (s.posts ++ id ∷ []) _ named fresh (λ e. refl) told)
                | inr good ↦
                    let step : (post hash a sub id start).1 ≡ record kept {
                      events = update_event id (λ e. record e { status = processed }) kept.events;
                    } =
                      ground (arith, fine, answered, good) in
                    simp step (
                      IsPost-of id s row (λ e. record e { status = processed }) (s.posts ++ id ∷ [])
                        _ named fresh (λ e. refl) told)
              ]
        ]
      ]

  begin-IsOnce :
      (a : Attempt) (sub : WebhookSubscription) (id : String) (s : Store)
      → IsOnce s
      → IsOnce (begin hash a sub id s).1
  unfolding begin
  begin-IsOnce a sub id s h = elim (Option-cases (event id s.events)) [
    | inr (e, known) ↦
        let step : (begin hash a sub id s).1 ≡ s = ground (arith, known) in simp step h
    | inl fresh ↦
        let row : ProcessedWebhookEvent = record {
          event_id = id;
          event_type = a.event_type;
          status = processing;
          error = none;
          received_at = a.now;
        } in
        let step : (begin hash a sub id s).1
            ≡ (post hash a sub id (record s { events = s.events ++ row ∷ [] })).1 =
          ground (arith, fresh) in
        simp step (IsOnce-post id s _ h (post-IsPost a sub id s row refl fresh))
  ]

  deliver-IsOnce :
      (subs : List WebhookSubscription) (a : Attempt) (s : Store)
      → IsOnce s
      → IsOnce (deliver hash subs a s).1
  unfolding deliver
  deliver-IsOnce subs a s h = elim (Option-cases (lookup (λ x. x.id) a.subscription_id subs)) [
    | inl lost ↦ let step : (deliver hash subs a s).1 ≡ s = ground (arith, lost) in simp step h
    | inr (sub, found) ↦
        let i = or_drawn a.event_id a.drawn in
        let begun = begin-IsOnce a sub i s h in
        elim (Bool-cases sub.active) [
          | inr idle ↦
              let step : (deliver hash subs a s).1 ≡ s = ground (arith, found, idle) in simp step h
          | inl active ↦ elim (Option-cases (event i s.events)) [
            | inl new ↦
                let step : (deliver hash subs a s).1 ≡ (begin hash a sub i s).1 =
                  ground (arith, found, active, new) in
                simp step begun
            | inr (e, known) ↦ elim (Option-cases (hold_back hash a.now e)) [
              | inr (held, why) ↦
                  let step : (deliver hash subs a s).1 ≡ s =
                    ground (arith, found, active, known, why) in
                  simp step h
              | inl free ↦
                  let step : (deliver hash subs a s).1 ≡ (begin hash a sub i s).1 =
                    ground (arith, found, active, known, free) in
                  simp step begun
            ]
          ]
        ]
  ]

  hold_back-delivers_not :
      (now : ℕ) (e : ProcessedWebhookEvent) (i : String) (n : ℕ)
      → hold_back hash now e ≢ some (delivered i n)
  hold_back-delivers_not now e i n h = ground arith

  -- The store after attempts of tasks, each with the subscriptions that it finds.
  abbrev pub deliver_all : List (List WebhookSubscription × Attempt) → Store → Store
  deliver_all [] s = s
  deliver_all ((subs, a) ∷ rest) s = deliver_all rest (deliver hash subs a s).1

  abbrev pub empty_store : Store
  empty_store = record { events = []; deliveries = []; posts = [] }

  deliver_all-IsOnce :
      (runs : List (List WebhookSubscription × Attempt)) (s : Store)
      → IsOnce s
      → IsOnce (deliver_all runs s)
  deliver_all-IsOnce [] s h = h
  deliver_all-IsOnce ((subs, a) ∷ rest) s h =
      deliver_all-IsOnce rest (deliver hash subs a s).1 (deliver-IsOnce subs a s h)

  unnamed-posts :
      (subs : List WebhookSubscription) (a : Attempt) (s : Store) {sub : WebhookSubscription}
      → lookup (λ x. x.id) a.subscription_id subs ≡ some sub
      → sub.active ≡ true
      → a.event_id ≡ none
      → a.url_refused ≡ none
      → event a.drawn s.events ≡ none
      → (deliver hash subs a s).1.posts ≡ s.posts ++ a.drawn ∷ []
  unfolding deliver begin post
  unnamed-posts subs a s found active unnamed fine fresh = elim (Answer-cases a.answer) [
    | inl (code, answered) ↦ ground arith
    | inr (error, answered) ↦ ground arith
  ]

  -- Whatever attempts of tasks run, in any order and with any answers, nothing is posted for one event
  -- id twice. But an attempt that is given no event id, as the tasks of `deliver_event` and their retries
  -- are not, posts once more, whatever was posted before it: its event counts under the id that the
  -- attempt draws, provided the id is new, the subscription active and the URL accepted.
  pub deliver-once :
      (runs : List (List WebhookSubscription × Attempt)) (i : String)
      (subs : List WebhookSubscription) (a : Attempt) {sub : WebhookSubscription}
      → lookup (λ x. x.id) a.subscription_id subs ≡ some sub
      → sub.active ≡ true
      → a.event_id ≡ none
      → a.url_refused ≡ none
      → event a.drawn (deliver_all runs empty_store).events ≡ none
      → let before = deliver_all runs empty_store in
        (count i before.posts ≤ 1)
        × ((deliver hash subs a before).1.posts ≡ before.posts ++ a.drawn ∷ [])
  deliver-once runs i subs a found active unnamed fine fresh =
      let once =
        deliver_all-IsOnce runs empty_store
          (record { at_most = λ j. omega arith; recorded = λ j gone. refl }) in
      (once.at_most i, unnamed-posts subs a _ found active unnamed fine fresh)

  -- An event that has a row, also of a delivery that failed, is not posted for: the attempt leaves the
  -- tables as they are and is not a delivery, whether the event is held back or, after the wait
  -- that follows a failure, its second insertion is refused.
  pub deliver-known :
      (subs : List WebhookSubscription) (a : Attempt) (s : Store) {e : ProcessedWebhookEvent}
      → event (or_drawn a.event_id a.drawn) s.events ≡ some e
      → ((deliver hash subs a s).1 ≡ s)
        × ((i : String) (n : ℕ) → (deliver hash subs a s).0 ≢ delivered i n)
  unfolding deliver begin
  deliver-known subs a s {e = e} known =
      elim (Option-cases (lookup (λ x. x.id) a.subscription_id subs)) [
        | inl lost ↦ (ground (arith, lost), λ i n same. ground (arith, lost, same))
        | inr (sub, found) ↦ elim (Bool-cases sub.active) [
          | inr idle ↦ (ground (arith, found, idle), λ i n same. ground (arith, found, idle, same))
          | inl active ↦ elim (Option-cases (hold_back hash a.now e)) [
            | inl free ↦ (
              ground (arith, found, active, known, free),
              λ i n same. ground (arith, found, active, known, free, same),
            )
            | inr (held, why) ↦ (
              ground (arith, found, active, known, why),
              λ i n same.
                  hold_back-delivers_not a.now e i n
                    (ground (arith, found, active, known, why, same)),
            )
          ]
        ]
      ]
