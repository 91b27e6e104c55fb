-- ===== src/Webhooks/Once/Events.antt =====
-- What an attempt does to the rows of events and to the number of posts.
use zyntry_backend.Prelude.{
  ℕ, ◌+◌, ◌≤◌, String, ◌≡◌, refl, ◌⊎◌, none, true, false, ◌||◌, List, [], ◌∷◌, ◌++◌, arith,
  Bool-cases, inl, inr, str_eq, eq_iff, if◌then◌else◌,
}
use zyntry_backend.Session.{is_some}
use zyntry_backend.Webhooks.{
  ProcessedWebhookEvent, WebhookDelivery, Store, Answer, status, raised, event, update_event,
}

abbrev pub count : String → List String → ℕ
count i [] = 0
count i (x ∷ xs) = (if str_eq x i then 1 else 0) + count i xs

pub count-snoc :
    (i x : String) (xs : List String)
    → count i (xs ++ x ∷ []) ≡ count i xs + (if str_eq x i then 1 else 0)
count-snoc i x [] = ground arith
count-snoc i x (y ∷ ys) = ground (arith, count-snoc i x ys)

pub has_event-update :
    (i id : String) (f : ProcessedWebhookEvent → ProcessedWebhookEvent)
    (rows : List ProcessedWebhookEvent)
    → ((e : ProcessedWebhookEvent) → (f e).event_id ≡ e.event_id)
    → is_some (event i (update_event id f rows)) ≡ is_some (event i rows)
has_event-update i id f [] same = refl
has_event-update i id f (e ∷ es) same = ground (arith, has_event-update i id f es same, same e)

pub has_event-append :
    (i : String) (row : ProcessedWebhookEvent) (rows : List ProcessedWebhookEvent)
    → is_some (event i (rows ++ row ∷ [])) ≡ (is_some (event i rows) || str_eq row.event_id i)
has_event-append i row [] = ground arith
has_event-append i row (e ∷ es) = ground (arith, has_event-append i row es)

-- Each event is posted for at most once, and not at all where it has no row.
pub record IsOnce (s : Store) : Type 0 where
  pub at_most : (i : String) → count i s.posts ≤ 1
  pub recorded : (i : String) → is_some (event i s.events) ≡ false → count i s.posts ≡ 0

-- What an attempt does to the posts and the events.
pub record IsPost (id : String) (s next : Store) : Type 0 where
  pub fresh : event id s.events ≡ none
  pub has_row : is_some (event id next.events) ≡ true
  pub others :
      (i : String) → is_some (event i next.events) ≡ false → is_some (event i s.events) ≡ false
  pub posted : (i : String) → count i next.posts ≤ count i s.posts + (if str_eq id i then 1 else 0)

pub IsOnce-post : (id : String) (s next : Store) → IsOnce s → IsPost id s next → IsOnce next
IsOnce-post id s next h p = record {
  at_most = λ i. elim (Bool-cases (str_eq id i)) [
    | inl same ↦
        let missing : is_some (event i s.events) ≡ false = ground (arith, p.fresh, eq_iff id i) in
        ground (arith, p.posted i, h.recorded i missing, same)
    | inr other ↦ ground (arith, p.posted i, h.at_most i, other)
  ];
  recorded = λ i gone. elim (Bool-cases (str_eq id i)) [
    | inl same ↦ absurd (ground (arith, p.has_row, gone, eq_iff id i))
    | inr other ↦ ground (arith, p.posted i, h.recorded i (p.others i gone), other)
  ];
}

pub Answer-cases :
    (a : Answer) → ((code : ℕ) × (a ≡ status code)) ⊎ ((error : String) × (a ≡ raised error))
Answer-cases (status code) = inl (code, refl)
Answer-cases (raised error) = inr (error, refl)

-- The row is inserted and then updated, and at most its id is posted.
pub IsPost-of :
    (id : String) (s : Store) (row : ProcessedWebhookEvent)
    (f : ProcessedWebhookEvent → ProcessedWebhookEvent) (posts : List String)
    (deliveries : List WebhookDelivery)
    → row.event_id ≡ id
    → event id s.events ≡ none
    → ((e : ProcessedWebhookEvent) → (f e).event_id ≡ e.event_id)
    → ((i : String) → count i posts ≤ count i s.posts + (if str_eq id i then 1 else 0))
    → IsPost id s (record {
      events = update_event id f (s.events ++ row ∷ []);
      deliveries = deliveries;
      posts = posts;
    })
IsPost-of id s row f posts deliveries named fresh same told =
    let after : (i : String)
        → is_some (event i (update_event id f (s.events ++ row ∷ [])))
          ≡ is_some (event i (s.events ++ row ∷ [])) =
      λ i. has_event-update i id f (s.events ++ row ∷ []) same in
    let grown : (i : String)
        → is_some (event i (s.events ++ row ∷ []))
          ≡ (is_some (event i s.events) || str_eq row.event_id i) =
      λ i. has_event-append i row s.events in
    record {
      fresh = fresh;
      has_row = ground (arith, after id, grown id, fresh, named, eq_iff row.event_id id);
      others = λ i gone. ground (arith, after i, grown i, gone);
      posted = told;
    }
