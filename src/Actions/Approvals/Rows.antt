-- ===== src/Actions/Approvals/Rows.antt =====
-- What the requests and resolutions of confirmations do to the rows that are approved.
use zyntry_backend.Prelude.{
  ℕ, String, ◌≡◌, Option, none, some, Bool, true, false, List, [], ◌∷◌, arith, Bool-cases,
  Option-cases, inl, inr, str_eq, eq_iff, leb, if◌then◌else◌,
}
use zyntry_backend.Tables.{lookup-append, lookup-replace, key_of_lookup}
use zyntry_backend.Session.{ok, err, Error}
use zyntry_backend.Actions.{ActionConfirmation, ActionStatus, succeeded, cancelled}
use zyntry_backend.Actions.Confirmations.{
  confirmation, request, resolve, is_pending, with_status, ConfirmationRequest, confirmation_row,
  put_confirmation,
}
use zyntry_backend.Actions.Gateway.{Performance, performance, confirmed_request}

abbrev pub is_succeeded : ActionStatus → Bool
is_succeeded succeeded = true
is_succeeded _ = false

-- What is performed by an approval of a row.
abbrev pub approved : String → Option ActionConfirmation → List Performance
approved i none = []
approved i (some c) =
    if is_succeeded c.status then performance (some i) (confirmed_request c) ∷ [] else []

pub pending→unapproved :
    (i : String) (c : ActionConfirmation) → is_pending c.status ≡ true → approved i (some c) ≡ []
pending→unapproved i c h = ground arith

-- A request leaves what is approved.
pub approved-request :
    (now : ℕ) (id : String) (r : ConfirmationRequest) (rows : List ActionConfirmation) (i : String)
    → approved i (confirmation i (request now id r rows).1) ≡ approved i (confirmation i rows)
unfolding request
approved-request now id r rows i = elim (Option-cases (confirmation id rows)) [
  | inr (c, found) ↦ ground (arith, found)
  | inl free ↦
      let found = lookup-append (λ c. c.id) i rows (confirmation_row now id r ∷ []) in
      ground (arith, free, found)
]

-- The status of a pending row is set.
pub approved-put :
    (status : ActionStatus) (c : ActionConfirmation) (id : String) (rows : List ActionConfirmation)
    (i : String)
    → confirmation id rows ≡ some c
    → is_pending c.status ≡ true
    → approved i (confirmation i (put_confirmation (with_status status c) rows)) ≡ (
        if str_eq id i
        then approved i (some (with_status status c))
        else approved i (confirmation i rows))
approved-put status c id rows i found waits =
    let key = key_of_lookup (λ c. c.id) id rows {r = c} found in
    let same : confirmation c.id rows ≡ some c = simp key found in
    let after = lookup-replace (λ c. c.id) (with_status status c) rows i {old = c} same in
    ground (arith, after, key)

pub unapproved-before :
    (c : ActionConfirmation) (id : String) (rows : List ActionConfirmation) (i : String)
    → confirmation id rows ≡ some c
    → is_pending c.status ≡ true
    → str_eq id i ≡ true
    → approved i (confirmation i rows) ≡ []
unapproved-before c id rows i found waits same =
    let at : confirmation i rows ≡ some c = ground (arith, eq_iff id i) in
    ground (arith, at, pending→unapproved i c waits)

-- So does a resolution with a status other than `succeeded`.
pub approved-resolve :
    (status : ActionStatus) (now : ℕ) (id : String) (rows : List ActionConfirmation) (i : String)
    → is_succeeded status ≡ false
    → approved i (confirmation i (resolve status now id rows).1) ≡ approved i (confirmation i rows)
unfolding resolve
approved-resolve status now id rows i h = elim (Option-cases (confirmation id rows)) [
  | inl lost ↦ ground (arith, lost)
  | inr (c, found) ↦ elim (Bool-cases (is_pending c.status)) [
    | inr closed ↦ ground (arith, found, closed)
    | inl waits ↦
        let one = approved-put status c id rows i found waits in
        let two = approved-put cancelled c id rows i found waits in
        let before = unapproved-before c id rows i found waits in
        ground (arith, found, waits, one, two, before)
  ]
]

-- The approval of a row that is not refused.
pub record IsApproval (id : String) (rows after : List ActionConfirmation) (c : ActionConfirmation)
    : Type 0 where
  pub was_open : approved id (confirmation id rows) ≡ []
  pub now_approved :
      approved id (confirmation id after) ≡ performance (some id) (confirmed_request c) ∷ []
  pub others :
      (i : String)
      → str_eq id i ≡ false
      → approved i (confirmation i after) ≡ approved i (confirmation i rows)

pub approve-IsApproval :
    (now : ℕ) (id : String) (rows : List ActionConfirmation) {r : ActionConfirmation}
    → (resolve succeeded now id rows).0 ≡ ok r
    → IsApproval id rows (resolve succeeded now id rows).1 r
unfolding resolve
approve-IsApproval now id rows {r = r} h = elim (Option-cases (confirmation id rows)) [
  | inl lost ↦ absurd (ground (arith, lost))
  | inr (c, found) ↦ elim (Bool-cases (is_pending c.status)) [
    | inr closed ↦ absurd (ground (arith, found, closed))
    | inl waits ↦ elim (Bool-cases (leb c.expires_at now)) [
      | inl late ↦ absurd (ground (arith, found, waits, late))
      | inr timely ↦
          let made : with_status succeeded c ≡ r = ground (arith, found, waits, timely) in
          let after : (resolve succeeded now id rows).1
              ≡ put_confirmation (with_status succeeded c) rows =
            ground (arith, found, waits, timely) in
          record {
            was_open = unapproved-before c id rows id found waits (ground (arith, eq_iff id id));
            now_approved =
                let one = approved-put succeeded c id rows id found waits in
                ground (arith, one, after, made, eq_iff id id);
            others = λ i other.
                let one = approved-put succeeded c id rows i found waits in
                ground (arith, one, after, other);
          }
    ]
  ]
]

-- A refused one.
pub approve-refused :
    (now : ℕ) (id : String) (rows : List ActionConfirmation) (i : String) {x : Error}
    → (resolve succeeded now id rows).0 ≡ err x
    → approved i (confirmation i (resolve succeeded now id rows).1)
      ≡ approved i (confirmation i rows)
unfolding resolve
approve-refused now id rows i h = elim (Option-cases (confirmation id rows)) [
  | inl lost ↦ ground (arith, lost)
  | inr (c, found) ↦ elim (Bool-cases (is_pending c.status)) [
    | inr closed ↦ ground (arith, found, closed)
    | inl waits ↦
        let two = approved-put cancelled c id rows i found waits in
        let before = unapproved-before c id rows i found waits in
        ground (arith, found, waits, two, before)
  ]
]
