-- ===== src/Actions/Confirmations.antt =====
-- The confirmations of write actions (app/services/actions/confirmations.py, `ConfirmationService`).
-- Each operation commits, so the table is what the session and every other session see. A call has
-- the time at which it runs, and a request the id of the row it inserts.
use zyntry_backend.Prelude.{
  ℕ, String, Option, none, some, Bool, true, false, not, List, [], ◌∷◌, ◌++◌, ◌+◌, leb,
  if◌then◌else◌,
}
use zyntry_backend.Json.{Fields}
use zyntry_backend.Tables.{lookup, replace}
use zyntry_backend.Session.{value_error, integrity_error, Result, ok, err}
use zyntry_backend.Actions.{ActionConfirmation, ActionStatus, pending, succeeded, failed, cancelled}

pub record ConfirmationRequest : Type 0 where
  pub user_id : String
  pub project_id : String
  pub provider : String
  pub action : String
  pub arguments : Fields
  pub risk : String

abbrev pub confirmation : String → List ActionConfirmation → Option ActionConfirmation
confirmation i rows = lookup (λ c. c.id) i rows

-- Ten minutes.
abbrev pub confirmation_time : ℕ
confirmation_time = 600000000

abbrev pub confirmation_row : ℕ → String → ConfirmationRequest → ActionConfirmation
confirmation_row now id r = record {
  id = id;
  user_id = r.user_id;
  project_id = r.project_id;
  provider = r.provider;
  action = r.action;
  arguments = r.arguments;
  risk = r.risk;
  status = pending;
  expires_at = now + confirmation_time;
  created_at = now;
}

-- `request`, which the primary key refuses where a row has the id.
unfoldable pub request :
    ℕ
    → String
    → ConfirmationRequest
    → List ActionConfirmation
    → Result ActionConfirmation × List ActionConfirmation
request now id r rows = elim (confirmation id rows) [
  | some c ↦ (err integrity_error, rows)
  | none ↦ let c = confirmation_row now id r in (ok c, rows ++ c ∷ [])
]

abbrev pub is_pending : ActionStatus → Bool
is_pending pending = true
is_pending _ = false

abbrev pub with_status : ActionStatus → ActionConfirmation → ActionConfirmation
with_status status c = record c { status = status }

abbrev pub put_confirmation : ActionConfirmation → List ActionConfirmation → List ActionConfirmation
put_confirmation = replace (λ c. c.id)

-- The body that `approve` and `reject` share, with the status that it assigns.
unfoldable pub resolve :
    ActionStatus
    → ℕ
    → String
    → List ActionConfirmation
    → Result ActionConfirmation × List ActionConfirmation
resolve status now id rows = elim (confirmation id rows) [
  | none ↦ (err (value_error "Confirmation not found"), rows)
  | some c ↦
      if not (is_pending c.status)
      then (err (value_error "Confirmation already resolved"), rows)
      else if leb c.expires_at now
      then (
        err (value_error "Confirmation expired"),
        put_confirmation (with_status cancelled c) rows,
      )
      else (ok (with_status status c), put_confirmation (with_status status c) rows)
]

abbrev pub approve :
    ℕ → String → List ActionConfirmation → Result ActionConfirmation × List ActionConfirmation
approve = resolve succeeded

abbrev pub reject :
    ℕ → String → List ActionConfirmation → Result ActionConfirmation × List ActionConfirmation
reject = resolve failed
