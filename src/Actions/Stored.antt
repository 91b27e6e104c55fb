-- ===== src/Actions/Stored.antt =====
-- The run of a stored workflow (the loop of `run_workflow` in app/tasks/workflows.py, which the endpoint
-- of app/api/v1/workflows/router.py repeats): write actions are held for approval. `ids` are those that
-- the insertions of confirmations draw, and the clock stands still.
pub mod Held
use zyntry_backend.Prelude.{
  ℕ, suc, ◌+◌, String, ◌≡◌, refl, ◌∙◌, Option, none, some, Bool, true, false, ◌||◌, ◌&&◌, not, sym,
  List, [], ◌∷◌, ◌++◌, map, keep, All, arith, str_eq, length, Bool-cases, inl, inr, if◌then◌else◌,
  ◌⊎◌, str_append,
}
use zyntry_backend.Json.{Json, Fields}
use zyntry_backend.Session.{ok, err, Result-cases}
use zyntry_backend.Actions.{ActionConfirmation}
use zyntry_backend.Actions.Confirmations.{
  confirmation, request, ConfirmationRequest, confirmation_row,
}
use zyntry_backend.Actions.Executor.{Performed, returned, raised, Registry, needs_confirmation}
use zyntry_backend.Actions.Gateway.{detail, risk_level}
use zyntry_backend.Actions.Approvals.Rows.{approved, approved-request}

-- An entry of the definition's `sequence`, where an empty text stands for a name that is missing.
pub record StoredStep : Type 0 where
  pub provider : String
  pub action : String
  pub arguments : Fields
  -- The id that the row of its confirmation gets.
  pub drawn : String

pub data WorkflowStatus : Type 0 where
  completed blocked : WorkflowStatus
  failed : String → WorkflowStatus

pub record StoredRun : Type 0 where
  pub error : Option String
  pub steps_completed : ℕ
  pub blocked_actions : List String
  pub confirmation_ids : List String
  pub performed : List StoredStep
  pub confirmations : List ActionConfirmation

-- Who runs the workflow, when, and what providers do.
pub record Runner : Type 0 where
  pub registry : Registry
  pub perform : StoredStep → Performed
  pub user_id : String
  pub project_id : String
  pub now : ℕ

abbrev pub stored_request : Runner → StoredStep → ConfirmationRequest
stored_request w s = record {
  user_id = w.user_id;
  project_id = w.project_id;
  provider = s.provider;
  action = s.action;
  arguments = s.arguments;
  risk = risk_level w.registry s.action;
}

abbrev pub stopped : String → List ActionConfirmation → StoredRun
stopped error rows = record {
  error = some error;
  steps_completed = 0;
  blocked_actions = [];
  confirmation_ids = [];
  performed = [];
  confirmations = rows;
}

abbrev pub is_blank_step : StoredStep → Bool
is_blank_step s = str_eq s.provider "" || str_eq s.action ""

abbrev pub action_name : StoredStep → String
action_name s = str_append s.provider (str_append "." s.action)

unfoldable pub run_stored : Runner → List StoredStep → List ActionConfirmation → StoredRun
unfolding request needs_confirmation
run_stored w [] rows = record {
  error = none;
  steps_completed = 0;
  blocked_actions = [];
  confirmation_ids = [];
  performed = [];
  confirmations = rows;
}
run_stored w (s ∷ ss) rows = elim (is_blank_step s) [
  | true ↦
      let rest = run_stored w ss rows in record rest { steps_completed = suc rest.steps_completed }
  | false ↦ elim (needs_confirmation w.registry s.provider s.action) [
    | true ↦
        let (made, next) = request w.now s.drawn (stored_request w s) rows in
        elim made [
          | err x ↦ record (stopped (detail x) next) { blocked_actions = action_name s ∷ [] }
          | ok c ↦
              let rest = run_stored w ss next in
              record rest {
                blocked_actions = action_name s ∷ rest.blocked_actions;
                confirmation_ids = c.id ∷ rest.confirmation_ids;
              }
        ]
    | false ↦ elim (w.perform s) [
      | raised x ↦ record (stopped x rows) { performed = s ∷ [] }
      | returned j ↦
          let rest = run_stored w ss rows in
          record rest { steps_completed = suc rest.steps_completed; performed = s ∷ rest.performed }
    ]
  ]
]

-- The status of the execution's row.
abbrev pub is_none : List String → Bool
is_none [] = true
is_none (x ∷ xs) = false

unfoldable pub status_of : StoredRun → WorkflowStatus
status_of r = elim r.error [
  | some x ↦ failed x
  | none ↦ if is_none r.blocked_actions then completed else blocked
]
