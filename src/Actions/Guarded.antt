-- ===== src/Actions/Guarded.antt =====
-- What an execution leaves, and what a workflow performs.
use zyntry_backend.Prelude.{ℕ, String, ◌≡◌, refl, some, Bool, false, List, [], ◌∷◌, ◌++◌, All}
use zyntry_backend.Json.{Json}
use zyntry_backend.Actions.{ActionExecution}
use zyntry_backend.Actions.Executor.{
  ActionRequest, Performed, returned, raised, execute, new_execution, Event, step_start, step_error,
  step_skipped, step_complete, workflow_complete, WorkflowStep, WorkflowRun, Registry,
  needs_confirmation, unconfirmed, respond,
}

-- An execution answers what the provider did, but under the id "None", and the one row it adds to the
-- table keeps the status of an action that is running, with no result, error or duration, whatever
-- the provider did.
pub execute-stays_running :
    (id : String) (performed : Performed) (ms : ℕ) (body : ActionRequest)
    (user_id project_id : String) (rows : List ActionExecution)
    → execute id performed ms body user_id project_id rows ≡ (
      respond performed "None",
      rows ++ record (new_execution body user_id project_id).row { id = some id } ∷ [],
    )
unfolding execute
execute-stays_running id (returned j) ms body user_id project_id rows = refl
execute-stays_running id (raised e) ms body user_id project_id rows = refl

-- `xs` leaves out elements of `ys`.
pub data IsSublist : List WorkflowStep → List WorkflowStep → Type 0 where
  nothing : IsSublist [] []
  taken :
      {s : WorkflowStep} {xs ys : List WorkflowStep} → IsSublist xs ys → IsSublist (s ∷ xs) (s ∷ ys)
  left : {s : WorkflowStep} {xs ys : List WorkflowStep} → IsSublist xs ys → IsSublist xs (s ∷ ys)

-- The events that steps lead to, and the steps performed: each step is announced, then its outcome
-- follows at once, and nothing follows the `workflow_complete` after the last step or a step that stops.
pub data IsReport : List WorkflowStep → List Event → List WorkflowStep → Type 0 where
  ended : IsReport [] (workflow_complete ∷ []) []
  lacked :
      {s : WorkflowStep} {ss ps : List WorkflowStep} {es : List Event} (x : String)
      → IsReport ss es ps
      → IsReport (s ∷ ss) (step_start s ∷ step_error s x ∷ es) ps
  skipped :
      {s : WorkflowStep} {ss ps : List WorkflowStep} {es : List Event} (x : String)
      → IsReport ss es ps
      → IsReport (s ∷ ss) (step_start s ∷ step_skipped s x ∷ es) ps
  refused :
      {s : WorkflowStep} {ss : List WorkflowStep}
      → IsReport (s ∷ ss) (step_start s ∷ step_error s unconfirmed ∷ workflow_complete ∷ []) []
  completed :
      {s : WorkflowStep} {ss ps : List WorkflowStep} {es : List Event} (j : Json)
      → IsReport ss es ps
      → IsReport (s ∷ ss) (step_start s ∷ step_complete s j ∷ es) (s ∷ ps)
  failed :
      {s : WorkflowStep} {ss : List WorkflowStep} (x : String)
      → IsReport (s ∷ ss) (step_start s ∷ step_error s x ∷ workflow_complete ∷ []) (s ∷ [])

module _ (g : Registry) (confirm : Bool) where
  abbrev pub IsGuarded : WorkflowStep → Type 0
  IsGuarded s = confirm ≡ false → needs_confirmation g s.provider s.action ≡ false

  pub record IsSafeRun (ss : List WorkflowStep) (run : WorkflowRun) : Type 0 where
    pub guarded : All IsGuarded run.performed
    pub in_order : IsSublist run.performed ss
    pub reports : IsReport ss run.events run.performed
