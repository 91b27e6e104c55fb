-- ===== src/Actions/Examples.antt =====
-- A workflow with a write action, and an approval.
use zyntry_backend.Prelude.{String, ◌≡◌, none, some, false, List, [], ◌∷◌, ◌++◌}
use zyntry_backend.Json.{null, no_fields}
use zyntry_backend.Actions.Executor.{
  ActionRequest, WorkflowStep, Registry, returned, raised, execute, new_execution, respond,
}
use zyntry_backend.Actions.Guarded.{execute-stays_running}
use zyntry_backend.Actions.Gateway.{Call, Environment, execute_action, approve_confirmation}
use zyntry_backend.Actions.Stored.{Runner, StoredStep, run_stored}
use zyntry_backend.Actions.Stored.Held.{IsHeld, run_stored-IsHeld}
use zyntry_backend.Actions.Approvals.{
  IsApproved, start, executes, approves, empty_store, Reach-IsApproved,
}

abbrev registry : Registry
registry = record {
  list_actions = λ p. none;
  perform = λ s context. returned null;
  lower = λ s. s;
  strip_lower = λ s. s;
}

abbrev step : String → WorkflowStep
step action = record {
  provider = "github";
  action = action;
  arguments = no_fields;
  depends_on = none;
  condition = none;
}

abbrev steps : List WorkflowStep
steps = step "list_issues" ∷ step "delete_issue" ∷ []

abbrev body : ActionRequest
body = record {
  project_id = "p";
  provider = "github";
  action = "delete_issue";
  arguments = no_fields;
  confirm = false;
}

execute-stays_running_example : execute "e" (raised "not found") 5 body "u" "p" [] ≡ (
  respond (raised "not found") "None",
  [] ++ record (new_execution body "u" "p").row { id = some "e" } ∷ [],
)
execute-stays_running_example = execute-stays_running "e" (raised "not found") 5 body "u" "p" []

abbrev environment : Environment
environment = record {
  registry = registry;
  is_suspicious = λ t. false;
  projects = record { id = "p"; organization_id = "o" } ∷ [];
  perform = λ b. returned null;
  duration_ms = λ b. 5;
  parse_uuid = λ s. some s;
}

abbrev call : Call
call = record {
  caller = record {
    user_id = "u";
    organization_id = some "o";
    is_superuser = false;
    scopes = none;
    project_id = none;
  };
  now = 100;
  confirmation_id = "c";
  execution_id = "e";
}

Reach-IsApproved_example :
    IsApproved environment
      (approve_confirmation environment call "c"
        (execute_action environment call body (empty_store environment)).1).1
Reach-IsApproved_example =
    Reach-IsApproved environment (approves call "c" (executes call body start))

abbrev runner : Runner
runner = record {
  registry = registry;
  perform = λ s. returned null;
  user_id = "u";
  project_id = "p";
  now = 100;
}

abbrev stored : String → String → StoredStep
stored action id = record {
  provider = "github";
  action = action;
  arguments = no_fields;
  drawn = id;
}

abbrev sequence : List StoredStep
sequence = stored "list_issues" "c1" ∷ stored "delete_issue" "c2" ∷ stored "get_issue" "c3" ∷ []

run_stored-IsHeld_example : IsHeld runner sequence [] (run_stored runner sequence [])
run_stored-IsHeld_example = run_stored-IsHeld runner sequence []
