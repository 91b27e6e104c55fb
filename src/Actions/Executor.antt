-- ===== src/Actions/Executor.antt =====
-- The execution of actions and workflows (app/services/actions/executor.py, `ActionExecutor`). What a
-- provider does with an action is an argument: its result, or the text of the exception.
use zyntry_backend.Prelude.{
  ℕ, String, Option, none, some, Bool, true, false, not, ◌&&◌, List, [], ◌∷◌, ◌++◌, str_eq,
  str_append, if◌then◌else◌,
}
use zyntry_backend.Json.{Json, text, boolean, object, truthy, is_null, Fields}
use zyntry_backend.Tokens.{chars}
use zyntry_backend.Tables.{lookup, upsert, replace}
use zyntry_backend.Actions.{
  ActionExecution, running, succeeded, failed, ActionDefinition, is_write_action, definition_of,
}

-- `ActionRequest`
pub record ActionRequest : Type 0 where
  pub project_id : String
  pub provider : String
  pub action : String
  pub arguments : Fields
  pub confirm : Bool

pub record ActionResponse : Type 0 where
  pub success : Bool
  pub result : Option Json
  pub error : Option String
  pub execution_id : String

pub data Performed : Type 0 where
  returned : Json → Performed
  raised : String → Performed

-- An object of the model class: whether a session holds it, and its attributes.
pub record Instance : Type 0 where
  pub attached : Bool
  pub row : ActionExecution

-- `ActionExecution(...)`, which no session holds.
abbrev pub new_execution : ActionRequest → String → String → Instance
new_execution body user_id project_id = record {
  attached = false;
  row = record {
    id = none;
    user_id = user_id;
    project_id = project_id;
    provider = body.provider;
    action = body.action;
    arguments = body.arguments;
    result = none;
    error = none;
    status = running;
    duration_ms = none;
  };
}

-- `str(execution.id)`
abbrev pub id_text : Option String → String
id_text none = "None"
id_text (some i) = i

-- `BaseRepository.create`: the attributes are those of a new object, which the session inserts under
-- the id that it draws.
abbrev pub create :
    String → ActionExecution → List ActionExecution → Instance × List ActionExecution
create id attributes rows =
    let row = record attributes { id = some id } in
    (record { attached = true; row = row }, rows ++ row ∷ [])

-- `BaseRepository.update`: the flush writes the objects that the session holds.
abbrev pub update : Instance → List ActionExecution → List ActionExecution
update o rows = if o.attached then replace (λ r. id_text r.id) o.row rows else rows

-- The attributes that `execute` assigns after the action.
abbrev pub finished : Performed → ℕ → ActionExecution → ActionExecution
finished (returned j) ms r = record r { status = succeeded; result = some j; duration_ms = some ms }
finished (raised e) ms r = record r { status = failed; error = some e; duration_ms = some ms }

abbrev pub respond : Performed → String → ActionResponse
respond (returned j) id = record {
  success = true;
  result = some j;
  error = none;
  execution_id = id;
}
respond (raised e) id = record { success = false; result = none; error = some e; execution_id = id }

-- `execute`, with the id that the insertion draws, what the provider does and the time that takes.
unfoldable pub execute :
    String
    → Performed
    → ℕ
    → ActionRequest
    → String
    → String
    → List ActionExecution
    → ActionResponse × List ActionExecution
execute id performed ms body user_id project_id rows =
    let execution = new_execution body user_id project_id in
    let created = create id execution.row rows in
    let updated = record execution { row = finished performed ms execution.row } in
    (respond performed (id_text updated.row.id), update updated created.1)

pub record WorkflowStep : Type 0 where
  pub provider : String
  pub action : String
  pub arguments : Fields
  pub depends_on : Option String
  pub condition : Option String

pub record WorkflowRequest : Type 0 where
  pub project_id : String
  pub steps : List WorkflowStep
  pub context : List (String × Json)
  pub confirm : Bool

-- The events that `execute_workflow` yields, less their times.
pub data Event : Type 0 where
  step_start : WorkflowStep → Event
  step_error : WorkflowStep → String → Event
  step_skipped : WorkflowStep → String → Event
  step_complete : WorkflowStep → Json → Event
  workflow_complete : Event

-- What a workflow yields, and the steps that it has a provider perform, in order.
pub record WorkflowRun : Type 0 where
  pub events : List Event
  pub performed : List WorkflowStep

-- The registry: a provider's actions, none where there is no such provider, and what it does with a
-- step in a context. `is_write` is the test of guardrails.py.
pub record Registry : Type 0 where
  pub list_actions : String → Option (List ActionDefinition)
  pub perform : WorkflowStep → List (String × Json) → Performed
  pub lower : String → String
  pub strip_lower : String → String

abbrev pub get_value : String → List (String × Json) → Option Json
get_value k context = elim (lookup (λ e. e.0) k context) [ none ↦ none | some e ↦ some e.1 ]

abbrev pub put_value : String → Json → List (String × Json) → List (String × Json)
put_value k j = upsert (λ e. e.0) (k, j)

-- `context.get(step.depends_on)` is None.
abbrev pub is_missing : Option Json → Bool
is_missing none = true
is_missing (some j) = is_null j

abbrev pub lacks_dependency : Option String → List (String × Json) → Bool
lacks_dependency none context = false
lacks_dependency (some d) context = not (str_eq d "") && is_missing (get_value d context)

abbrev pub is_true : Option Json → Bool
is_true none = false
is_true (some j) = truthy j

abbrev pub fails_condition : Option String → List (String × Json) → Bool
fails_condition none context = false
fails_condition (some c) context = not (str_eq c "") && not (is_true (get_value c context))

abbrev pub or_empty : Option String → String
or_empty none = ""
or_empty (some s) = s

abbrev pub actions_of : Registry → String → List ActionDefinition
actions_of g p = elim (g.list_actions p) [ none ↦ [] | some ds ↦ ds ]

-- `requires_action_confirmation(step.action, definition)`
unfoldable pub needs_confirmation : Registry → String → String → Bool
unfolding is_write_action
needs_confirmation g provider action =
    is_write_action g.lower g.strip_lower action (definition_of action (actions_of g provider))

abbrev pub unconfirmed : String
unconfirmed = "Workflow write operation requires explicit confirmation"

abbrev pub missing_dependency : WorkflowStep → String
missing_dependency s = str_append "Dependency '" (str_append (or_empty s.depends_on) "' not found")

abbrev pub unmet_condition : WorkflowStep → String
unmet_condition s = str_append "Condition '" (str_append (or_empty s.condition) "' not met")

-- What the loop does with one step: it goes on after an event, stops after one, or performs the step.
pub data StepOutcome : Type 0 where
  passes : Event → StepOutcome
  stops : Event → StepOutcome
  performs : Performed → StepOutcome

unfoldable pub step_outcome : Registry → Bool → WorkflowStep → List (String × Json) → StepOutcome
unfolding needs_confirmation truthy
step_outcome g confirm s context =
    if lacks_dependency s.depends_on context
    then passes (step_error s (missing_dependency s))
    else if fails_condition s.condition context
    then passes (step_skipped s (unmet_condition s))
    else if needs_confirmation g s.provider s.action && not confirm
    then stops (step_error s unconfirmed)
    else performs (g.perform s context)

abbrev pub run_with : List Event → List WorkflowStep → WorkflowRun → WorkflowRun
run_with events performed rest = record {
  events = events ++ rest.events;
  performed = performed ++ rest.performed;
}

abbrev pub no_run : WorkflowRun
no_run = record { events = workflow_complete ∷ []; performed = [] }

unfoldable pub run_steps : Registry → Bool → List WorkflowStep → List (String × Json) → WorkflowRun
unfolding step_outcome
run_steps g confirm [] context = no_run
run_steps g confirm (s ∷ ss) context = elim (step_outcome g confirm s context) [
  | passes e ↦ run_with (step_start s ∷ e ∷ []) [] (run_steps g confirm ss context)
  | stops e ↦ run_with (step_start s ∷ e ∷ []) [] no_run
  | performs p ↦ elim p [
    | returned j ↦
        run_with (step_start s ∷ step_complete s j ∷ []) (s ∷ [])
          (run_steps g confirm ss (put_value s.action j context))
    | raised x ↦ run_with (step_start s ∷ step_error s x ∷ []) (s ∷ []) no_run
  ]
]

abbrev pub with_tokens : Option Fields → List (String × Json) → List (String × Json)
with_tokens none context = context
with_tokens (some tokens) context = put_value "_resolved_oauth_tokens" (object tokens) context

-- `execute_workflow`; `resolved` are the tokens that it finds in advance, if any.
unfoldable pub execute_workflow : Registry → Option Fields → WorkflowRequest → String → WorkflowRun
unfolding run_steps
execute_workflow g resolved body user_id =
    let context = put_value "confirmed" (boolean body.confirm) (
      put_value "project_id" (text (chars body.project_id))
        (put_value "user_id" (text (chars user_id)) body.context)) in
    run_steps g body.confirm body.steps (with_tokens resolved context)
