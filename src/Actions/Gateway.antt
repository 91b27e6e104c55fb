-- ===== src/Actions/Gateway.antt =====
-- The endpoints of actions and confirmations (app/api/v1/actions/router.py). The caller is what
-- `get_action_auth` returns, and `require_project_membership` (app/api/v1/dependencies_tenant.py) reads
-- the table of projects. The provider's part in an action is an argument, and a log keeps what providers
-- are asked to perform.
use zyntry_backend.Prelude.{
  ℕ, String, Option, none, some, Bool, true, false, not, ◌&&◌, ◌||◌, List, [], ◌∷◌, ◌++◌, str_eq,
  if◌then◌else◌,
}
use zyntry_backend.Json.{Fields}
use zyntry_backend.Tables.{lookup}
use zyntry_backend.Tokens.{chars}
use zyntry_backend.Chunking.{Text}
use zyntry_backend.Session.{Error, value_error, ok, err}
use zyntry_backend.Actions.{
  ActionExecution, ActionConfirmation, any, contains, validate_action_arguments,
}
use zyntry_backend.Actions.Confirmations.{confirmation, request, approve, reject}
use zyntry_backend.Actions.Executor.{
  ActionRequest, ActionResponse, Performed, Registry, execute, needs_confirmation,
}

-- `ActionAuthContext`: the user, with their organization, the scopes of the API key, if there is one,
-- and its project.
pub record Caller : Type 0 where
  pub user_id : String
  pub organization_id : Option String
  pub is_superuser : Bool
  pub scopes : Option (List String)
  pub project_id : Option String

-- An action that a provider is asked to perform, and the confirmation that it follows, if any.
pub record Performance : Type 0 where
  pub via : Option String
  pub provider : String
  pub action : String
  pub arguments : Fields
  pub confirmed : Bool

pub record Store : Type 0 where
  pub confirmations : List ActionConfirmation
  pub executions : List ActionExecution
  pub performed : List Performance

pub data Response : Type 0 where
  http_error : ℕ → String → Response
  action_response : ActionResponse → Response
  no_content : Response

pub record Project : Type 0 where
  pub id : String
  pub organization_id : String

-- What the endpoints read: the registry, the regular expressions of the guardrails, the projects, what a
-- provider does with a request and the milliseconds it takes, and `uuid.UUID`.
pub record Environment : Type 0 where
  pub registry : Registry
  pub is_suspicious : Text → Bool
  pub projects : List Project
  pub perform : ActionRequest → Performed
  pub duration_ms : ActionRequest → ℕ
  pub parse_uuid : String → Option String

-- A call: the time, and the ids that the insertions of its rows draw.
pub record Call : Type 0 where
  pub caller : Caller
  pub now : ℕ
  pub confirmation_id : String
  pub execution_id : String

abbrev pub has_scope : String → List String → Bool
has_scope s = any (λ x. str_eq x s)

abbrev pub can_write : Caller → Bool
can_write c = elim c.scopes [ none ↦ true | some ss ↦ has_scope "write" ss || has_scope "*" ss ]

abbrev pub lacks_scope : Response
lacks_scope = http_error 403 "API key lacks write scope"

-- The detail of an error that the endpoint or its dependencies raise.
abbrev pub detail : Error → String
detail (value_error s) = s
detail _ = "Internal Server Error"

-- What `require_project_membership` comes to: the project, or an `HTTPException`.
pub data Membership : Type 0 where
  granted : Project → Membership
  denied : ℕ → String → Membership

abbrev pub is_member_of : Option String → String → Bool
is_member_of none o = false
is_member_of (some u) o = str_eq o u

unfoldable pub require_project_membership : Environment → Caller → String → Membership
require_project_membership e caller project_id = elim (e.parse_uuid project_id) [
  | none ↦ denied 400 "Invalid project id"
  | some pid ↦ elim (lookup (λ p. p.id) pid e.projects) [
    | none ↦ denied 404 "Project not found"
    | some p ↦
        if is_member_of caller.organization_id p.organization_id
        then granted p
        else denied 403 "Not a member of this project"
  ]
]

abbrev pub performance : Option String → ActionRequest → Performance
performance via body = record {
  via = via;
  provider = body.provider;
  action = body.action;
  arguments = body.arguments;
  confirmed = body.confirm;
}

-- `executor.execute(body, user_id, project_id)`
abbrev pub perform_action :
    Environment → Call → Option String → ActionRequest → String → Store → Response × Store
perform_action e call via body project_id store =
    let (response, rows) =
      execute call.execution_id (e.perform body) (e.duration_ms body) body call.caller.user_id
        project_id store.executions in
    (
      action_response response,
      record store { executions = rows; performed = store.performed ++ performance via body ∷ [] },
    )

abbrev pub or_project : Option String → String → String
or_project none p = p
or_project (some q) p = q

abbrev pub is_other_project : Option String → String → Bool
is_other_project none p = false
is_other_project (some q) p = not (str_eq q p)

abbrev pub risk_level : Registry → String → String
risk_level g action =
    if any (λ d. contains (chars d) (chars (g.lower action))) ("delete" ∷ "remove" ∷ "archive" ∷ [])
    then "high"
    else "medium"

abbrev pub confirmation_required : String → ActionResponse
confirmation_required id = record {
  success = false;
  result = none;
  error = some "Confirmation required";
  execution_id = id;
}

-- The request of a confirmation, in `execute_action`.
unfoldable pub hold : Environment → Call → ActionRequest → String → Store → Response × Store
unfolding request
hold e call body project_id store =
    let (made, rows) =
      request call.now call.confirmation_id
        (record {
          user_id = call.caller.user_id;
          project_id = project_id;
          provider = body.provider;
          action = body.action;
          arguments = body.arguments;
          risk = risk_level e.registry body.action;
        })
        store.confirmations in
    (
      elim made [
        | ok c ↦ action_response (confirmation_required c.id)
        | err x ↦ http_error 500 (detail x)
      ],
      record store { confirmations = rows },
    )

-- `execute_action`
unfoldable pub execute_action : Environment → Call → ActionRequest → Store → Response × Store
unfolding require_project_membership hold validate_action_arguments needs_confirmation
execute_action e call body store =
    let project_id = or_project call.caller.project_id body.project_id in
    if not (can_write call.caller)
    then (lacks_scope, store)
    else elim (validate_action_arguments e.is_suspicious body.arguments) [
      | some reason ↦ (http_error 400 reason, store)
      | none ↦ elim (require_project_membership e call.caller project_id) [
        | denied code reason ↦ (http_error code reason, store)
        | granted project ↦
            if is_other_project call.caller.project_id project.id
            then (http_error 403 "API key is not authorized for this project", store)
            else if needs_confirmation e.registry body.provider body.action && not body.confirm
            then hold e call body project_id store
            else perform_action e call none body project_id store
      ]
    ]

-- The confirmation that a caller may resolve, or the answer to the caller.
unfoldable pub find_confirmation : Environment → Call → String → Store → Option Response
unfolding require_project_membership
find_confirmation e call id store = elim (confirmation id store.confirmations) [
  | none ↦ some (http_error 400 "Confirmation not found")
  | some c ↦
      if not (str_eq c.user_id call.caller.user_id) && not call.caller.is_superuser
      then some (http_error 404 "Confirmation not found")
      else elim (require_project_membership e call.caller c.project_id) [
        | denied code reason ↦ some (http_error code reason)
        | granted project ↦ none
      ]
]

-- The body that `approve_confirmation` makes of the row.
abbrev pub confirmed_request : ActionConfirmation → ActionRequest
confirmed_request c = record {
  project_id = c.project_id;
  provider = c.provider;
  action = c.action;
  arguments = c.arguments;
  confirm = true;
}

-- What `approve_confirmation` and `reject_confirmation` share, up to the call of the service.
abbrev pub with_confirmation :
    Environment → Call → String → (String → Store → Response × Store) → Store → Response × Store
with_confirmation e call raw resolve_it store =
    if not (can_write call.caller) then (lacks_scope, store) else elim (e.parse_uuid raw) [
      | none ↦ (http_error 400 "badly formed hexadecimal UUID string", store)
      | some id ↦ elim (find_confirmation e call id store) [
        | some refusal ↦ (refusal, store)
        | none ↦ resolve_it id store
      ]
    ]

-- The end of `approve_confirmation`.
unfoldable pub approve_and_perform : Environment → Call → String → Store → Response × Store
approve_and_perform e call id store =
    let (resolved, rows) = approve call.now id store.confirmations in
    let next : Store = record store { confirmations = rows } in
    elim resolved [
      | err x ↦ (http_error 400 (detail x), next)
      | ok c ↦ perform_action e call (some id) (confirmed_request c) c.project_id next
    ]

unfoldable pub reject_only : Call → String → Store → Response × Store
reject_only call id store =
    let (resolved, rows) = reject call.now id store.confirmations in
    (
      elim resolved [ err x ↦ http_error 400 (detail x) | ok c ↦ no_content ],
      record store { confirmations = rows },
    )

unfoldable pub approve_confirmation : Environment → Call → String → Store → Response × Store
unfolding find_confirmation approve_and_perform
approve_confirmation e call raw store =
    with_confirmation e call raw (approve_and_perform e call) store

unfoldable pub reject_confirmation : Environment → Call → String → Store → Response × Store
unfolding find_confirmation reject_only
reject_confirmation e call raw store = with_confirmation e call raw (reject_only call) store
