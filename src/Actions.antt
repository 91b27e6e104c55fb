-- ===== src/Actions.antt =====
-- Actions on connected systems: their guardrails (app/services/actions/guardrails.py) and the rows of
-- their executions and confirmations (app/models/actions.py). What a regular expression says of a
-- text is an argument, and so are the normalisations of a text; times are microseconds.
pub mod Confirmations
pub mod Executor
pub mod Gateway
pub mod Guarded
pub mod Approvals
pub mod Stored
mod Examples
use Prim.Native.Char.{Char, code}
use zyntry_backend.Prelude.{
  ℕ, String, Option, none, some, Bool, true, false, not, ◌&&◌, ◌||◌, List, [], ◌∷◌, ltb, ◌==◌, keep,
  length, str_eq, str_append, if◌then◌else◌, map,
}
use zyntry_backend.Tokens.{chars}
use zyntry_backend.Json.{Json, text, Items, Fields, array, object, item, no_items, field, no_fields}
use zyntry_backend.Chunking.{Tests, is_blank}

pub data ActionStatus : Type 0 where
  pending running succeeded failed cancelled : ActionStatus

-- The id is none until a flush inserts the row.
pub record ActionExecution : Type 0 where
  pub id : Option String
  pub user_id : String
  pub project_id : String
  pub provider : String
  pub action : String
  pub arguments : Fields
  pub result : Option Json
  pub error : Option String
  pub status : ActionStatus
  pub duration_ms : Option ℕ

pub record ActionConfirmation : Type 0 where
  pub id : String
  pub user_id : String
  pub project_id : String
  pub provider : String
  pub action : String
  pub arguments : Fields
  pub risk : String
  pub status : ActionStatus
  pub expires_at : ℕ
  pub created_at : ℕ

pub record ActionDefinition : Type 0 where
  pub name : String
  pub required_permissions : List String
  pub risk : String

abbrev pub is_prefix : List Char → List Char → Bool
is_prefix [] ys = true
is_prefix (x ∷ xs) [] = false
is_prefix (x ∷ xs) (y ∷ ys) = code x == code y && is_prefix xs ys

-- `part in whole`
abbrev pub contains : List Char → List Char → Bool
contains part [] = is_prefix part []
contains part (c ∷ cs) = is_prefix part (c ∷ cs) || contains part cs

abbrev pub any {ℓ} : {A : Type ℓ} → (A → Bool) → List A → Bool
any p [] = false
any p (x ∷ xs) = p x || any p xs

-- `WRITE_ACTION_PREFIXES`
abbrev pub write_action_prefixes : List String
write_action_prefixes =
    "create" ∷ "update" ∷ "delete" ∷ "remove" ∷ "send" ∷ "post" ∷ "put" ∷ "patch" ∷ "upload"
    ∷ "invite" ∷ "pin" ∷ "schedule" ∷ "trigger" ∷ "merge" ∷ "close" ∷ "cancel" ∷ "archive"
    ∷ "revoke" ∷ "comment" ∷ "commit" ∷ "add" ∷ "modify" ∷ "move" ∷ "rename" ∷ "set" ∷ "write" ∷ []

abbrev pub starts_with_write : String → Bool
starts_with_write name = any (λ p. is_prefix (chars p) (chars name)) write_action_prefixes

abbrev pub declares_write : (String → String) → ActionDefinition → Bool
declares_write lower d =
    any (λ x. str_eq (lower x) "write") d.required_permissions
    || (str_eq d.risk "medium" || (str_eq d.risk "high" || str_eq d.risk "critical"))

-- `is_write_action`; `strip_lower` is `action.strip().lower()`.
unfoldable pub is_write_action :
    (String → String) → (String → String) → String → Option ActionDefinition → Bool
is_write_action lower strip_lower action none = starts_with_write (strip_lower action)
is_write_action lower strip_lower action (some d) =
    declares_write lower d || starts_with_write (strip_lower action)

-- `next((item for item in provider_actions if item.name == action), None)`
abbrev pub definition_of : String → List ActionDefinition → Option ActionDefinition
definition_of action [] = none
definition_of action (d ∷ ds) = if str_eq d.name action then some d else definition_of action ds

-- `GuardrailService.validate_prompt`: none where it is valid. `is_injection` says whether one of the
-- patterns is found.
unfoldable pub validate_prompt : Tests → (List Char → Bool) → List Char → Option String
unfolding is_blank
validate_prompt tests is_injection prompt =
    if is_blank tests prompt
    then some "Prompt cannot be empty"
    else if ltb 10000 (length prompt)
    then some "Prompt exceeds maximum length of 10000 characters"
    else if is_injection prompt
    then some "Potentially unsafe prompt detected"
    else none

-- `GuardrailService.validate_action_arguments`: only the texts at the top are searched.
unfoldable pub validate_action_arguments : (List Char → Bool) → Fields → Option String
validate_action_arguments is_suspicious no_fields = none
validate_action_arguments is_suspicious (field k (text t) fs) =
    let rest = validate_action_arguments is_suspicious fs in
    if is_suspicious t
    then some (str_append "Suspicious characters in argument '" (str_append k "'"))
    else rest
validate_action_arguments is_suspicious (field k _ fs) = validate_action_arguments is_suspicious fs

-- `GuardrailService.sanitize_output`
abbrev pub without_nul : List Char → List Char
without_nul t = keep (λ c. not (code c == 0)) t

unfoldable mutual
  pub sanitize_output : Json → Json
  sanitize_output (text t) = text (without_nul t)
  sanitize_output (array js) = array (sanitize_items js)
  sanitize_output (object fs) = object (sanitize_fields fs)
  sanitize_output j = j

  pub sanitize_items : Items → Items
  sanitize_items no_items = no_items
  sanitize_items (item j js) = item (sanitize_output j) (sanitize_items js)

  pub sanitize_fields : Fields → Fields
  sanitize_fields no_fields = no_fields
  sanitize_fields (field k j fs) = field k (sanitize_output j) (sanitize_fields fs)
