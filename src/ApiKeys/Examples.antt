-- ===== src/ApiKeys/Examples.antt =====
-- A key that is rotated, and used again.
use zyntry_backend.Prelude.{String, ◌≡◌, refl, none, some, Bool, true, false, List, [], ◌∷◌, str_eq}
use zyntry_backend.Tokens.{chars}
use zyntry_backend.Chunking.{Text}
use zyntry_backend.ApiKeys.{
  ApiKey, User, Headers, revoke_key, get_api_key_user, get_action_auth, invalid, not_authenticated,
}
use zyntry_backend.ApiKeys.Revoked.{
  Operation, uses, rescopes, perform_all, by_revocation, retired_key-refused,
}

abbrev hash : Text → String
hash t = "h"

abbrev same : String → String → Bool
same a b = str_eq a b

abbrev users : List User
users = record { id = "u"; is_active = true; organization_id = none } ∷ []

abbrev key : ApiKey
key = record {
  id = "k";
  name = "server";
  hashed_key = "h";
  prefix = chars "sk_live_";
  organization_id = none;
  user_id = some "u";
  project_id = some "p";
  runtime_id = none;
  environment = "production";
  allowed_origins = [];
  revoked = false;
  expires_at = none;
  scopes = "read" ∷ [];
  usage_count = 3;
}

abbrev headers : Headers
headers = record { now = 5; authorization = some (chars "Bearer sk_live_1"); origin = "" }

abbrev between : List (Operation hash same users)
between = uses headers ∷ rescopes "k" ("write" ∷ []) ∷ []

abbrev late : List ApiKey
late = perform_all hash same users between (revoke_key "k" (key ∷ [])).1

retired_key-refused_example :
    (get_api_key_user hash same users headers late ≡ (invalid, late))
    × (get_action_auth hash same users none headers late
        ≡ (not_authenticated hash same users, late))
retired_key-refused_example =
    retired_key-refused hash same users key (key ∷ []) between headers (chars "sk_live_1") refl
      by_revocation refl refl
