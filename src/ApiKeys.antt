-- ===== src/ApiKeys.antt =====
-- The API keys (app/services/apikeys.py, `ApiKeyService`) and the callers they stand for
-- (app/api/v1/dependencies_api_key.py). The hash of a key is an argument, as is the random token of a
-- new one. The statistics of a key and the time of its last use, which nothing here writes, are left out.
pub mod Revoked
mod Examples
use zyntry_backend.Prelude.{
  ℕ, suc, ◌+◌, String, Option, none, some, Bool, true, false, not, ◌&&◌, ◌||◌, List, [], ◌∷◌, ◌++◌,
  leb, take, drop, map, str_eq, if◌then◌else◌,
}
use zyntry_backend.Tokens.{chars}
use zyntry_backend.Tables.{lookup}
use zyntry_backend.Session.{Error, value_error, integrity_error, Result, ok, err}
use zyntry_backend.Chunking.{Text, is_empty}
use zyntry_backend.Actions.{any, is_prefix}

pub record ApiKey : Type 0 where
  pub id : String
  pub name : String
  pub hashed_key : String
  pub prefix : Text
  pub organization_id : Option String
  pub user_id : Option String
  pub project_id : Option String
  pub runtime_id : Option String
  pub environment : String
  pub allowed_origins : List String
  pub revoked : Bool
  pub expires_at : Option ℕ
  pub scopes : List String
  pub usage_count : ℕ

pub record User : Type 0 where
  pub id : String
  pub is_active : Bool
  pub organization_id : Option String

-- `ApiKeyCreate`, where an empty text stands for an environment that is not given.
pub record ApiKeyCreate : Type 0 where
  pub name : String
  pub project_id : Option String
  pub runtime_id : Option String
  pub environment : String
  pub scopes : List String
  pub allowed_origins : List String

abbrev pub key_of_id : String → List ApiKey → Option ApiKey
key_of_id = lookup (λ k. k.id)

-- `select(ApiKey).where(ApiKey.hashed_key == token_hash)`
abbrev pub key_of_hash : String → List ApiKey → Option ApiKey
key_of_hash = lookup (λ k. k.hashed_key)

-- An update of the row with an id.
abbrev pub update_key : String → (ApiKey → ApiKey) → List ApiKey → List ApiKey
update_key id f keys = map (λ k. if str_eq k.id id then f k else k) keys

abbrev pub is_test_environment : String → Bool
is_test_environment e = str_eq e "development" || str_eq e "staging" || str_eq e "test"

-- `generate_api_key`, from the token that `secrets` draws.
abbrev pub generate_api_key : Text → Text → Text
generate_api_key prefix token = prefix ++ (chars "_" ++ token)

abbrev pub raw_key : String → Text → Text
raw_key environment token =
    generate_api_key (chars (if is_test_environment environment then "sk_test" else "sk_live"))
      token

abbrev pub or_text : String → String → String
or_text a b = if str_eq a "" then b else a

abbrev pub or_scopes : List String → List String
or_scopes [] = "read" ∷ "write" ∷ []
or_scopes (x ∷ xs) = x ∷ xs

-- The insertion of a row, which the unique columns refuse.
abbrev pub insert_key : ApiKey → List ApiKey → Result (List ApiKey)
insert_key k keys = elim (key_of_hash k.hashed_key keys) [
  | some old ↦ err integrity_error
  | none ↦ elim (key_of_id k.id keys) [
    | some old ↦ err integrity_error
    | none ↦ ok (keys ++ k ∷ [])
  ]
]

abbrev pub revoke : ApiKey → ApiKey
revoke k = record k { revoked = true }

module _ (hash_token : Text → String) where
  abbrev pub new_key : String → Text → String → Option String → ApiKeyCreate → ApiKey
  new_key id token user_id organization_id data_ =
      let raw = raw_key data_.environment token in
      record {
        id = id;
        name = data_.name;
        hashed_key = hash_token raw;
        prefix = take 16 raw;
        organization_id = organization_id;
        user_id = some user_id;
        project_id = data_.project_id;
        runtime_id = data_.runtime_id;
        environment = or_text data_.environment "development";
        allowed_origins = data_.allowed_origins;
        revoked = false;
        expires_at = none;
        scopes = or_scopes data_.scopes;
        usage_count = 0;
      }

  -- `create_key`: the raw key, and the table.
  unfoldable pub create_key :
      String
      → Text
      → String
      → Option String
      → ApiKeyCreate
      → List ApiKey
      → Result Text × List ApiKey
  create_key id token user_id organization_id data_ keys =
      elim (insert_key (new_key id token user_id organization_id data_) keys) [
        | err x ↦ (err x, keys)
        | ok next ↦ (ok (raw_key data_.environment token), next)
      ]

  -- The key that takes the place of another: no `expires_at` is given.
  abbrev pub replacement : String → Text → ApiKey → ApiKey
  replacement id token old =
      let raw = raw_key old.environment token in
      record old {
        id = id;
        hashed_key = hash_token raw;
        prefix = take 16 raw;
        revoked = false;
        expires_at = none;
        usage_count = 0;
      }

  -- `rotate_key`, of an id that is a UUID.
  unfoldable pub rotate_key : String → String → Text → List ApiKey → Result Text × List ApiKey
  rotate_key key_id id token keys = elim (key_of_id key_id keys) [
    | none ↦ (err (value_error "API key not found"), keys)
    | some old ↦
        if old.revoked
        then (err (value_error "API key is already revoked"), keys)
        else elim (insert_key (replacement id token old) keys) [
          | err x ↦ (err x, keys)
          | ok next ↦ (ok (raw_key old.environment token), update_key key_id revoke next)
        ]
  ]

-- `revoke_key`
unfoldable pub revoke_key : String → List ApiKey → Result ApiKey × List ApiKey
revoke_key key_id keys = elim (key_of_id key_id keys) [
  | none ↦ (err (value_error "API key not found"), keys)
  | some k ↦ (ok (revoke k), update_key key_id revoke keys)
]

-- `update_scopes`
unfoldable pub update_scopes : String → List String → List ApiKey → Result ApiKey × List ApiKey
update_scopes key_id scopes keys = elim (key_of_id key_id keys) [
  | none ↦ (err (value_error "API key not found"), keys)
  | some k ↦ (
    ok (record k { scopes = scopes }),
    update_key key_id (λ x. record x { scopes = scopes }) keys,
  )
]

-- `check_scope`
unfoldable pub check_scope : String → String → List ApiKey → Result Bool
check_scope key_id scope keys = elim (key_of_id key_id keys) [
  | none ↦ err (value_error "API key not found")
  | some k ↦ ok (any (λ s. str_eq s scope) k.scopes)
]

-- A request's headers, with the origin's and the key's texts; `same_origin` compares two origins
-- without the slashes that end them.
pub record Headers : Type 0 where
  pub now : ℕ
  pub authorization : Option Text
  pub origin : String

pub data Auth : Type 0 where
  unauthorized : ℕ → String → Auth
  authorized : User → ApiKey → Auth
  session_user : User → Auth

-- The key of a header `Bearer <key>`, if it is not empty.
abbrev pub some_key : Text → Option Text
some_key [] = none
some_key (c ∷ cs) = some (c ∷ cs)

abbrev pub bearer : Option Text → Option Text
bearer none = none
bearer (some a) = if is_prefix (chars "Bearer ") a then some_key (drop 7 a) else none

abbrev pub has_expired : ℕ → Option ℕ → Bool
has_expired now none = false
has_expired now (some t) = leb t now

abbrev pub is_foreign : Option String → Option String → Bool
is_foreign none o = false
is_foreign (some a) none = true
is_foreign (some a) (some b) = not (str_eq a b)

abbrev pub user_of : Option String → List User → Option User
user_of none users = none
user_of (some u) users = lookup (λ x. x.id) u users

abbrev pub invalid : Auth
invalid = unauthorized 401 "Invalid API key"

abbrev pub count_use : ApiKey → ApiKey
count_use k = record k { usage_count = k.usage_count + 1 }

module _ (hash_token : Text → String) (same_origin : String → String → Bool)
    (users : List User) where
  abbrev pub is_wrong_origin : String → ApiKey → Bool
  is_wrong_origin origin k =
      not (str_eq origin "")
      && not (is_empty k.allowed_origins)
      && not (any (λ o. same_origin o origin) k.allowed_origins)

  abbrev pub wrong_origin : Auth
  wrong_origin = unauthorized 403 "API key is not authorized for this application origin"

  -- `get_api_key_user`
  unfoldable pub get_api_key_user : Headers → List ApiKey → Auth × List ApiKey
  get_api_key_user h keys = elim (bearer h.authorization) [
    | none ↦ (invalid, keys)
    | some raw ↦ elim (key_of_hash (hash_token raw) keys) [
      | none ↦ (invalid, keys)
      | some k ↦
          if k.revoked
          then (invalid, keys)
          else if has_expired h.now k.expires_at
          then (unauthorized 401 "API key expired", keys)
          else elim (user_of k.user_id users) [
            | none ↦ (invalid, keys)
            | some u ↦
                if not u.is_active
                then (invalid, keys)
                else if is_foreign k.organization_id u.organization_id
                then (invalid, keys)
                else if is_wrong_origin h.origin k
                then (wrong_origin, keys)
                else (authorized u (count_use k), update_key k.id count_use keys)
          ]
    ]
  ]

  abbrev pub not_authenticated : Auth
  not_authenticated = unauthorized 401 "Not authenticated"

  -- `get_action_auth`, with the user of the session's cookie, if there is one.
  unfoldable pub get_action_auth : Option User → Headers → List ApiKey → Auth × List ApiKey
  get_action_auth (some u) h keys = (session_user u, keys)
  get_action_auth none h keys = elim (bearer h.authorization) [
    | none ↦ (not_authenticated, keys)
    | some raw ↦ elim (key_of_hash (hash_token raw) keys) [
      | none ↦ (not_authenticated, keys)
      | some k ↦
          if not k.revoked && not (has_expired h.now k.expires_at)
          then elim (user_of k.user_id users) [
            | none ↦ (not_authenticated, keys)
            | some u ↦
                if u.is_active && not (is_foreign k.organization_id u.organization_id)
                then (if is_wrong_origin h.origin k
                    then (wrong_origin, keys)
                    else (authorized u (count_use k), update_key k.id count_use keys))
                else (not_authenticated, keys)
          ]
          else (not_authenticated, keys)
    ]
  ]
