-- ===== src/ApiKeys/Revoked.antt =====
-- A key that is revoked stays refused.
pub mod Rows
use zyntry_backend.Prelude.{
  String, ◌≡◌, ◌≢◌, ◌⊎◌, ◌||◌, refl, Option, none, some, Bool, true, not, ◌&&◌, List, [], ◌∷◌, ◌++◌,
  arith, Bool-cases, Option-cases, inl, inr, str_eq, eq_iff, if◌then◌else◌,
}
use mathlib.Core.Path.{subst}
use zyntry_backend.Tables.{lookup-append}
use zyntry_backend.Session.{Result-cases, ok}
use zyntry_backend.Chunking.{Text}
use zyntry_backend.ApiKeys.{
  ApiKey, User, ApiKeyCreate, key_of_id, key_of_hash, update_key, insert_key, new_key, replacement,
  revoke, create_key, rotate_key, revoke_key, update_scopes, Headers, bearer, invalid,
  not_authenticated, count_use, get_api_key_user, get_action_auth, has_expired, user_of, is_foreign,
  is_wrong_origin,
}
use zyntry_backend.ApiKeys.Revoked.Rows.{
  IsDead, IsDead-update, has_id, IsDead-revoked, insert_key-ok, IsDead-insert,
}

module _ (hash_token : Text → String) (same_origin : String → String → Bool)
    (users : List User) where
  -- The calls that change the table.
  pub data Operation : Type 0 where
    creates : String → Text → String → Option String → ApiKeyCreate → Operation
    rotates : String → String → Text → Operation
    revokes : String → Operation
    rescopes : String → List String → Operation
    uses : Headers → Operation
    acts : Option User → Headers → Operation

  abbrev pub perform : Operation → List ApiKey → List ApiKey
  perform (creates id token u o data_) keys = (create_key hash_token id token u o data_ keys).1
  perform (rotates key_id id token) keys = (rotate_key hash_token key_id id token keys).1
  perform (revokes key_id) keys = (revoke_key key_id keys).1
  perform (rescopes key_id scopes) keys = (update_scopes key_id scopes keys).1
  perform (uses h) keys = (get_api_key_user hash_token same_origin users h keys).1
  perform (acts u h) keys = (get_action_auth hash_token same_origin users u h keys).1

  abbrev pub perform_all : List Operation → List ApiKey → List ApiKey
  perform_all [] keys = keys
  perform_all (o ∷ os) keys = perform_all os (perform o keys)

  create_key-IsDead :
      (h id : String) (token : Text) (u : String) (o : Option String) (data_ : ApiKeyCreate)
      (keys : List ApiKey)
      → IsDead h keys
      → IsDead h (create_key hash_token id token u o data_ keys).1
  unfolding create_key
  create_key-IsDead h id token u o data_ keys d =
      elim (Result-cases (insert_key (new_key hash_token id token u o data_) keys)) [
        | inr (x, bad) ↦
            let step : (create_key hash_token id token u o data_ keys).1 ≡ keys =
              ground (arith, bad) in
            simp step d
        | inl (next, made) ↦
            let step : (create_key hash_token id token u o data_ keys).1 ≡ next =
              ground (arith, made) in
            simp step (IsDead-insert h (new_key hash_token id token u o data_) keys made d)
      ]

  revoke_key-cases :
      (key_id : String) (keys : List ApiKey)
      → ((revoke_key key_id keys).1 ≡ keys)
        ⊎ ((revoke_key key_id keys).1 ≡ update_key key_id revoke keys)
  unfolding revoke_key
  revoke_key-cases key_id keys = elim (Option-cases (key_of_id key_id keys)) [
    | inl lost ↦ inl (ground (arith, lost))
    | inr (k, found) ↦ inr (ground (arith, found))
  ]

  update_scopes-cases :
      (key_id : String) (scopes : List String) (keys : List ApiKey)
      → ((update_scopes key_id scopes keys).1 ≡ keys)
        ⊎ ((update_scopes key_id scopes keys).1
            ≡ update_key key_id (λ x. record x { scopes = scopes }) keys)
  unfolding update_scopes
  update_scopes-cases key_id scopes keys = elim (Option-cases (key_of_id key_id keys)) [
    | inl lost ↦ inl (ground (arith, lost))
    | inr (k, found) ↦ inr (ground (arith, found))
  ]

  revoke_key-found :
      (key_id : String) (keys : List ApiKey) {k : ApiKey}
      → key_of_id key_id keys ≡ some k
      → (revoke_key key_id keys).1 ≡ update_key key_id revoke keys
  unfolding revoke_key
  revoke_key-found key_id keys h = ground arith

  -- A rotation that is not refused.
  pub record IsRotation (key_id id : String) (token : Text) (keys : List ApiKey) : Type 0 where
    pub old : ApiKey
    pub next : List ApiKey
    pub inserted : insert_key (replacement hash_token id token old) keys ≡ ok next
    pub after : (rotate_key hash_token key_id id token keys).1 ≡ update_key key_id revoke next

  rotate_key-cases :
      (key_id id : String) (token : Text) (keys : List ApiKey)
      → (((rotate_key hash_token key_id id token keys).1 ≡ keys)
          × ((raw : Text) → (rotate_key hash_token key_id id token keys).0 ≢ ok raw))
        ⊎ IsRotation key_id id token keys
  unfolding rotate_key
  rotate_key-cases key_id id token keys = elim (Option-cases (key_of_id key_id keys)) [
    | inl lost ↦ inl (ground (arith, lost), λ raw e. ground (arith, lost, e))
    | inr (old, found) ↦ elim (Bool-cases old.revoked) [
      | inl dead ↦ inl (ground (arith, found, dead), λ raw e. ground (arith, found, dead, e))
      | inr live ↦ elim (Result-cases (insert_key (replacement hash_token id token old) keys)) [
        | inr (x, bad) ↦
            inl (ground (arith, found, live, bad), λ raw e. ground (arith, found, live, bad, e))
        | inl (next, made) ↦ inr (record {
          old = old;
          next = next;
          inserted = made;
          after = ground (arith, found, live, made);
        })
      ]
    ]
  ]

  get_api_key_user-cases :
      (h : Headers) (keys : List ApiKey)
      → ((get_api_key_user hash_token same_origin users h keys).1 ≡ keys)
        ⊎ ((id : String) × ((get_api_key_user hash_token same_origin users h keys).1
              ≡ update_key id count_use keys))
  unfolding get_api_key_user
  get_api_key_user-cases h keys = elim (Option-cases (bearer h.authorization)) [
    | inl none_given ↦ inl (ground (arith, none_given))
    | inr (raw, given) ↦ elim (Option-cases (key_of_hash (hash_token raw) keys)) [
      | inl lost ↦ inl (ground (arith, given, lost))
      | inr (k, found) ↦ elim (Bool-cases (k.revoked || has_expired h.now k.expires_at)) [
        | inl dead ↦ inl (ground (arith, given, found, dead))
        | inr live ↦ elim (Option-cases (user_of k.user_id users)) [
          | inl lost ↦ inl (ground (arith, given, found, live, lost))
          | inr (u, known) ↦
              elim (Bool-cases (
                u.is_active
                && not (is_foreign k.organization_id u.organization_id)
                && not (is_wrong_origin hash_token same_origin users h.origin k))) [
                  | inl fine ↦ inr (k.id, ground (arith, given, found, live, known, fine))
                  | inr wrong ↦ inl (ground (arith, given, found, live, known, wrong))
                ]
        ]
      ]
    ]
  ]

  get_action_auth-cases :
      (s : Option User) (h : Headers) (keys : List ApiKey)
      → ((get_action_auth hash_token same_origin users s h keys).1 ≡ keys)
        ⊎ ((id : String) × ((get_action_auth hash_token same_origin users s h keys).1
              ≡ update_key id count_use keys))
  unfolding get_action_auth
  get_action_auth-cases (some u) h keys = inl refl
  get_action_auth-cases none h keys = elim (Option-cases (bearer h.authorization)) [
    | inl none_given ↦ inl (ground (arith, none_given))
    | inr (raw, given) ↦ elim (Option-cases (key_of_hash (hash_token raw) keys)) [
      | inl lost ↦ inl (ground (arith, given, lost))
      | inr (k, found) ↦ elim (Bool-cases (not k.revoked && not (has_expired h.now k.expires_at))) [
        | inr dead ↦ inl (ground (arith, given, found, dead))
        | inl live ↦ elim (Option-cases (user_of k.user_id users)) [
          | inl lost ↦ inl (ground (arith, given, found, live, lost))
          | inr (u, known) ↦
              elim (Bool-cases (
                u.is_active
                && not (is_foreign k.organization_id u.organization_id)
                && not (is_wrong_origin hash_token same_origin users h.origin k))) [
                  | inl fine ↦ inr (k.id, ground (arith, given, found, live, known, fine))
                  | inr wrong ↦ inl (ground (arith, given, found, live, known, wrong))
                ]
        ]
      ]
    ]
  ]

  -- No call gives a dead key its life back.
  perform-IsDead :
      (hash : String) (o : Operation) (keys : List ApiKey)
      → IsDead hash keys
      → IsDead hash (perform o keys)
  perform-IsDead hash (creates id token u o data_) keys d =
      create_key-IsDead hash id token u o data_ keys d
  perform-IsDead hash (rotates key_id id token) keys d =
      elim (rotate_key-cases key_id id token keys) [
        | inl (same, refused) ↦ simp same d
        | inr r ↦ simp r.after (
            IsDead-update hash key_id revoke r.next (λ k. refl) (λ k dead. refl)
              (IsDead-insert hash (replacement hash_token id token r.old) keys r.inserted d))
      ]
  perform-IsDead hash (revokes key_id) keys d = elim (revoke_key-cases key_id keys) [
    | inl same ↦ simp same d
    | inr after ↦ simp after (IsDead-update hash key_id revoke keys (λ k. refl) (λ k dead. refl) d)
  ]
  perform-IsDead hash (rescopes key_id scopes) keys d =
      elim (update_scopes-cases key_id scopes keys) [
        | inl same ↦ simp same d
        | inr after ↦ simp after (
            IsDead-update hash key_id (λ x. record x { scopes = scopes }) keys (λ k. refl)
              (λ k dead. dead) d)
      ]
  perform-IsDead hash (uses h) keys d = elim (get_api_key_user-cases h keys) [
    | inl same ↦ simp same d
    | inr (id, after) ↦
        simp after (IsDead-update hash id count_use keys (λ k. refl) (λ k dead. dead) d)
  ]
  perform-IsDead hash (acts u h) keys d = elim (get_action_auth-cases u h keys) [
    | inl same ↦ simp same d
    | inr (id, after) ↦
        simp after (IsDead-update hash id count_use keys (λ k. refl) (λ k dead. dead) d)
  ]

  perform_all-IsDead :
      (hash : String) (os : List Operation) (keys : List ApiKey)
      → IsDead hash keys
      → IsDead hash (perform_all os keys)
  perform_all-IsDead hash [] keys d = d
  perform_all-IsDead hash (o ∷ os) keys d =
      perform_all-IsDead hash os (perform o keys) (perform-IsDead hash o keys d)

  -- The tables after a key is revoked, or replaced by a rotation that succeeds.
  pub data Retires (k : ApiKey) (keys : List ApiKey) : List ApiKey → Type 0 where
    by_revocation : Retires k keys (revoke_key k.id keys).1
    by_rotation :
        (id : String) (token : Text) {raw : Text}
        → (rotate_key hash_token k.id id token keys).0 ≡ ok raw
        → Retires k keys (rotate_key hash_token k.id id token keys).1

  Retires-IsDead :
      (k : ApiKey) (keys : List ApiKey) {after : List ApiKey}
      → key_of_hash k.hashed_key keys ≡ some k
      → Retires k keys after
      → IsDead k.hashed_key after
  Retires-IsDead k keys found by_revocation = elim (Option-cases (key_of_id k.id keys)) [
    | inl lost ↦ absurd (has_id k k.hashed_key keys found lost)
    | inr (x, there) ↦
        let step = revoke_key-found k.id keys {k = x} there in
        simp step (IsDead-revoked k keys found)
  ]
  Retires-IsDead k keys found (by_rotation id token {raw} done) =
      elim (rotate_key-cases k.id id token keys) [
        | inl (same, refused) ↦ absurd (refused raw done)
        | inr r ↦
            let grown =
              insert_key-ok (replacement hash_token id token r.old) keys {next = r.next}
                r.inserted in
            let still : key_of_hash k.hashed_key r.next ≡ some k =
              subst (λ ks. key_of_hash k.hashed_key ks ≡ some k) grown
                (ground (
                  arith,
                  lookup-append (λ x. x.hashed_key) k.hashed_key keys
                      (replacement hash_token id token r.old ∷ []),
                  found,
                )) in
            simp r.after (IsDead-revoked k r.next still)
      ]

  -- Once a key is revoked, or replaced by a rotation that succeeds, a request that comes with it and without a
  -- session is refused by both of the dependencies, whatever calls come between, and changes nothing.
  pub retired_key-refused :
      (k : ApiKey) (keys : List ApiKey) {after : List ApiKey} (os : List Operation) (h : Headers)
      (raw : Text)
      → key_of_hash k.hashed_key keys ≡ some k
      → Retires k keys after
      → bearer h.authorization ≡ some raw
      → hash_token raw ≡ k.hashed_key
      → let late = perform_all os after in
        (get_api_key_user hash_token same_origin users h late ≡ (invalid, late))
        × (get_action_auth hash_token same_origin users none h late
            ≡ (not_authenticated hash_token same_origin users, late))
  unfolding get_api_key_user get_action_auth
  retired_key-refused k keys {after = after} os h raw found gone given same =
      let d = perform_all-IsDead k.hashed_key os after (Retires-IsDead k keys found gone) in
      (
        ground (arith, given, same, d.found, d.is_revoked),
        ground (arith, given, same, d.found, d.is_revoked),
      )
