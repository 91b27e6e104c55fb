-- ===== src/ApiKeys/Revoked/Rows.antt =====
-- What updates and insertions of rows do to a key that is revoked.
use zyntry_backend.Prelude.{
  String, ◌≡◌, ◌≢◌, refl, none, some, true, List, [], ◌∷◌, ◌++◌, arith, Option-cases, inl, inr,
  str_eq, eq_iff, if◌then◌else◌,
}
use mathlib.Core.Path.{subst}
use zyntry_backend.Tables.{lookup-append}
use zyntry_backend.Session.{ok}
use zyntry_backend.ApiKeys.{ApiKey, key_of_id, key_of_hash, update_key, insert_key, revoke}

-- The row that has a hash is revoked.
pub record IsDead (h : String) (keys : List ApiKey) : Type 0 where
  pub row : ApiKey
  pub found : key_of_hash h keys ≡ some row
  pub is_revoked : row.revoked ≡ true

pub key_of_hash-update :
    (h id : String) (f : ApiKey → ApiKey) (keys : List ApiKey)
    → ((k : ApiKey) → (f k).hashed_key ≡ k.hashed_key)
    → key_of_hash h (update_key id f keys) ≡ elim (key_of_hash h keys) [
      | none ↦ none
      | some k ↦ some (if str_eq k.id id then f k else k)
    ]
key_of_hash-update h id f [] same = refl
key_of_hash-update h id f (k ∷ ks) same = ground (arith, key_of_hash-update h id f ks same, same k)

pub IsDead-update :
    (h id : String) (f : ApiKey → ApiKey) (keys : List ApiKey)
    → ((k : ApiKey) → (f k).hashed_key ≡ k.hashed_key)
    → ((k : ApiKey) → k.revoked ≡ true → (f k).revoked ≡ true)
    → IsDead h keys
    → IsDead h (update_key id f keys)
IsDead-update h id f keys same stays d =
    let next : ApiKey = if str_eq d.row.id id then f d.row else d.row in
    record {
      row = next;
      found = ground (arith, key_of_hash-update h id f keys same, d.found);
      is_revoked = ground (arith, stays d.row d.is_revoked, d.is_revoked);
    }

pub has_id :
    (k : ApiKey) (h : String) (keys : List ApiKey)
    → key_of_hash h keys ≡ some k
    → key_of_id k.id keys ≢ none
has_id k h [] found lost = ground arith
has_id k h (x ∷ xs) found lost = ground (arith, has_id k h xs, eq_iff x.id k.id, eq_iff k.id k.id)

pub IsDead-revoked :
    (k : ApiKey) (keys : List ApiKey)
    → key_of_hash k.hashed_key keys ≡ some k
    → IsDead k.hashed_key (update_key k.id revoke keys)
IsDead-revoked k keys found = record {
  row = revoke k;
  found = ground (
    arith,
    key_of_hash-update k.hashed_key k.id revoke keys (λ x. refl),
    found,
    eq_iff k.id k.id,
  );
  is_revoked = refl;
}

pub IsDead-append :
    (h : String) (k : ApiKey) (keys : List ApiKey) → IsDead h keys → IsDead h (keys ++ k ∷ [])
IsDead-append h k keys d = record {
  row = d.row;
  found = ground (arith, lookup-append (λ x. x.hashed_key) h keys (k ∷ []), d.found);
  is_revoked = d.is_revoked;
}

pub insert_key-ok :
    (k : ApiKey) (keys : List ApiKey) {next : List ApiKey}
    → insert_key k keys ≡ ok next
    → keys ++ k ∷ [] ≡ next
insert_key-ok k keys h = elim (Option-cases (key_of_hash k.hashed_key keys)) [
  | inr (old, used) ↦ absurd (ground (arith, used))
  | inl free ↦ elim (Option-cases (key_of_id k.id keys)) [
    | inr (old, used) ↦ absurd (ground (arith, free, used))
    | inl new ↦ ground (arith, free, new)
  ]
]

pub IsDead-insert :
    (h : String) (k : ApiKey) (keys : List ApiKey) {next : List ApiKey}
    → insert_key k keys ≡ ok next
    → IsDead h keys
    → IsDead h next
IsDead-insert h k keys made d =
    subst (IsDead h) (insert_key-ok k keys made) (IsDead-append h k keys d)
