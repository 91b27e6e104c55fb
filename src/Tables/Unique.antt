-- ===== src/Tables/Unique.antt =====
-- Primary keys are unique: what a query finds by another column is the row that its key finds.
use zyntry_backend.Prelude.{
  String, ◌≡◌, List, [], ◌∷◌, ◌++◌, none, some, Bool, true, arith, str_eq, eq_iff, find,
}
use zyntry_backend.Tables.{lookup, replace, upsert, lookup-upsert, lookup-append, lookup-replace}

module _ {A : Type 0} (key : A → String) where
  abbrev pub Unique : List A → Type 0
  Unique [] = Unit
  Unique (x ∷ xs) = (lookup key (key x) xs ≡ none) × Unique xs

  find_misses :
      (p : A → Bool) (xs : List A) (k : String) {r : A}
      → lookup key k xs ≡ none
      → find p xs ≡ some r
      → str_eq (key r) k ≡ true
      → ⊥
  find_misses p [] k h f e = cc
  find_misses p (x ∷ xs) k {r = r} h f e = ground (arith, find_misses p xs k {r = r})

  pub lookup_of_find :
      (p : A → Bool) (xs : List A) {r : A}
      → Unique xs
      → find p xs ≡ some r
      → lookup key (key r) xs ≡ some r
  lookup_of_find p [] u f = cc
  lookup_of_find p (x ∷ xs) {r = r} u f = ground (
    arith,
    lookup_of_find p xs {r = r} u.1,
    find_misses p xs (key x) {r = r} u.0,
    eq_iff (key x) (key r),
    eq_iff (key r) (key x),
    eq_iff (key r) (key r),
  )

  pub replace-Unique :
      (r : A) (xs : List A) {old : A}
      → lookup key (key r) xs ≡ some old
      → Unique xs
      → Unique (replace key r xs)
  unfolding replace
  replace-Unique r [] h u = u
  replace-Unique r (x ∷ xs) {old = old} h u = ground (
    arith,
    replace-Unique r xs {old = old},
    eq_iff (key x) (key r),
    lookup-replace key r xs (key x) {old = old},
    eq_iff (key r) (key x),
  )

  pub append-Unique :
      (r : A) (xs : List A) → lookup key (key r) xs ≡ none → Unique xs → Unique (xs ++ r ∷ [])
  append-Unique r [] h u = ground arith
  append-Unique r (x ∷ xs) h u = ground (
    arith,
    append-Unique r xs,
    lookup-append key (key x) xs (r ∷ []),
    eq_iff (key x) (key r),
    eq_iff (key r) (key x),
  )

  pub upsert-Unique : (r : A) (xs : List A) → Unique xs → Unique (upsert key r xs)
  unfolding upsert
  upsert-Unique r [] u = ground arith
  upsert-Unique r (x ∷ xs) u = ground (
    arith,
    upsert-Unique r xs,
    eq_iff (key x) (key r),
    lookup-upsert key r xs (key x),
    eq_iff (key r) (key x),
  )

module _ {A : Type 0} (key other : A → String) where
  -- A row that is found by another column is found by it after an update that leaves that column.
  pub lookup_other-replace :
      (k : String) (r : A) (xs : List A) {old : A}
      → Unique key xs
      → lookup other k xs ≡ some old
      → key r ≡ key old
      → other r ≡ other old
      → lookup other k (replace key r xs) ≡ some r
  unfolding replace
  lookup_other-replace k r [] u h e o = cc
  lookup_other-replace k r (x ∷ xs) {old = old} u h e o = ground (
    arith,
    lookup_other-replace k r xs {old = old} u.1,
    find_misses key (λ y. str_eq (other y) k) xs (key x) {r = old} u.0,
    eq_iff (key x) (key r),
    eq_iff (other x) k,
    eq_iff (other r) k,
    eq_iff (key old) (key x),
  )
