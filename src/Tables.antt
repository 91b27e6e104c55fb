-- ===== src/Tables.antt =====
-- Database tables as lists of rows: the queries and row updates that the services run through
-- SQLAlchemy (app/repositories/base.py), with a text for each primary key.
pub mod Unique
pub mod Every
use zyntry_backend.Prelude.{
  String, ◌≡◌, refl, List, [], ◌∷◌, ◌++◌, Option, none, some, Bool, true, false, arith, str_eq,
  eq_iff, find, keep, if◌then◌else◌,
}
use zyntry_backend.Prelude.Int.{ℤ, ◌+ℤ◌, sum_of, int_laws}

pub find-append :
    {A : Type 0} (p : A → Bool) (xs ys : List A)
    → find p (xs ++ ys) ≡ elim (find p xs) [ some r ↦ some r | none ↦ find p ys ]
find-append p [] ys = refl
find-append p (x ∷ xs) ys = ground (arith, find-append p xs ys)

-- A sum over the rows that pass a test, with one more row that does not.
pub sum_of-keep_snoc :
    {A : Type 0} (f : A → ℤ) (p : A → Bool) (xs : List A) (y : A)
    → p y ≡ false
    → sum_of f (keep p (xs ++ y ∷ [])) ≡ sum_of f (keep p xs)
unfolding sum_of
sum_of-keep_snoc f p [] y h = ground arith
sum_of-keep_snoc f p (x ∷ xs) y h = ground (arith, sum_of-keep_snoc f p xs y h)

module _ {A : Type 0} (key : A → String) where
  -- `session.get(Model, id)`, or a select on a unique column.
  abbrev pub lookup : String → List A → Option A
  lookup k = find (λ r. str_eq (key r) k)

  -- The flush of a row whose attributes were assigned: it replaces the row with its key.
  unfoldable pub replace : A → List A → List A
  replace r [] = []
  replace r (x ∷ xs) = if str_eq (key x) (key r) then r ∷ xs else x ∷ replace r xs

  -- `d[key] = r` of a dictionary of rows.
  unfoldable pub upsert : A → List A → List A
  upsert r [] = r ∷ []
  upsert r (x ∷ xs) = if str_eq (key x) (key r) then r ∷ xs else x ∷ upsert r xs

  pub lookup-upsert :
      (r : A) (xs : List A) (j : String)
      → lookup j (upsert r xs) ≡ (if str_eq (key r) j then some r else lookup j xs)
  unfolding upsert
  lookup-upsert r [] j = ground arith
  lookup-upsert r (x ∷ xs) j =
      ground
        (arith, lookup-upsert r xs j, eq_iff (key x) (key r), eq_iff (key x) j, eq_iff (key r) j)

  pub key_of_lookup : (k : String) (xs : List A) {r : A} → lookup k xs ≡ some r → key r ≡ k
  key_of_lookup k [] h = ground arith
  key_of_lookup k (x ∷ xs) {r = r} h = ground (arith, key_of_lookup k xs {r = r}, eq_iff (key x) k)

  pub lookup-replace :
      (r : A) (xs : List A) (j : String) {old : A}
      → lookup (key r) xs ≡ some old
      → lookup j (replace r xs) ≡ (if str_eq (key r) j then some r else lookup j xs)
  unfolding replace
  lookup-replace r [] j h = ground arith
  lookup-replace r (x ∷ xs) j {old = old} h = ground (
    arith,
    lookup-replace r xs j {old = old},
    eq_iff (key x) (key r),
    eq_iff (key x) j,
    eq_iff (key r) j,
  )

  pub sum_of-replace :
      (f : A → ℤ) (r : A) (xs : List A) {old : A}
      → lookup (key r) xs ≡ some old
      → sum_of f (replace r xs) +ℤ f old ≡ sum_of f xs +ℤ f r
  unfolding replace sum_of
  sum_of-replace f r [] h = ground arith
  sum_of-replace f r (x ∷ xs) {old = old} h = grind (int_laws, sum_of-replace f r xs {old = old})

  pub lookup-append :
      (k : String) (xs ys : List A)
      → lookup k (xs ++ ys) ≡ elim (lookup k xs) [ some r ↦ some r | none ↦ lookup k ys ]
  lookup-append k [] ys = refl
  lookup-append k (x ∷ xs) ys = ground (arith, lookup-append k xs ys)
