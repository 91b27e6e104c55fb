-- ===== src/Tables/Every.antt =====
-- A property of every row of a table, under the updates of the table.
use mathlib.Core.Path.{subst}
use zyntry_backend.Prelude.{
  String, ◌≡◌, some, true, false, List, [], ◌∷◌, ◌++◌, All, arith, str_eq, Bool-cases, inl, inr,
}
use zyntry_backend.Tables.{lookup, replace}

module _ {A : Type 0} (P : A → Type 0) where
  pub All-snoc : (xs : List A) (y : A) → All P xs → P y → All P (xs ++ y ∷ [])
  All-snoc [] y h p = (p, tt)
  All-snoc (x ∷ xs) y h p = (h.0, All-snoc xs y h.1 p)

module _ {A : Type 0} (key : A → String) (P : A → Type 0) where
  pub All-replace : (r : A) (xs : List A) → All P xs → P r → All P (replace key r xs)
  unfolding replace
  All-replace r [] h p = tt
  All-replace r (x ∷ xs) h p = elim (Bool-cases (str_eq (key x) (key r))) [
    | inl same ↦ rw same (p, h.1)
    | inr other ↦ rw other (h.0, All-replace r xs h.1 p)
  ]

  head_found :
      (k : String) (x : A) (xs : List A) {r : A}
      → str_eq (key x) k ≡ true
      → lookup key k (x ∷ xs) ≡ some r
      → x ≡ r
  head_found k x xs same e = ground arith

  tail_found :
      (k : String) (x : A) (xs : List A) {r : A}
      → str_eq (key x) k ≡ false
      → lookup key k (x ∷ xs) ≡ some r
      → lookup key k xs ≡ some r
  tail_found k x xs other e = ground arith

  pub All_at : (k : String) (xs : List A) {r : A} → All P xs → lookup key k xs ≡ some r → P r
  All_at k [] h e = cc
  All_at k (x ∷ xs) {r = r} h e = elim (Bool-cases (str_eq (key x) k)) [
    | inl same ↦ subst P (head_found k x xs same e) h.0
    | inr other ↦ All_at k xs h.1 (tail_found k x xs other e)
  ]
