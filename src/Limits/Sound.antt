-- ===== src/Limits/Sound.antt =====
-- A check passes exactly where no limit would be exceeded.
use zyntry_backend.Prelude.{
  String, ◌≡◌, refl, ◌↔◌, Option, none, some, List, [], ◌∷◌, All, arith, inl, inr, Option-cases,
}
use zyntry_backend.Prelude.Int.{ℤ, ◌≤ℤ◌}
use zyntry_backend.Rows.{Owner, SpendingLimit}
use zyntry_backend.Session.{Db}
use zyntry_backend.Limits.{
  Now, Scope, user, organization, project, runtime, api_key, scope_id, projected, limits_of,
  check_limits, check_scopes, check,
}

module _ (amount : ℤ) (owner : Owner) (now : Now) (exclude : Option String) (db : Db) where
  -- The spend of the period, what is reserved in it, and the new amount stay within the limit.
  abbrev pub Within : Scope → String → SpendingLimit → Type 0
  Within scope i l = projected amount now exclude db scope i l.period ≤ℤ l.amount

  abbrev pub WithinScope : Scope → Option String → Type 0
  WithinScope scope none = Unit
  WithinScope scope (some i) = All (Within scope i) (limits_of scope i db.limits)

  check_limits-none :
      (scope : Scope) (i : String) (ls : List SpendingLimit)
      → (check_limits amount owner now exclude db scope i ls ≡ none) ↔ All (Within scope i) ls
  unfolding check_limits
  check_limits-none scope i [] = (λ _. tt, λ _. refl)
  check_limits-none scope i (l ∷ ls) = ground (arith, check_limits-none scope i ls)

  check_scopes-none :
      (scopes : List Scope)
      → (check_scopes amount owner now exclude db scopes ≡ none)
        ↔ All (λ s. WithinScope s (scope_id s owner)) scopes
  unfolding check_scopes
  check_scopes-none [] = (λ _. tt, λ _. refl)
  check_scopes-none (s ∷ ss) = elim (Option-cases (scope_id s owner)) [
    | inl absent ↦ rw (absent, check_scopes) (ground (arith, check_scopes-none ss))
    | inr (i, given) ↦
        rw (given, check_scopes)
          (ground (arith, check_limits-none s i (limits_of s i db.limits), check_scopes-none ss))
  ]

  -- The check passes exactly when, for each scope that the owner has and each active limit of that
  -- scope, what is spent and reserved since the period's start and the new amount stay within it.
  pub check-none_iff :
      (check amount owner now exclude db ≡ none) ↔ ((s : Scope) → WithinScope s (scope_id s owner))
  unfolding check
  check-none_iff =
      let c = check_scopes-none (user ∷ organization ∷ project ∷ runtime ∷ api_key ∷ []) in
      (
        λ h s. scope_within (c.0 h) s,
        λ h. c.1 (h user, (h organization, (h project, (h runtime, (h api_key, tt))))),
      )
    where
      scope_within :
          All
            (λ s. WithinScope s (scope_id s owner))
            (user ∷ organization ∷ project ∷ runtime ∷ api_key ∷ [])
          → (s : Scope) → WithinScope s (scope_id s owner)
      scope_within (u, (o, (p, (r, (a, _))))) user = u
      scope_within (u, (o, (p, (r, (a, _))))) organization = o
      scope_within (u, (o, (p, (r, (a, _))))) project = p
      scope_within (u, (o, (p, (r, (a, _))))) runtime = r
      scope_within (u, (o, (p, (r, (a, _))))) api_key = a
