-- ===== src/Funding/Costs.antt =====
-- What recorded provider costs do to an account.
use zyntry_backend.Prelude.{
  String, ◌≡◌, Option, none, some, false, [], ◌∷◌, arith, str_eq, eq_iff, if◌then◌else◌,
}
use zyntry_backend.Prelude.Int.{ℤ, pos, ◌-ℤ◌, ◌<ℤ◌, leb_ℤ, max_ℤ}
use zyntry_backend.Tables.{lookup, lookup-upsert, lookup-append, key_of_lookup}
use zyntry_backend.Funding.{
  FundingAccount, Store, account_of, charged, usage_event, usage_key, effective_balance, low,
  healthy, record_provider_cost, balance_status,
}

-- The cost of a request is recorded once: after a cost with a request id was recorded against an
-- account, recording a cost with that request id again, of any positive amount, for that or another
-- provider that has an account, leaves the accounts and the events as they are.
pub record_provider_cost-once :
    (fresh fresh' p p' : String) (cost cost' : ℤ) (r : String) (s : Store) (a : FundingAccount)
    → str_eq r "" ≡ false
    → pos 0 <ℤ cost
    → account_of p s ≡ some a
    → (record_provider_cost fresh' p' cost'
        (some r)
        (record_provider_cost fresh p cost (some r) s).1).1
      ≡ (record_provider_cost fresh p cost (some r) s).1
unfolding record_provider_cost
record_provider_cost-once fresh fresh' p p' cost cost' r s a named positive found =
    let key = usage_key fresh (some r) in
    ground (
      arith,
      eq_iff key key,
      lookup-append (λ e. e.idempotency_key) key s.events
          (usage_event key (some r) cost (charged cost a) ∷ []),
    )

-- A new cost of an account takes the cost from the effective balance, but never below zero, and sets
-- the status to low exactly where what is left is at or below the minimum, to healthy elsewhere.
pub record_provider_cost-charges :
    (fresh p : String) (cost : ℤ) (r : Option String) (s : Store) (a : FundingAccount)
    → pos 0 <ℤ cost
    → account_of p s ≡ some a
    → lookup (λ e. e.idempotency_key) (usage_key fresh r) s.events ≡ none
    → (account_of p (record_provider_cost fresh p cost r s).1 ≡ some (charged cost a))
      × (effective_balance (charged cost a) ≡ max_ℤ (pos 0) (effective_balance a -ℤ cost))
      × ((charged cost a).status
          ≡ (if leb_ℤ (effective_balance (charged cost a)) a.minimum_balance then low else healthy))
unfolding record_provider_cost effective_balance balance_status
record_provider_cost-charges fresh p cost r s a positive found new =
    let named = key_of_lookup (λ x. x.provider) p s.accounts found in
    (
      ground (
        arith,
        lookup-upsert (λ x. x.provider) (charged cost a) s.accounts p,
        named,
        eq_iff a.provider p,
      ),
      ground arith,
      ground arith,
    )
