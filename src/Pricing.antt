-- ===== src/Pricing.antt =====
-- Metered prices (app/services/metered_billing.py, `PricingService`). The rows of a query that tie in
-- its order come in table order.
mod Examples
pub mod Quotes
use zyntry_backend.Prelude.{
  ℕ, zero, String, Option, none, some, Bool, true, false, not, ◌&&◌, ◌||◌, List, [], ◌∷◌, ◌++◌, ltb,
  leb, ◌==◌, keep, find, sort, str_eq, if◌then◌else◌,
}
use zyntry_backend.Prelude.Int.{ℤ, pos, ◌+ℤ◌, ◌-ℤ◌, leb_ℤ, sum_of}
use zyntry_backend.Money.{Decimal, of_int, of_money, money, mul, add}
use zyntry_backend.Rows.{PricingRule}
use zyntry_backend.Session.{is_some}
use zyntry_backend.Tables.{upsert}

abbrev pub is_none : Option String → Bool
is_none none = true
is_none (some m) = false

-- `r.model == model`, where either may be `None`.
abbrev pub model_eq : Option String → Option String → Bool
model_eq none m = is_none m
model_eq (some a) none = false
model_eq (some a) (some b) = str_eq a b

abbrev pub is_effective : ℕ → PricingRule → Bool
is_effective now r =
    leb r.effective_from now && elim r.effective_until [ none ↦ true | some until ↦ ltb now until ]

-- The conditions of the select in `rules`.
unfoldable pub applies : String → String → Option String → ℕ → PricingRule → Bool
applies provider operation model now r =
    (str_eq r.provider provider || str_eq r.provider "*")
    && str_eq r.operation operation
    && r.active
    && is_effective now r
    && (is_none model || model_eq r.model model || is_none r.model)

-- Its order: rules for a model first, then higher versions, then later rows.
unfoldable pub ranks_before : PricingRule → PricingRule → Bool
ranks_before r s = if is_none r.model then is_none s.model && newer else is_none s.model || newer
  where
    newer : Bool
    newer = ltb s.version r.version || (s.version == r.version && ltb s.created_at r.created_at)

unfoldable pub rules : String → String → Option String → ℕ → List PricingRule → List PricingRule
unfolding applies ranks_before
rules provider operation model now rows =
    sort ranks_before (keep (applies provider operation model now) rows)

-- `next(a, None) or next(b, None)`.
abbrev pub or_else : Option PricingRule → Option PricingRule → Option PricingRule
or_else none b = b
or_else (some r) b = some r

unfoldable pub select_rule : Option String → List PricingRule → Option PricingRule
select_rule model rs =
    or_else (find (λ r. model_eq r.model model) rs) (find (λ r. is_none r.model) rs)

abbrev pub is_positive : Decimal → Bool
is_positive d = not (leb_ℤ d.coefficient (pos 0))

-- The costs under one rule: the provider's, and the customer's with the markup on it.
unfoldable pub cost_under : PricingRule → Decimal → ℤ × ℤ
cost_under r quantity =
    let provider_cost = money (mul r.price_per_unit quantity) in
    (money (mul (of_money provider_cost) (add (of_int (pos 1)) r.markup)), provider_cost)

module _ (rows : List PricingRule) (now : ℕ) (provider : String) (model : Option String) where
  -- The customer's cost, the provider's cost, and the rule that they come from.
  unfoldable pub price : String → Decimal → ℤ × ℤ × Option PricingRule
  unfolding rules select_rule cost_under
  price operation quantity = elim (select_rule model (rules provider operation model now rows)) [
    | none ↦ (pos 0, pos 0, none)
    | some r ↦
        if is_positive quantity
        then ((cost_under r quantity).0, (cost_under r quantity).1, some r)
        else (pos 0, pos 0, none)
  ]

pub record Component : Type 0 where
  pub operation : String
  pub quantity : Decimal
  pub customer_cost : ℤ
  pub provider_cost : ℤ
  pub markup : ℤ
  pub pricing_rule_id : String
  pub pricing_version : ℕ

pub record Usage : Type 0 where
  pub input_tokens : ℤ
  pub output_tokens : ℤ
  pub cached_tokens : ℤ
  pub embedding_tokens : ℤ
  pub vector_searches : ℤ
  pub reranks : ℤ
  pub storage_bytes : ℤ
  pub requests : ℤ
  pub resource_components : List (String × Decimal)

pub record Quote : Type 0 where
  pub amount : ℤ
  pub provider_cost : ℤ
  pub markup : ℤ
  pub components : List Component

-- `operation in components`.
abbrev pub has_component : String → List Component → Bool
has_component operation cs = is_some (find (λ c. str_eq c.operation operation) cs)

-- The operations that are always metered, in the source's order.
abbrev pub metered : Usage → List (String × Decimal)
metered u =
    ("input_tokens", of_int u.input_tokens)
    ∷ ("output_tokens", of_int u.output_tokens)
    ∷ ("cached_tokens", of_int u.cached_tokens)
    ∷ ("embeddings", of_int u.embedding_tokens)
    ∷ ("vector_search", of_int u.vector_searches)
    ∷ ("reranking", of_int u.reranks)
    ∷ ("storage", of_int u.storage_bytes)
    ∷ ("invoke", of_int u.requests)
    ∷ []

-- `components[operation] = {…}`, where a rule was found.
abbrev pub assign : String → Decimal → ℤ × ℤ × Option PricingRule → List Component → List Component
assign operation quantity (customer, provider_cost, none) cs = cs
assign operation quantity (customer, provider_cost, some r) cs =
    upsert (λ c. c.operation)
      (record {
        operation = operation;
        quantity = quantity;
        customer_cost = customer;
        provider_cost = provider_cost;
        markup = customer -ℤ provider_cost;
        pricing_rule_id = r.id;
        pricing_version = r.version;
      })
      cs

module _ (rows : List PricingRule) (now : ℕ) (provider : String) (model : Option String) where
  -- The first loop: the operations that are always metered.
  unfoldable pub price_metered : List (String × Decimal) → List Component → List Component
  price_metered [] cs = cs
  price_metered ((operation, quantity) ∷ items) cs = price_metered items (
      if is_positive quantity
      then assign operation quantity (price rows now provider model operation quantity) cs
      else cs)

  -- The second loop: other resources, unless the operation is priced already.
  unfoldable pub price_resources : List (String × Decimal) → List Component → List Component
  price_resources [] cs = cs
  price_resources ((operation, quantity) ∷ items) cs = price_resources items (
      if not (is_positive quantity) || has_component operation cs
      then cs
      else assign operation quantity (price rows now provider model operation quantity) cs)

  unfoldable pub components_of : Usage → List Component
  unfolding price_metered price_resources
  components_of u = price_resources u.resource_components (price_metered (metered u) [])

  unfoldable pub calculate : Usage → Quote
  calculate u =
      let components = components_of u in
      let customer_total = sum_of (λ c. c.customer_cost) components in
      let provider_total = sum_of (λ c. c.provider_cost) components in
      record {
        amount = money (of_money customer_total);
        provider_cost = money (of_money provider_total);
        markup = money (of_money (customer_total -ℤ provider_total));
        components = components;
      }
