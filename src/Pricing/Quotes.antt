-- ===== src/Pricing/Quotes.antt =====
-- What a quote promises: which item each operation is charged for, and what the totals are.
use zyntry_backend.Prelude.{
  ℕ, String, ◌≡◌, refl, Option, none, some, Bool, true, false, not, ◌||◌, ◌&&◌, List, [], ◌∷◌, ◌++◌,
  All, arith, Bool-cases, inl, inr, str_eq, eq_iff, if◌then◌else◌,
}
use zyntry_backend.Session.{is_some}
use zyntry_backend.Tables.{lookup, lookup-upsert}
use zyntry_backend.Prelude.Int.{ℤ, ◌+ℤ◌, ◌-ℤ◌, sum_of, int_laws}
use zyntry_backend.Money.{Decimal}
use zyntry_backend.Money.Rounding.{money-of_money}
use zyntry_backend.Rows.{PricingRule}
use zyntry_backend.Tables.Unique.{Unique, upsert-Unique}
use zyntry_backend.Pricing.{
  Component, Usage, metered, assign, price, price_metered, price_resources, components_of,
  calculate, is_positive, has_component,
}

abbrev pub IsUnique : List Component → Type 0
IsUnique = Unique (λ c. c.operation)

assign-IsUnique :
    (o : String) (q : Decimal) (p : ℤ × ℤ × Option PricingRule) (cs : List Component)
    → IsUnique cs
    → IsUnique (assign o q p cs)
assign-IsUnique o q (c, pc, none) cs u = u
assign-IsUnique o q (c, pc, some r) cs u = upsert-Unique (λ c. c.operation) _ cs u

if_elim :
    (b : Bool) (xs ys : List Component)
    → IsUnique xs
    → IsUnique ys
    → IsUnique (if b then xs else ys)
if_elim true xs ys u v = u
if_elim false xs ys u v = v

-- What an item that is found at a price leads to: nothing, where no rule was found.
abbrev pub component : String → Decimal → ℤ × ℤ × Option PricingRule → Option Component
component o q (customer, provider_cost, none) = none
component o q (customer, provider_cost, some r) = some (record {
  operation = o;
  quantity = q;
  customer_cost = customer;
  provider_cost = provider_cost;
  markup = customer -ℤ provider_cost;
  pricing_rule_id = r.id;
  pricing_version = r.version;
})

abbrev component_in : String → List Component → Option Component
component_in = lookup (λ c. c.operation)

component_in-assign :
    (k o : String) (q : Decimal) (p : ℤ × ℤ × Option PricingRule) (cs : List Component)
    → component_in k (assign o q p cs) ≡ elim (component o q p) [
      | none ↦ component_in k cs
      | some c ↦ if str_eq o k then some c else component_in k cs
    ]
component_in-assign k o q (customer, provider_cost, none) cs = refl
component_in-assign k o q (customer, provider_cost, some r) cs =
    lookup-upsert (λ c. c.operation) _ cs k

-- No item's operation is that of a later one.
abbrev AreDistinct : List (String × Decimal) → Type 0
AreDistinct [] = Unit
AreDistinct (i ∷ is) = All (λ j. str_eq j.0 i.0 ≡ false) is × AreDistinct is

metered-AreDistinct : (u : Usage) → AreDistinct (metered u)
metered-AreDistinct u = ground arith

module _ (rows : List PricingRule) (now : ℕ) (provider : String) (model : Option String) where
  price_metered-IsUnique :
      (items : List (String × Decimal)) (cs : List Component)
      → IsUnique cs
      → IsUnique (price_metered rows now provider model items cs)
  unfolding price_metered
  price_metered-IsUnique [] cs u = u
  price_metered-IsUnique ((o, q) ∷ items) cs u = price_metered-IsUnique items _ (
      if_elim (is_positive q) _ cs (assign-IsUnique o q (price rows now provider model o q) cs u) u)

  price_resources-IsUnique :
      (items : List (String × Decimal)) (cs : List Component)
      → IsUnique cs
      → IsUnique (price_resources rows now provider model items cs)
  unfolding price_resources
  price_resources-IsUnique [] cs u = u
  price_resources-IsUnique ((o, q) ∷ items) cs u = price_resources-IsUnique items _ (
      if_elim (not (is_positive q) || has_component o cs) cs _ u
        (assign-IsUnique o q (price rows now provider model o q) cs u))

  -- What an item charges for an operation: nothing, unless its quantity is positive and has a price.
  abbrev pub charge : String → String × Decimal → Option Component
  charge k (o, q) =
      if str_eq o k && is_positive q
      then component o q (price rows now provider model o q)
      else none

  -- What the first of the items that charges for an operation charges.
  abbrev pub first_charge : String → List (String × Decimal) → Option Component
  first_charge k [] = none
  first_charge k (i ∷ is) = elim (charge k i) [ some c ↦ some c | none ↦ first_charge k is ]

  first_charge-append :
      (k : String) (is js : List (String × Decimal))
      → first_charge k (is ++ js)
        ≡ elim (first_charge k is) [ some c ↦ some c | none ↦ first_charge k js ]
  first_charge-append k [] js = refl
  first_charge-append k (i ∷ is) js = ground (arith, first_charge-append k is js)

  first_charge-other :
      (k : String) (is : List (String × Decimal))
      → All (λ j. str_eq j.0 k ≡ false) is
      → first_charge k is ≡ none
  first_charge-other k [] h = refl
  first_charge-other k ((o, q) ∷ is) h = ground (arith, first_charge-other k is h.1, h.0)

  component_in-metered :
      (k : String) (is : List (String × Decimal)) (cs : List Component)
      → AreDistinct is
      → component_in k (price_metered rows now provider model is cs)
        ≡ elim (first_charge k is) [ some c ↦ some c | none ↦ component_in k cs ]
  unfolding price_metered
  component_in-metered k [] cs d = refl
  component_in-metered k ((o, q) ∷ is) cs d =
      let p = price rows now provider model o q in
      let added = component_in-assign k o q p cs in
      let rest = component_in-metered k is (if is_positive q then assign o q p cs else cs) d.1 in
      elim (Bool-cases (str_eq o k)) [
        | inr other ↦ ground (arith, added, rest, other)
        | inl same ↦
            let it : o ≡ k = ground (arith, eq_iff o k) in
            let later : first_charge k is ≡ none = rw (← it) (first_charge-other o is d.0) in
            ground (arith, added, rest, same, later)
      ]

  component_in-resources :
      (k : String) (is : List (String × Decimal)) (cs : List Component)
      → component_in k (price_resources rows now provider model is cs)
        ≡ elim (component_in k cs) [ some c ↦ some c | none ↦ first_charge k is ]
  unfolding price_resources
  component_in-resources k [] cs = ground arith
  component_in-resources k ((o, q) ∷ is) cs =
      let p = price rows now provider model o q in
      let added = component_in-assign k o q p cs in
      let next = if not (is_positive q) || has_component o cs then cs else assign o q p cs in
      let rest = component_in-resources k is next in
      elim (Bool-cases (str_eq o k)) [
        | inr other ↦ ground (arith, added, rest, other)
        | inl same ↦
            let it : o ≡ k = ground (arith, eq_iff o k) in
            let there : has_component o cs ≡ is_some (component_in k cs) = rw it refl in
            ground (arith, added, rest, same, there)
      ]

  component_in-both :
      (k : String) (is js : List (String × Decimal))
      → AreDistinct is
      → component_in k
          (price_resources rows now provider model js (price_metered rows now provider model is []))
        ≡ first_charge k (is ++ js)
  component_in-both k is js d =
      let metered_ones = component_in-metered k is [] d in
      let others = component_in-resources k js (price_metered rows now provider model is []) in
      ground (arith, metered_ones, others, first_charge-append k is js)

  -- An operation is charged once, and its component is that of the first item with a positive quantity
  -- and a rule that names it, the metered items before the other resources: a resource named like
  -- an operation that is charged is not charged. The amount is the sum of the components' customer
  -- costs, the provider cost that of their provider costs, and the amount is the provider cost and
  -- the markup.
  pub calculate-charges :
      (u : Usage)
      → let q = calculate rows now provider model u in
        IsUnique q.components
        × ((k : String)
            → lookup (λ c. c.operation) k q.components
              ≡ first_charge k (metered u ++ u.resource_components))
        × (q.amount ≡ sum_of (λ c. c.customer_cost) q.components)
        × (q.provider_cost ≡ sum_of (λ c. c.provider_cost) q.components)
        × (q.amount ≡ q.provider_cost +ℤ q.markup)
  unfolding calculate components_of
  calculate-charges u = (
    price_resources-IsUnique u.resource_components _ (price_metered-IsUnique (metered u) [] tt),
    λ k. component_in-both k (metered u) u.resource_components (metered-AreDistinct u),
    money-of_money _,
    money-of_money _,
    simp money-of_money (omega int_laws),
  )
