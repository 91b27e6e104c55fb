-- ===== src/Pricing/Examples.antt =====
-- A quote from one rule.
use zyntry_backend.Prelude.{String, ◌≡◌, none, [], ◌∷◌, ◌++◌}
use zyntry_backend.Tables.{lookup}
use zyntry_backend.Prelude.Int.{pos, ◌+ℤ◌, sum_of}
use zyntry_backend.Samples.{rule_row}
use zyntry_backend.Pricing.{Usage, Quote, calculate, metered}
use zyntry_backend.Pricing.Quotes.{IsUnique, first_charge, calculate-charges}

abbrev usage : Usage
usage = record {
  input_tokens = pos 1200;
  output_tokens = pos 0;
  cached_tokens = pos 0;
  embedding_tokens = pos 0;
  vector_searches = pos 0;
  reranks = pos 0;
  storage_bytes = pos 0;
  requests = pos 1;
  resource_components = ("input_tokens", record { coefficient = pos 9; places = 0 }) ∷ [];
}

abbrev quote : Quote
quote = calculate (rule_row ∷ []) 10 "openai" none usage

calculate-charges_example :
    IsUnique quote.components
    × ((k : String)
        → lookup (λ c. c.operation) k quote.components
          ≡ first_charge
              (rule_row ∷ [])
              10
              "openai"
              none
              k
              (metered usage ++ usage.resource_components))
    × (quote.amount ≡ sum_of (λ c. c.customer_cost) quote.components)
    × (quote.provider_cost ≡ sum_of (λ c. c.provider_cost) quote.components)
    × (quote.amount ≡ quote.provider_cost +ℤ quote.markup)
calculate-charges_example = calculate-charges (rule_row ∷ []) 10 "openai" none usage
