-- ===== src/Money.antt =====
-- Decimals and the money quantum (app/services/metered_billing.py, `MONEY_QUANTUM` and `money`).
-- A `Decimal` is an integer coefficient over a power of ten. Its arithmetic is exact: the values of
-- the program stay far below the 28 digits at which Python's context would round.
pub mod Rounding
mod Examples
use zyntry_backend.Prelude.{ℕ, suc, ◌+◌, ◌-◌, ◌*◌, ◌/◌, ◌^◌}
use zyntry_backend.Prelude.Int.{ℤ, pos, negsuc, ◌+ℤ◌, ◌-ℤ◌, ◌*ℤ◌}

-- The number `coefficient / 10 ^ places`.
pub record Decimal : Type 0 where
  pub coefficient : ℤ
  pub places : ℕ

abbrev pub tens : ℕ → ℕ
tens n = 10 ^ n

-- `MONEY_QUANTUM` is `Decimal("0.0001")`; amounts of money are integers of this quantum.
abbrev pub money_places : ℕ
money_places = 4

abbrev pub of_money : ℤ → Decimal
of_money n = record { coefficient = n; places = money_places }

abbrev pub of_int : ℤ → Decimal
of_int n = record { coefficient = n; places = 0 }

unfoldable pub mul : Decimal → Decimal → Decimal
mul a b = record { coefficient = a.coefficient *ℤ b.coefficient; places = a.places + b.places }

unfoldable pub add : Decimal → Decimal → Decimal
add a b = record {
  coefficient = a.coefficient *ℤ pos (tens b.places) +ℤ b.coefficient *ℤ pos (tens a.places);
  places = a.places + b.places;
}

unfoldable pub sub : Decimal → Decimal → Decimal
sub a b = record {
  coefficient = a.coefficient *ℤ pos (tens b.places) -ℤ b.coefficient *ℤ pos (tens a.places);
  places = a.places + b.places;
}

unfoldable pub ceil_div : ℕ → ℕ → ℕ
ceil_div n d = (n + d - 1) / d

-- `quantize(…, rounding=ROUND_UP)`: away from zero.
unfoldable pub round_up : ℤ → ℕ → ℤ
round_up (pos n) d = pos (ceil_div n d)
round_up (negsuc n) d = pos 0 -ℤ pos (ceil_div (suc n) d)

unfoldable pub money : Decimal → ℤ
money d = round_up (d.coefficient *ℤ pos (tens money_places)) (tens d.places)
