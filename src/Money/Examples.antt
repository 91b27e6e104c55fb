-- ===== src/Money/Examples.antt =====
-- Rounding of concrete decimals.
use zyntry_backend.Prelude.Int.{pos, ◌*ℤ◌}
use zyntry_backend.Money.{Decimal, money, tens, money_places}
use zyntry_backend.Money.Rounding.{RoundsUp, money-RoundsUp}

abbrev tiny : Decimal
tiny = record { coefficient = pos 1; places = 9 }

money-RoundsUp_example : RoundsUp (pos 1 *ℤ pos (tens money_places)) (tens 9) (money tiny)
money-RoundsUp_example = money-RoundsUp tiny
