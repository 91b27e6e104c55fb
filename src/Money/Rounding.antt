-- ===== src/Money/Rounding.antt =====
-- What rounding away from zero to the money quantum promises.
use native.Mathlib.Nat.{pow-suc}
use zyntry_backend.Prelude.{ℕ, zero, suc, ◌+◌, ◌*◌, ◌≤◌, ◌<◌, ◌≡◌, ◌↔◌, arith}
use zyntry_backend.Prelude.Int.{ℤ, pos, negsuc, ◌+ℤ◌, ◌-ℤ◌, ◌*ℤ◌, ◌≤ℤ◌, ◌<ℤ◌}
use zyntry_backend.Money.{Decimal, tens, money_places, of_money, ceil_div, round_up, money}

ceil_div-le : (n d k : ℕ) → 0 < d → n ≤ k * d → ceil_div n d ≤ k
unfolding ceil_div
ceil_div-le n d k p h = grind arith

ceil_div-covers : (n d : ℕ) → 0 < d → n ≤ ceil_div n d * d
unfolding ceil_div
ceil_div-covers n d p = grind arith

ceil_div-tight : (n d : ℕ) → 0 < d → ceil_div n d * d < n + d
unfolding ceil_div
ceil_div-tight n d p = grind arith

tens-pos : (n : ℕ) → 0 < tens n
tens-pos zero = omega arith
tens-pos (suc n) = rw pow-suc (grind (arith, tens-pos n))

-- The multiple of the divisor that `round_up` stands for lies at or beyond the numerator, away from
-- zero, and by less than one divisor.
abbrev pub RoundsUp : ℤ → ℕ → ℤ → Type 0
RoundsUp (pos n) d r = (pos n ≤ℤ r *ℤ pos d) × (r *ℤ pos d <ℤ pos n +ℤ pos d)
RoundsUp (negsuc n) d r = (r *ℤ pos d ≤ℤ negsuc n) × (negsuc n -ℤ pos d <ℤ r *ℤ pos d)

round_up-RoundsUp : (c : ℤ) (d : ℕ) → 0 < d → RoundsUp c d (round_up c d)
unfolding round_up ◌*ℤ◌ ◌-ℤ◌ ◌+ℤ◌
round_up-RoundsUp (pos n) d p = ground (arith, ceil_div-covers n d p, ceil_div-tight n d p)
round_up-RoundsUp (negsuc n) d p =
    ground (arith, ceil_div-covers (suc n) d p, ceil_div-tight (suc n) d p)

-- Rounding to money never loses money and never adds a whole quantum: the result lies at or beyond
-- the exact value, away from zero, by less than one quantum, for every decimal of either sign.
pub money-RoundsUp :
    (d : Decimal) → RoundsUp (d.coefficient *ℤ pos (tens money_places)) (tens d.places) (money d)
unfolding money
money-RoundsUp d = round_up-RoundsUp _ (tens d.places) (tens-pos d.places)

-- Amounts of money are fixed points.
pub money-of_money : (n : ℤ) → money (of_money n) ≡ n
unfolding money round_up ceil_div ◌*ℤ◌ ◌-ℤ◌
money-of_money (pos n) = ground arith
money-of_money (negsuc n) = ground arith

ceil_div-pos_iff : (n d : ℕ) → 0 < d → (0 < ceil_div n d) ↔ (0 < n)
ceil_div-pos_iff n d p =
    (λ h. grind (arith, ceil_div-tight n d p), λ h. grind (arith, ceil_div-covers n d p))

round_up-pos_iff : (c : ℤ) (d : ℕ) → 0 < d → (pos 0 <ℤ round_up c d) ↔ (pos 0 <ℤ c)
unfolding round_up ◌-ℤ◌
round_up-pos_iff (pos n) d p = ground (arith, ceil_div-pos_iff n d p)
round_up-pos_iff (negsuc n) d p = ground arith

scaled_pos_iff : (c : ℤ) → (pos 0 <ℤ c *ℤ pos (tens money_places)) ↔ (pos 0 <ℤ c)
unfolding ◌*ℤ◌
scaled_pos_iff (pos n) = ground arith
scaled_pos_iff (negsuc n) = ground arith

-- A positive decimal is a positive amount of money, however small, and no other decimal is.
pub money-pos_iff : (d : Decimal) → (pos 0 <ℤ money d) ↔ (pos 0 <ℤ d.coefficient)
unfolding money
money-pos_iff d =
    let up = round_up-pos_iff (c *ℤ pos (tens money_places)) (tens p) (tens-pos p) in
    (λ h. (scaled_pos_iff c).0 (up.0 h), λ h. up.1 ((scaled_pos_iff c).1 h))
  where
    open d use {coefficient as c, places as p}
