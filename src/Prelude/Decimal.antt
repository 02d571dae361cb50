-- ===== src/Prelude/Decimal.antt =====
-- JavaScript numbers that stand for money, energy and power: exact decimals in millionths. A double
-- at a rounding tie may lie to either side of it; a decimal here is the tie itself.
use Prim.Native.Nat.{ℕ, suc, ◌+◌, ◌*◌, ◌/◌}
use mathlib.Core.Path.{◌≡◌}
use native.Mathlib.Omega.{arith}
use volt_hub_csms.Prelude.Int.{ℤ, pos, negsuc, sub_ℕ, ◌+ℤ◌, ◌-ℤ◌, ◌*ℤ◌, ◌≤ℤ◌, int_laws, +ℤ_parts}

abbrev pub Decimal : Type 0
Decimal = ℤ

-- A whole number, and a number of hundredths and thousandths.
abbrev pub whole : ℕ → Decimal
whole n = pos (n * 1000000)

abbrev pub hundredths : ℕ → Decimal
hundredths n = pos (n * 10000)

abbrev pub thousandths : ℕ → Decimal
thousandths n = pos (n * 1000)

-- The multiple of `unit` nearest to a magnitude, the larger of two.
abbrev pub round_to : ℕ → ℕ → ℕ
round_to unit n = (n + unit / 2) / unit * unit

-- `+x.toFixed(2)`, `+x.toFixed(3)`, `+x.toFixed(4)`: the sign is kept and the magnitude rounded.
unfoldable pub to_fixed2 : Decimal → Decimal
to_fixed2 (pos n) = pos (round_to 10000 n)
to_fixed2 (negsuc n) = sub_ℕ 0 (round_to 10000 (suc n))

unfoldable pub to_fixed3 : Decimal → Decimal
to_fixed3 (pos n) = pos (round_to 1000 n)
to_fixed3 (negsuc n) = sub_ℕ 0 (round_to 1000 (suc n))

unfoldable pub to_fixed4 : Decimal → Decimal
to_fixed4 (pos n) = pos (round_to 100 n)
to_fixed4 (negsuc n) = sub_ℕ 0 (round_to 100 (suc n))

-- `+(a * b).toFixed(2)`: the product has twelve decimals before it is rounded to two.
abbrev scale_fixed2 : ℤ → Decimal
scale_fixed2 (pos n) = pos ((n + 5000000000) / 10000000000 * 10000)
scale_fixed2 (negsuc n) = sub_ℕ 0 ((suc n + 5000000000) / 10000000000 * 10000)

unfoldable pub mul_fixed2 : Decimal → Decimal → Decimal
unfolding ◌*ℤ◌
mul_fixed2 a b = scale_fixed2 (a *ℤ b)

-- A quotient by a whole number, to the millionth next to zero.
abbrev pub div_whole : Decimal → ℕ → Decimal
div_whole (pos n) k = pos (n / k)
div_whole (negsuc n) k = sub_ℕ 0 (suc n / k)

-- A whole number of hundredths.
abbrev pub IsCents : Decimal → Type 0
IsCents a = to_fixed2 a ≡ a

-- Rounding moves a number by at most half a hundredth.
pub to_fixed2_nearest :
    (a : Decimal) → (to_fixed2 a ≤ℤ a +ℤ pos 5000) × (a ≤ℤ to_fixed2 a +ℤ pos 5000)
unfolding to_fixed2
to_fixed2_nearest (pos n) = omega int_laws
to_fixed2_nearest (negsuc n) =
    ground (
      arith,
      +ℤ_parts (negsuc n) (pos 5000),
      +ℤ_parts (sub_ℕ 0 (round_to 10000 (suc n))) (pos 5000),
    )

pub to_fixed2_idem : (a : Decimal) → IsCents (to_fixed2 a)
unfolding to_fixed2
to_fixed2_idem (pos n) = ground arith
to_fixed2_idem (negsuc n) = ground arith

pub to_fixed2_nonneg : (a : Decimal) → pos 0 ≤ℤ a → pos 0 ≤ℤ to_fixed2 a
unfolding to_fixed2
to_fixed2_nonneg (pos n) h = ground arith
to_fixed2_nonneg (negsuc n) h = ground arith

pub IsCents-add : (a b : Decimal) → IsCents a → IsCents b → IsCents (a +ℤ b)
unfolding to_fixed2 ◌+ℤ◌
IsCents-add (pos a) (pos b) h k = ground arith
IsCents-add (pos a) (negsuc b) h k = ground arith
IsCents-add (negsuc a) (pos b) h k = ground arith
IsCents-add (negsuc a) (negsuc b) h k = ground arith

pub IsCents-sub : (a b : Decimal) → IsCents a → IsCents b → IsCents (a -ℤ b)
unfolding to_fixed2 ◌-ℤ◌
IsCents-sub (pos a) (pos b) h k = ground arith
IsCents-sub (pos a) (negsuc b) h k = ground arith
IsCents-sub (negsuc a) (pos b) h k = ground arith
IsCents-sub (negsuc a) (negsuc b) h k = ground arith

pub mul_fixed2-IsCents : (a b : Decimal) → IsCents (mul_fixed2 a b)
unfolding mul_fixed2 ◌*ℤ◌
mul_fixed2-IsCents a b = scaled (a *ℤ b)
  where
    scaled : (c : ℤ) → IsCents (scale_fixed2 c)
    scaled (pos n) = unfold to_fixed2 in (ground arith)
    scaled (negsuc n) = unfold to_fixed2 in (ground arith)

pub mul_fixed2_nonneg : (a b : Decimal) → pos 0 ≤ℤ a → pos 0 ≤ℤ b → pos 0 ≤ℤ mul_fixed2 a b
unfolding mul_fixed2 ◌*ℤ◌
mul_fixed2_nonneg (pos a) (pos b) h k = ground arith
mul_fixed2_nonneg (pos a) (negsuc b) h k = absurd (omega arith)
mul_fixed2_nonneg (negsuc a) b h k = absurd (omega arith)
