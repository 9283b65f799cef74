-- ===== src/Base/Int/Laws.antt =====
-- Laws of the sums of integers.
use mathlib.Core.Path.{◌≡◌}
use native.Mathlib.Omega.{arith}
use easy_docket.Base.Int.{ℤ, pos, ◌+ℤ◌, neg, +ℤ_parts, eq_of_parts}

pub plus_zero : (x : ℤ) → x +ℤ pos 0 ≡ x
plus_zero x = eq_of_parts _ _ (ground (arith, +ℤ_parts x (pos 0)))

pub zero_plus : (x : ℤ) → pos 0 +ℤ x ≡ x
zero_plus x = eq_of_parts _ _ (ground (arith, +ℤ_parts (pos 0) x))

pub swap_sums : (a b c d : ℤ) → (a +ℤ b) +ℤ (c +ℤ d) ≡ (a +ℤ c) +ℤ (b +ℤ d)
swap_sums a b c d = eq_of_parts _ _ (
    omega (
      arith,
      +ℤ_parts a b,
      +ℤ_parts c d,
      +ℤ_parts a c,
      +ℤ_parts b d,
      +ℤ_parts (a +ℤ b) (c +ℤ d),
      +ℤ_parts (a +ℤ c) (b +ℤ d),
    ))

pub neg_plus : (x : ℤ) → neg x +ℤ x ≡ pos 0
neg_plus x = eq_of_parts _ _ (ground (arith, +ℤ_parts (neg x) x))

pub plus_assoc : (a b c : ℤ) → (a +ℤ b) +ℤ c ≡ a +ℤ (b +ℤ c)
plus_assoc a b c =
    eq_of_parts _ _
      (omega (arith, +ℤ_parts a b, +ℤ_parts b c, +ℤ_parts (a +ℤ b) c, +ℤ_parts a (b +ℤ c)))

pub plus_comm : (a b : ℤ) → a +ℤ b ≡ b +ℤ a
plus_comm a b = eq_of_parts _ _ (omega (arith, +ℤ_parts a b, +ℤ_parts b a))
