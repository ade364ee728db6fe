-- ===== src/Interpreter/Functions/Ints.antt =====
-- The operations on i64 that the built-in functions use, before they wrap.
use mangle_rs.Prelude.{
  ℕ, zero, suc, ◌+◌, ◌-◌, ◌*◌, ◌/◌, ◌%◌, nat_eq, list_eq, pair_eq, ℤ, pos_part, neg_part, sub_ℕ,
  int_eq,
}
use mangle_rs.Prelude.{pos, negsuc}

unfoldable pub neg_ℤ : ℤ → ℤ
neg_ℤ (pos zero) = pos zero
neg_ℤ (pos (suc n)) = negsuc n
neg_ℤ (negsuc n) = pos (suc n)

infixl 65 ◌-ℤ◌
unfoldable pub ◌-ℤ◌ : ℤ → ℤ → ℤ
a -ℤ b = sub_ℕ (pos_part a + neg_part b) (pos_part b + neg_part a)

infixl 70 ◌*ℤ◌
unfoldable pub ◌*ℤ◌ : ℤ → ℤ → ℤ
unfolding neg_ℤ
pos m *ℤ pos n = pos (m * n)
pos m *ℤ negsuc n = neg_ℤ (pos (m * suc n))
negsuc m *ℤ pos n = neg_ℤ (pos (suc m * n))
negsuc m *ℤ negsuc n = pos (suc m * suc n)

-- `/`, which rounds towards zero; the divisor is not zero
infixl 70 ◌/ℤ◌
unfoldable pub ◌/ℤ◌ : ℤ → ℤ → ℤ
unfolding neg_ℤ
pos m /ℤ pos n = pos (m / n)
pos m /ℤ negsuc n = neg_ℤ (pos (m / suc n))
negsuc m /ℤ pos n = neg_ℤ (pos (suc m / n))
negsuc m /ℤ negsuc n = pos (suc m / suc n)

-- `div_euclid` and `rem_euclid` by a positive divisor
unfoldable pub div_euclid : ℤ → ℕ → ℤ
div_euclid (pos n) d = pos (n / d)
div_euclid (negsuc n) d = negsuc (n / d)

unfoldable pub rem_euclid : ℤ → ℕ → ℕ
rem_euclid (pos n) d = n % d
rem_euclid (negsuc n) d = d - 1 - n % d
