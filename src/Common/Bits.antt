-- ===== src/Common/Bits.antt =====
-- `bit_or` of a multiple of 32 and a number below 32, by five digits.
use Prim.Native.Nat.{
  ℕ, zero, suc, ◌+◌, ◌*◌, ◌/◌, ◌%◌, ◌≤◌, ◌<◌, max, bit_or, digits, bit_or-bitwise,
}
use mathlib.Core.Path.{◌≡◌, refl, ◌∙◌, ap}
use native.Mathlib.Omega.{arith}

abbrev or_digits : ℕ → ℕ → ℕ → ℕ
or_digits n a b = digits (λ y. y) max n a b

-- More fuel than digits changes nothing.
or_digits-eq : (n m a b : ℕ) → a ≤ n → a ≤ m → or_digits n a b ≡ or_digits m a b
or_digits-eq zero zero a b p q = refl
or_digits-eq zero (suc m) zero b p q = refl
or_digits-eq zero (suc m) (suc a) b p q = absurd (omega arith)
or_digits-eq (suc n) zero zero b p q = refl
or_digits-eq (suc n) zero (suc a) b p q = absurd (omega arith)
or_digits-eq (suc n) (suc m) zero b p q = refl
or_digits-eq (suc n) (suc m) (suc a) b p q =
    omega (arith, or_digits-eq n m (suc a / 2) (b / 2) (omega arith) (omega arith))

zero-bit_or : (b : ℕ) → bit_or 0 b ≡ b
zero-bit_or b = bit_or-bitwise 0 b

or_lowest : (a b : ℕ) → bit_or a b ≡ bit_or (a / 2) (b / 2) * 2 + max (a % 2) (b % 2)
or_lowest zero b = omega (arith, zero-bit_or b, zero-bit_or (b / 2))
or_lowest (suc a) b = omega (
  arith,
  bit_or-bitwise (suc a) b,
  bit_or-bitwise (suc a / 2) (b / 2),
  or_digits-eq a (suc a / 2) (suc a / 2) (b / 2) (omega arith) (omega arith),
)

or-zero_fuel : (n a : ℕ) → a ≤ n → bit_or a 0 ≡ a
or-zero_fuel n zero h = refl
or-zero_fuel zero (suc a) h = absurd (omega arith)
or-zero_fuel (suc n) (suc a) h =
    omega (arith, or_lowest (suc a) 0, or-zero_fuel n (suc a / 2) (omega arith))

-- One digit of a number whose digits end in 0.
or_shift : (q r : ℕ) → bit_or (q * 2) r ≡ bit_or q (r / 2) * 2 + r % 2
or_shift q r = or_lowest (q * 2) r ∙ (let e : q * 2 / 2 ≡ q = omega arith in rw e (omega arith))

pub or_fields : (q r : ℕ) → r < 32 → bit_or (q * 32) r ≡ q * 32 + r
or_fields q r h =
    let e : q * 32 ≡ q * 2 * 2 * 2 * 2 * 2 = omega arith in
    rw e (
      omega (
        arith,
        or_shift (q * 2 * 2 * 2 * 2) r,
        or_shift (q * 2 * 2 * 2) (r / 2),
        or_shift (q * 2 * 2) (r / 2 / 2),
        or_shift (q * 2) (r / 2 / 2 / 2),
        or_shift q (r / 2 / 2 / 2 / 2),
        ap (bit_or q) (zero_of h),
        or-zero_fuel q q (omega arith),
      ))
  where
    zero_of : r < 32 → r / 2 / 2 / 2 / 2 / 2 ≡ 0
    zero_of h = omega arith
