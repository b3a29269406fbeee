-- ===== src/Base/Bits.antt =====
-- When a bitwise or, and an exclusive or, of two numbers is zero.
use Prim.Native.Nat.{
  ℕ, zero, suc, ◌+◌, ◌*◌, ◌/◌, ◌%◌, ◌≤◌, max, digits, bitwise, differ, bit_or, bit_xor,
  bit_or-bitwise, bit_xor-bitwise,
}
use mathlib.Core.Path.{◌≡◌, refl}
use mathlib.Core.Logic.{◌↔◌}
use native.Mathlib.Nat.{le_refl}
use native.Mathlib.Omega.{arith}

module _ (f : ℕ → ℕ → ℕ) where
  or_digits : ℕ → ℕ → ℕ → ℕ
  or_digits n a b = digits (λ y. y) f n a b

  -- The fuel does not matter once it covers the first number.
  or_digits_fuel : (n m a b : ℕ) → a ≤ n → a ≤ m → or_digits n a b ≡ or_digits m a b
  unfolding or_digits
  or_digits_fuel zero zero a b p q = refl
  or_digits_fuel zero (suc m) zero b p q = refl
  or_digits_fuel zero (suc m) (suc a) b p q = absurd (omega arith)
  or_digits_fuel (suc n) zero zero b p q = refl
  or_digits_fuel (suc n) zero (suc a) b p q = absurd (omega arith)
  or_digits_fuel (suc n) (suc m) zero b p q = refl
  or_digits_fuel (suc n) (suc m) (suc a) b p q =
      rw (or_digits_fuel n m (suc a / 2) (b / 2) (omega arith) (omega arith))

  lowest_digit :
      (a b : ℕ)
      → bitwise (λ y. y) f (suc a) b
        ≡ bitwise (λ y. y) f (suc a / 2) (b / 2) * 2 + f (suc a % 2) (b % 2)
  unfolding or_digits
  lowest_digit a b =
      omega (arith, or_digits_fuel a (suc a / 2) (suc a / 2) (b / 2) (omega arith) (le_refl _))

or_step : (a b : ℕ) → bit_or (suc a) b ≡ bit_or (suc a / 2) (b / 2) * 2 + max (suc a % 2) (b % 2)
or_step a b = simp bit_or-bitwise (lowest_digit max a b)

xor_step :
    (a b : ℕ) → bit_xor (suc a) b ≡ bit_xor (suc a / 2) (b / 2) * 2 + differ (suc a % 2) (b % 2)
xor_step a b = simp bit_xor-bitwise (lowest_digit differ a b)

or_fuel : (n a b : ℕ) → a ≤ n → bit_or a b ≡ 0 → (a ≡ 0) × (b ≡ 0)
or_fuel n zero b h e = (refl, omega (arith, bit_or-bitwise 0 b))
or_fuel zero (suc a) b h e = absurd (omega arith)
or_fuel (suc n) (suc a) b h e =
    let r = or_fuel n (suc a / 2) (b / 2) (omega arith) (omega (arith, or_step a b)) in
    absurd (omega (arith, or_step a b, r.0))

pub bit_or-eq-zero_iff : (a b : ℕ) → (bit_or a b ≡ 0) ↔ ((a ≡ 0) × (b ≡ 0))
bit_or-eq-zero_iff a b = (or_fuel a a b (le_refl a), λ h. rw (h.0, h.1))

differ_zero : (x y : ℕ) → differ x y ≡ 0 → x ≡ y
differ_zero zero y e = omega arith
differ_zero (suc x) zero e = omega arith
differ_zero (suc x) (suc y) e = omega (arith, differ_zero x y e)

differ_self : (x : ℕ) → differ x x ≡ 0
differ_self zero = refl
differ_self (suc x) = differ_self x

xor_fuel : (n a b : ℕ) → a ≤ n → bit_xor a b ≡ 0 → a ≡ b
xor_fuel n zero b h e = omega (arith, bit_xor-bitwise 0 b)
xor_fuel zero (suc a) b h e = absurd (omega arith)
xor_fuel (suc n) (suc a) b h e =
    let r = xor_fuel n (suc a / 2) (b / 2) (omega arith) (omega (arith, xor_step a b)) in
    let d = differ_zero (suc a % 2) (b % 2) (omega (arith, xor_step a b)) in omega (arith, r, d)

xor_self : (n a : ℕ) → a ≤ n → bit_xor a a ≡ 0
xor_self n zero h = refl
xor_self zero (suc a) h = absurd (omega arith)
xor_self (suc n) (suc a) h =
    omega (arith, xor_step a (suc a), xor_self n (suc a / 2) (omega arith), differ_self (suc a % 2))

pub bit_xor-eq-zero_iff : (a b : ℕ) → (bit_xor a b ≡ 0) ↔ (a ≡ b)
bit_xor-eq-zero_iff a b = (xor_fuel a a b (le_refl a), λ e. rw e (xor_self b b (le_refl b)))
