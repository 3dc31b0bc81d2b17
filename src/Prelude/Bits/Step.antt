-- ===== src/Prelude/Bits/Step.antt =====
-- One digit of the native bitwise operations, from the digit recursion that they stand for.
use Prim.Native.Nat.{
  ℕ, zero, suc, ◌+◌, ◌*◌, ◌/◌, ◌%◌, ◌≤◌, ◌<◌, min, max, digits, bitwise, differ, bit_and, bit_or,
  bit_xor, bit_and-bitwise, bit_or-bitwise, bit_xor-bitwise,
}
use mathlib.Core.Path.{◌≡◌, refl}
use native.Mathlib.Omega.{arith}

module _ (z : ℕ → ℕ) (f : ℕ → ℕ → ℕ) where
  -- The amount of fuel makes no difference, as long as it is enough.
  one_result :
      (y x spent given : ℕ) → y ≤ given → y ≤ spent → digits z f spent y x ≡ digits z f given y x
  one_result (suc y) x zero given more enough = absurd (omega arith)
  one_result (suc y) x (suc spent) zero more enough = absurd (omega arith)
  one_result (suc y) x (suc spent) (suc given) more enough =
      let half : suc y / 2 ≤ spent = omega arith in
      let half' : suc y / 2 ≤ given = omega arith in
      omega (arith, one_result (suc y / 2) (x / 2) spent given half' half)
  one_result zero x zero zero more enough = refl
  one_result zero x (suc spent) (suc given) more enough = refl
  one_result zero x zero (suc given) more enough = refl
  one_result zero x (suc spent) zero more enough = refl

  lowest_digit :
      (y x : ℕ)
      → bitwise z f (suc y) x ≡ f (suc y % 2) (x % 2) + 2 * bitwise z f (suc y / 2) (x / 2)
  lowest_digit y x =
      let half : suc y / 2 ≤ y = omega arith in
      let same : suc y / 2 ≤ suc y / 2 = omega arith in
      omega (arith, one_result (suc y / 2) (x / 2) y (suc y / 2) same half)

differ-eq-mod : (x y : ℕ) → x < 2 → y < 2 → differ x y ≡ (x + y) % 2
differ-eq-mod zero y p q = omega arith
differ-eq-mod (suc zero) zero p q = refl
differ-eq-mod (suc zero) (suc zero) p q = refl
differ-eq-mod (suc zero) (suc (suc y)) p q = absurd (omega arith)
differ-eq-mod (suc (suc x)) y p q = absurd (omega arith)

pub bit_or_step : (x y : ℕ) → bit_or x y ≡ max (x % 2) (y % 2) + 2 * bit_or (x / 2) (y / 2)
bit_or_step (suc x) y = simp bit_or-bitwise (omega (arith, lowest_digit (λ i. i) max x y))
bit_or_step zero y = simp bit_or-bitwise (omega arith)

pub bit_xor_step : (x y : ℕ) → bit_xor x y ≡ (x % 2 + y % 2) % 2 + 2 * bit_xor (x / 2) (y / 2)
bit_xor_step (suc x) y = simp bit_xor-bitwise (
    omega (
      arith,
      lowest_digit (λ i. i) differ x y,
      differ-eq-mod (suc x % 2) (y % 2) (omega arith) (omega arith),
    ))
bit_xor_step zero y = simp bit_xor-bitwise (omega arith)

pub bit_and_step : (x y : ℕ) → bit_and x y ≡ min (x % 2) (y % 2) + 2 * bit_and (x / 2) (y / 2)
bit_and_step (suc x) y = simp bit_and-bitwise (omega (arith, lowest_digit (λ i. 0) min x y))
bit_and_step zero y = simp bit_and-bitwise (omega arith)
