-- ===== src/Prelude/Bits/Align.antt =====
-- A mask that clears the low digits rounds down to a multiple of a power of two.
use Prim.Native.Nat.{ℕ, zero, suc, ◌+◌, ◌-◌, ◌*◌, ◌/◌, ◌%◌, ◌^◌, ◌≤◌, ◌<◌, bit_and}
use mathlib.Core.Path.{◌≡◌, ap}
use native.Mathlib.Omega.{arith}
use native.Mathlib.Decide.{dec_lt}
use native.Mathlib.Nat.{pow-suc, one-le-pow, div-add-mod'}
use oslib.Prelude.Bits.{
  bit, bit-le-one, bit-bit_and, bit-low_mask, bit-complement, bit-shr, bit-shl, bit-shl_low,
  bits_ext, half-mod, bit_and-zero,
}
use oslib.Prelude.Bits.Step.{bit_and_step}
use oslib.Prelude.Bits.Bounds.{bit_and-le, pow-lt-pow}

bit-high : (j k a : ℕ) → a < 2 ^ k → k ≤ j → bit j a ≡ 0
bit-high zero zero a h le = omega arith
bit-high zero (suc k) a h le = absurd (omega arith)
bit-high (suc j) zero a h le = bit-high j 0 (a / 2) (omega arith) (omega arith)
bit-high (suc j) (suc k) a h le = bit-high j k (a / 2) (omega (arith, pow-suc 2 k)) (omega arith)

module _ (n k a : ℕ) (small : a < 2 ^ n) (le : k < n) where
  align_digit :
      (j : ℕ) → j < n → bit j (bit_and a (2 ^ n - 1 - (2 ^ k - 1))) ≡ bit j (a / 2 ^ k * 2 ^ k)
  align_digit j h =
      let low : 2 ^ k - 1 < 2 ^ n = omega (arith, pow-lt-pow k n le) in
      elim (dec_lt j k) [
        | yes p ↦ omega (
          arith,
          bit-bit_and j a (2 ^ n - 1 - (2 ^ k - 1)),
          bit-complement n j (2 ^ k - 1) low h,
          bit-low_mask j k p,
          bit-shl_low k j (a / 2 ^ k) p,
        )
        | no p ↦
            let d = j - k in
            let place : k + d ≡ j = omega arith in
            omega (
              arith,
              bit-bit_and j a (2 ^ n - 1 - (2 ^ k - 1)),
              bit-complement n j (2 ^ k - 1) low h,
              bit-high j k (2 ^ k - 1) (omega (arith, one-le-pow k 2)) (omega arith),
              bit-le-one j a,
              ap (λ (t : ℕ). bit t (a / 2 ^ k * 2 ^ k)) place,
              ap (λ (t : ℕ). bit t a) place,
              bit-shl k d (a / 2 ^ k),
              bit-shr k d a,
            )
      ]

  pub bit_and-align : bit_and a (2 ^ n - 1 - (2 ^ k - 1)) ≡ a / 2 ^ k * 2 ^ k
  bit_and-align =
      bits_ext n _ _ (omega (arith, bit_and-le a (2 ^ n - 1 - (2 ^ k - 1)), one-le-pow n 2))
        (omega (arith, div-add-mod' a (2 ^ k))) align_digit

-- A mask of the `n` low digits is the remainder by `2 ^ n`.
pub bit_and-mod : (n a : ℕ) → bit_and a (2 ^ n - 1) ≡ a % 2 ^ n
bit_and-mod zero a = omega (arith, bit_and-zero a)
bit_and-mod (suc n) a =
    let half : (2 ^ suc n - 1) / 2 ≡ 2 ^ n - 1 = omega (arith, pow-suc 2 n, one-le-pow n 2) in
    omega (
      arith,
      bit_and_step a (2 ^ suc n - 1),
      ap (bit_and (a / 2)) half,
      bit_and-mod n (a / 2),
      half-mod a n,
      pow-suc 2 n,
      one-le-pow n 2,
    )
