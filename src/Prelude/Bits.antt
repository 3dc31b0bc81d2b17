-- ===== src/Prelude/Bits.antt =====
-- Binary digits of native numbers, and what the bitwise operations do to them.
mod Step
pub mod Bounds
pub mod Align
pub mod Flags
use Step.{bit_or_step, bit_and_step, bit_xor_step}
use Prim.Native.Nat.{
  ℕ, zero, suc, ◌+◌, ◌-◌, ◌*◌, ◌/◌, ◌%◌, ◌^◌, ◌≤◌, ◌<◌, min, max, bit_and, bit_or, bit_xor,
}
use mathlib.Core.Path.{◌≡◌, refl, sym, ap, ◌∙◌}
use native.Mathlib.Omega.{arith}
use native.Mathlib.Decide.{ℕ_discrete}
use native.Mathlib.Nat.{
  pow-suc, pow-succ', one-le-pow, div-div-eq-div-mul, suc-add, add-mul-mod_self_left, mod-eq_of_lt,
  div-add-mod,
}
use oslib.Prelude.Tests.{◌==◌, ltb, if◌then◌else◌}

-- Digit `j` of `a`.
abbrev pub bit : ℕ → ℕ → ℕ
bit zero a = a % 2
bit (suc j) a = bit j (a / 2)

pub bit-le-one : (j a : ℕ) → bit j a ≤ 1
bit-le-one zero a = omega arith
bit-le-one (suc j) a = bit-le-one j (a / 2)

pub bit-zero : (j : ℕ) → bit j 0 ≡ 0
bit-zero zero = refl
bit-zero (suc j) = bit-zero j

pub bit-bit_or : (j a b : ℕ) → bit j (bit_or a b) ≡ max (bit j a) (bit j b)
bit-bit_or zero a b = omega (arith, bit_or_step a b)
bit-bit_or (suc j) a b = ap (bit j) (omega (arith, bit_or_step a b)) ∙ bit-bit_or j (a / 2) (b / 2)

pub bit-bit_and : (j a b : ℕ) → bit j (bit_and a b) ≡ min (bit j a) (bit j b)
bit-bit_and zero a b = omega (arith, bit_and_step a b)
bit-bit_and (suc j) a b =
    ap (bit j) (omega (arith, bit_and_step a b)) ∙ bit-bit_and j (a / 2) (b / 2)

pub bit-bit_xor : (j a b : ℕ) → bit j (bit_xor a b) ≡ (bit j a + bit j b) % 2
bit-bit_xor zero a b = omega (arith, bit_xor_step a b)
bit-bit_xor (suc j) a b =
    ap (bit j) (omega (arith, bit_xor_step a b)) ∙ bit-bit_xor j (a / 2) (b / 2)

half-mul-pow : (a k : ℕ) → a * 2 ^ suc k / 2 ≡ a * 2 ^ k
half-mul-pow a k = omega (arith, ap (λ (t : ℕ). a * t) (pow-suc 2 k))

pub bit-pow : (j k : ℕ) → bit j (2 ^ k) ≡ (if j == k then 1 else 0)
bit-pow zero zero = refl
bit-pow zero (suc k) = ground (arith, pow-suc 2 k)
bit-pow (suc j) zero = bit-zero j ∙ ground arith
bit-pow (suc j) (suc k) = ap (bit j) (omega (arith, pow-suc 2 k)) ∙ bit-pow j k ∙ ground arith

pub bit-low_mask : (j n : ℕ) → j < n → bit j (2 ^ n - 1) ≡ 1
bit-low_mask j zero h = absurd (omega arith)
bit-low_mask zero (suc n) h = omega (arith, pow-suc 2 n, one-le-pow n 2)
bit-low_mask (suc j) (suc n) h =
    ap (bit j) (omega (arith, pow-suc 2 n, one-le-pow n 2)) ∙ bit-low_mask j n (omega arith)

pub bit-complement : (n j a : ℕ) → a < 2 ^ n → j < n → bit j (2 ^ n - 1 - a) ≡ 1 - bit j a
bit-complement zero j a h p = absurd (omega arith)
bit-complement (suc n) zero a h p = omega (arith, pow-suc 2 n)
bit-complement (suc n) (suc j) a h p =
    ap (bit j) (omega (arith, pow-suc 2 n))
    ∙ bit-complement n j (a / 2) (omega (arith, pow-suc 2 n)) (omega arith)

pub bit-shr : (k j a : ℕ) → bit j (a / 2 ^ k) ≡ bit (k + j) a
bit-shr zero j a =
    let e : 0 + j ≡ j = omega arith in let f : a / 2 ^ 0 ≡ a = omega arith in rw (e, f)
bit-shr (suc k) j a =
    ap (bit j) (ap (λ (t : ℕ). a / t) (pow-succ' 2 k) ∙ sym (div-div-eq-div-mul a 2 (2 ^ k)))
    ∙ bit-shr k j (a / 2)
    ∙ ap (λ (t : ℕ). bit t a) (sym (suc-add k j))

pub bit-shl_low : (k j a : ℕ) → j < k → bit j (a * 2 ^ k) ≡ 0
bit-shl_low zero j a h = absurd (omega arith)
bit-shl_low (suc k) zero a h = omega (arith, ap (λ (t : ℕ). a * t) (pow-suc 2 k))
bit-shl_low (suc k) (suc j) a h = ap (bit j) (half-mul-pow a k) ∙ bit-shl_low k j a (omega arith)

pub bit-shl : (k j a : ℕ) → bit (k + j) (a * 2 ^ k) ≡ bit j a
bit-shl zero j a =
    let e : 0 + j ≡ j = omega arith in let f : a * 2 ^ 0 ≡ a = omega arith in rw (e, f)
bit-shl (suc k) j a =
    ap (λ (t : ℕ). bit t (a * 2 ^ suc k)) (suc-add k j)
    ∙ ap (bit (k + j)) (half-mul-pow a k)
    ∙ bit-shl k j a

mod-pow-suc :
    (a m r q : ℕ) → a ≡ 2 * (m * q) + r → r < 2 * m → (r % 2 ≡ a % 2) × (r / 2 ≡ a / 2 % m)
mod-pow-suc a m r q e l =
    let half : a / 2 ≡ r / 2 + m * q = omega arith in
    (omega arith, rw (half, add-mul-mod_self_left) (sym (mod-eq_of_lt (omega arith))))

half-mod : (a n : ℕ) → (a % 2 ^ suc n % 2 ≡ a % 2) × (a % 2 ^ suc n / 2 ≡ a / 2 % 2 ^ n)
half-mod a n =
    mod-pow-suc a (2 ^ n) (a % 2 ^ suc n) (a / 2 ^ suc n)
      (omega
        (arith, div-add-mod a (2 ^ suc n), ap (λ (t : ℕ). t * (a / 2 ^ suc n)) (pow-succ' 2 n)))
      (omega (arith, pow-suc 2 n, one-le-pow n 2))

pub bit-mod : (n j a : ℕ) → j < n → bit j (a % 2 ^ n) ≡ bit j a
bit-mod zero j a h = absurd (omega arith)
bit-mod (suc n) zero a h = (half-mod a n).0
bit-mod (suc n) (suc j) a h = ap (bit j) (half-mod a n).1 ∙ bit-mod n j (a / 2) (omega arith)

-- Two numbers of `n` digits with the same digits are equal.
pub bits_ext : (n a b : ℕ) → a < 2 ^ n → b < 2 ^ n → ((j : ℕ) → j < n → bit j a ≡ bit j b) → a ≡ b
bits_ext zero a b p q h = omega arith
bits_ext (suc n) a b p q h =
    let halves : a / 2 ≡ b / 2 =
      bits_ext n (a / 2) (b / 2) (omega (arith, pow-suc 2 n)) (omega (arith, pow-suc 2 n))
        (λ j l. h (suc j) (omega arith)) in
    omega (arith, h 0 (omega arith))

bit_and-zero_below : (n a : ℕ) → a ≤ n → bit_and a 0 ≡ 0
bit_and-zero_below n zero h = refl
bit_and-zero_below zero (suc a) h = absurd (omega arith)
bit_and-zero_below (suc n) (suc a) h =
    omega (arith, bit_and_step (suc a) 0, bit_and-zero_below n (suc a / 2) (omega arith))

pub bit_and-zero : (a : ℕ) → bit_and a 0 ≡ 0
bit_and-zero a = bit_and-zero_below a a (omega arith)

-- A mask of one digit.
pub bit_and-pow : (k a : ℕ) → bit_and a (2 ^ k) ≡ bit k a * 2 ^ k
bit_and-pow zero a = omega (arith, bit_and_step a 1, bit_and-zero (a / 2))
bit_and-pow (suc k) a =
    let half : 2 ^ suc k / 2 ≡ 2 ^ k = omega (arith, pow-suc 2 k) in
    omega (
      arith,
      bit_and_step a (2 ^ suc k),
      ap (bit_and (a / 2)) half,
      bit_and-pow k (a / 2),
      pow-suc 2 k,
      ap (λ (t : ℕ). bit k (a / 2) * t) (pow-suc 2 k),
    )

le-bit_or_below : (n a b : ℕ) → b ≤ n → b ≤ bit_or a b
le-bit_or_below n a zero h = omega arith
le-bit_or_below zero a (suc b) h = absurd (omega arith)
le-bit_or_below (suc n) a (suc b) h =
    omega (arith, bit_or_step a (suc b), le-bit_or_below n (a / 2) (suc b / 2) (omega arith))

pub le-bit_or : (a b : ℕ) → b ≤ bit_or a b
le-bit_or a b = le-bit_or_below b a b (omega arith)

-- A test of one digit by its mask.
pub bit_and_test : (k a : ℕ) → (bit_and a (2 ^ k) == 0) ≡ (bit k a == 0)
bit_and_test k a = elim (ℕ_discrete (bit k a) 0) [
  | yes e ↦ ground (arith, bit_and-pow k a, ap (λ (t : ℕ). t * 2 ^ k) e)
  | no ne ↦
      let one : bit k a ≡ 1 = omega (arith, bit-le-one k a) in
      ground (arith, bit_and-pow k a, ap (λ (t : ℕ). t * 2 ^ k) one, one-le-pow k 2)
]
