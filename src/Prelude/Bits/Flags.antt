-- ===== src/Prelude/Bits/Flags.antt =====
-- Flags in the low digits of an address.
use oslib.Prelude.Bits.Step.{bit_or_step}
use Prim.Native.Nat.{ℕ, zero, suc, ◌+◌, ◌*◌, ◌/◌, ◌^◌, ◌≤◌, ◌<◌, bit_or}
use mathlib.Core.Path.{◌≡◌, refl, ap, ◌∙◌}
use native.Mathlib.Omega.{arith}
use native.Mathlib.Nat.{pow-suc}

bit_or-zero_below : (n a : ℕ) → a ≤ n → bit_or a 0 ≡ a
bit_or-zero_below n zero h = refl
bit_or-zero_below zero (suc a) h = absurd (omega arith)
bit_or-zero_below (suc n) (suc a) h =
    omega (arith, bit_or_step (suc a) 0, bit_or-zero_below n (suc a / 2) (omega arith))

-- Flags below the lowest digit of an address are added to it.
pub bit_or-flags : (k q b : ℕ) → b < 2 ^ k → bit_or (q * 2 ^ k) b ≡ q * 2 ^ k + b
bit_or-flags zero q b h =
    let none_left : b ≡ 0 = omega (arith, h) in
    ap (bit_or (q * 1)) none_left
    ∙ bit_or-zero_below (q * 1) (q * 1) (omega arith)
    ∙ omega (arith, none_left)
bit_or-flags (suc k) q b h =
    let double : q * 2 ^ suc k ≡ 2 * (q * 2 ^ k) = ap (λ t. q * t) (pow-suc 2 k) ∙ grind arith in
    let half : q * 2 ^ suc k / 2 ≡ q * 2 ^ k = omega (arith, double) in
    let rest = bit_or-flags k q (b / 2) (omega (arith, h, pow-suc 2 k)) in
    omega (arith, bit_or_step (q * 2 ^ suc k) b, ap (λ t. bit_or t (b / 2)) half, rest, double)
