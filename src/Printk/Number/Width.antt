-- ===== src/Printk/Number/Width.antt =====
-- How much `__number` writes.
use mathlib.Core.List.{reverse, reverse-cons}
use Prim.Native.Nat.{max}
use oslib.Prelude.{
  ℕ, ◌+◌, ◌-◌, ◌^◌, ◌<◌, ◌≤◌, ◌≡◌, refl, ap, ◌∙◌, arith, List, [], ◌∷◌, length, length-append,
}
use oslib.Prelude.Int.{ℤ, pos, negsuc, pos_part, neg_part, ◌-ℤ◌}
use oslib.Printk.Number.{small, has, sign_of, prefix_of, magnitude, tmp_digits}

pub length-reverse {ℓ} : {A : Type ℓ} (xs : List A) → length (reverse xs) ≡ length xs
length-reverse [] = refl
length-reverse (x ∷ xs) =
    ap length (reverse-cons x xs)
    ∙ length-append (reverse xs) (x ∷ [])
    ∙ omega (arith, length-reverse xs)

-- The columns that the sign, the prefix and the digits with their leading zeros take.
pub core_width : (num base : ℕ) (precision : ℤ) (type : ℕ) → ℕ
core_width num base precision type =
    length (sign_of type num)
    + length (prefix_of type base)
    + max (length (tmp_digits (has type small) base (magnitude type num))) (pos_part precision)

pub pos_part-sub :
    (s : ℤ) (x y z : ℕ) → pos_part (s -ℤ pos x -ℤ pos y -ℤ pos z) ≡ pos_part s - (x + y + z)
pos_part-sub (pos n) x y z = ground arith
pos_part-sub (negsuc n) x y z = ground arith

-- A number of 64 bits has a magnitude of 64 bits.
pub magnitude_small : (type num : ℕ) → num < 2 ^ 64 → magnitude type num < 2 ^ 64
unfolding magnitude
magnitude_small type num h = ground (arith, h)

-- A size or a precision with which the source's int32 does not overflow.
abbrev pub IsWidth : ℤ → Type 0
IsWidth s = (pos_part s ≤ 2 ^ 30) × (neg_part s ≤ 2 ^ 30)
