-- ===== src/Printk/Number/Bare.antt =====
-- `__number` with neither field width nor precision.
use mathlib.Core.List.{reverse, append-nil}
use Prim.Native.Nat.{max}
use oslib.Prelude.{
  ℕ, ◌+◌, ◌-◌, ◌^◌, ◌<◌, inl, ◌≡◌, refl, ap, ◌∙◌, arith, Bool, true, false, if◌then◌else◌, List, [],
  ◌++◌, length, replicate,
}
use oslib.Prelude.Int.{ℤ, pos, negsuc, pos_part, ◌-ℤ◌}
use oslib.Printk.Number.{
  zeropad, left, small, has, fill, filled, sign_of, prefix_of, magnitude, tmp_digits, layout,
  written, number,
}
use oslib.Printk.Number.Digits.{tmp_digits-fit}
use oslib.Printk.Number.Width.{pos_part-sub}

fill_nothing : (s : ℤ) (c : ℕ) → pos_part s ≡ 0 → fill s c ≡ []
fill_nothing s c e = ap (λ n. replicate n c) e

fill_branch : (b : Bool) (s : ℤ) (c : ℕ) → pos_part s ≡ 0 → (if b then [] else fill s c) ≡ []
fill_branch true s c e = refl
fill_branch false s c e = fill_nothing s c e

filled_branch : (b : Bool) (s : ℤ) → pos_part s ≡ 0 → pos_part (if b then s else filled s) ≡ 0
filled_branch true s e = e
filled_branch false (pos n) e = refl
filled_branch false (negsuc n) e = refl

-- Then it writes the sign, the prefix and the digits, and nothing else.
pub layout_bare :
    (str : List ℕ) (num base : ℕ) (size precision : ℤ) (type : ℕ)
    → pos_part size ≡ 0
    → pos_part precision ≡ 0
    → layout str num base size precision type
      ≡ str
        ++ sign_of type num
        ++ prefix_of type base
        ++ reverse (tmp_digits (has type small) base (magnitude type num))
unfolding layout
layout_bare str num base size precision type no_size no_precision =
    let x = length (sign_of type num) in
    let y = length (prefix_of type base) in
    let i = length (tmp_digits (has type small) base (magnitude type num)) in
    let p = max i (pos_part precision) in
    let c : ℕ = if has type zeropad then b'0' else b' ' in
    let s1 = size -ℤ pos x -ℤ pos y -ℤ pos p in
    let e1 : pos_part s1 ≡ 0 = omega (arith, pos_part-sub size x y p) in
    let s2 = if has type (zeropad + left) then s1 else filled s1 in
    let e2 : pos_part s2 ≡ 0 = filled_branch (has type (zeropad + left)) s1 e1 in
    let s3 = if has type left then s2 else filled s2 in
    let e3 : pos_part s3 ≡ 0 = filled_branch (has type left) s2 e2 in
    let no_zeros : p - i ≡ 0 = omega arith in
    simp (
      fill_branch (has type (zeropad + left)) s1 b' ' e1,
      fill_branch (has type left) s2 c e2,
      no_zeros,
      e3,
      append-nil,
    )

layout_decimal :
    (num : ℕ) → layout [] num 10 (negsuc 0) (negsuc 0) 0 ≡ reverse (tmp_digits false 10 num)
layout_decimal num =
    layout_bare [] num 10 (negsuc 0) (negsuc 0) 0 refl refl
    ∙ unfold sign_of prefix_of magnitude has in refl

-- A number of 64 bits in decimal.
pub number_decimal :
    (num : ℕ)
    → num < 2 ^ 64
    → number [] num 10 (negsuc 0) (negsuc 0) 0 ≡ written (reverse (tmp_digits false 10 num))
unfolding number
number_decimal num h =
    rw (tmp_digits-fit false 10 num (omega arith) h (inl (omega arith)))
      (ap written (layout_decimal num))
