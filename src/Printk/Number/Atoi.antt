-- ===== src/Printk/Number/Atoi.antt =====
-- `__skip_atoi` reads back what `__number` writes in base 10.
use mathlib.Core.List.{reverse, reverse-cons, append_assoc}
use oslib.Prelude.{
  ℕ, zero, suc, ◌+◌, ◌-◌, ◌*◌, ◌/◌, ◌%◌, ◌^◌, ◌<◌, ◌≡◌, refl, sym, ap, ◌∙◌, arith, true, false,
  ◌==◌, ltb, List, [], ◌∷◌, ◌++◌, Bool-cases, inl, inr,
}
use native.Mathlib.Nat.{pow-suc}
use oslib.Printk.Number.{is_digit, digit_char, skip_atoi_from, skip_atoi, write_digits, tmp_digits}

-- The text does not begin with a digit.
abbrev pub IsPlain : List ℕ → Type 0
IsPlain [] = Unit {0}
IsPlain (c ∷ s) = is_digit c ≡ false

skip_digit :
    (i d : ℕ) (s : List ℕ)
    → d < 10
    → skip_atoi_from i (digit_char false d ∷ s) ≡ skip_atoi_from ((i * 10 + d) % 2 ^ 32) s
unfolding skip_atoi_from digit_char
skip_digit i d s h =
    let is : is_digit (b'0' + d) ≡ true = ground arith in
    let back : i * 10 + (b'0' + d) - b'0' ≡ i * 10 + d = omega arith in
    let low : ltb d 10 ≡ true = ground arith in rw (low, is, back)

skip_zero : (s : List ℕ) → skip_atoi_from 0 (b'0' ∷ s) ≡ skip_atoi_from 0 s
unfolding skip_atoi_from
skip_zero s = refl

skip_plain : (i : ℕ) (s : List ℕ) → IsPlain s → skip_atoi_from i s ≡ (i, s)
unfolding skip_atoi_from
skip_plain i [] p = refl
skip_plain i (c ∷ s) p = rw p

skip_written :
    (fuel num : ℕ) (s : List ℕ)
    → num < 2 ^ fuel
    → num < 2 ^ 32
    → skip_atoi_from 0 (reverse (write_digits fuel false 10 num) ++ s) ≡ skip_atoi_from num s
unfolding write_digits
skip_written zero num s h small =
    let none : 0 ≡ num = omega arith in ap (λ t. skip_atoi_from t s) none
skip_written (suc fuel) num s h small = elim (Bool-cases (num == 0)) [
  | inl done ↦ let none : 0 ≡ num = ground arith in rw done (ap (λ t. skip_atoi_from t s) none)
  | inr more ↦
      let d = digit_char false (num % 10) in
      let w = write_digits fuel false 10 (num / 10) in
      let whole : (num / 10 * 10 + num % 10) % 2 ^ 32 ≡ num = omega arith in
      rw more (
        ap (λ t. skip_atoi_from 0 (t ++ s)) (reverse-cons d w)
        ∙ ap (skip_atoi_from 0) (append_assoc (reverse w) (d ∷ []) s)
        ∙ skip_written fuel (num / 10) (d ∷ s) (omega (arith, pow-suc 2 fuel)) (omega arith)
        ∙ skip_digit (num / 10) (num % 10) s (omega arith)
        ∙ ap (λ t. skip_atoi_from t s) whole)
]

-- `__skip_atoi` on the digits that `__number` writes for a number below 2 ^ 32 in base 10, the
-- lowest digit last and no digit behind them, gives the number back, and stops behind the digits.
pub skip_atoi-tmp_digits :
    (num : ℕ) (s : List ℕ)
    → num < 2 ^ 32
    → IsPlain s
    → skip_atoi (reverse (tmp_digits false 10 num) ++ s) ≡ (num, s)
unfolding skip_atoi tmp_digits
skip_atoi-tmp_digits num s small p = elim (Bool-cases (num == 0)) [
  | inl done ↦
      let none : num ≡ 0 = ground arith in
      rw done (skip_zero s ∙ skip_plain 0 s p ∙ ap (λ t. (t, s)) (sym none))
  | inr more ↦ rw more (skip_written 64 num s (omega arith) small ∙ skip_plain num s p)
]
