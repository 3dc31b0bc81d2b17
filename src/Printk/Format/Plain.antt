-- ===== src/Printk/Format/Plain.antt =====
-- What whole calls of `__vsprintf` print.
use mathlib.Core.List.{reverse, append_assoc, append-nil}
use oslib.Prelude.{
  ℕ, zero, suc, ◌+◌, ◌-◌, ◌^◌, ◌<◌, ◌≡◌, refl, inl, ltb, if◌then◌else◌, sym, ap, ◌∙◌, arith, false,
  ◌==◌, List, [], ◌∷◌, ◌++◌, length,
}
use oslib.Prelude.Int.{sign_extend}
use oslib.Printk.Number.{skip_atoi, tmp_digits}
use oslib.Printk.Number.Bare.{number_decimal}
use oslib.Printk.Number.Digits.{value_of, value_of-tmp_digits, IsDecimal, tmp_digits-IsDecimal}
use oslib.Printk.Number.Atoi.{skip_atoi-tmp_digits}
use oslib.Printk.Format.{Args, int, long, printed, print_from, vsprintf}

abbrev pub Literal : List ℕ → Type 0
Literal [] = Unit {0}
Literal (c ∷ fmt) = ((c == b'%') ≡ false) × Literal fmt

print_from-Literal :
    (fuel : ℕ) (str fmt : List ℕ) (args : Args)
    → length fmt < fuel
    → Literal fmt
    → print_from fuel str fmt args ≡ printed (str ++ fmt)
unfolding print_from
print_from-Literal zero str fmt args h l = absurd (omega arith)
print_from-Literal (suc fuel) str [] args h l = rw append-nil
print_from-Literal (suc fuel) str (c ∷ fmt) args h l = rw l.0 (
    print_from-Literal fuel (str ++ c ∷ []) fmt args (omega arith) l.1
    ∙ ap printed (append_assoc str (c ∷ []) fmt))

-- A format with no `%` is printed as it stands, whatever the arguments are.
vsprintf-Literal : (fmt : List ℕ) (args : Args) → Literal fmt → vsprintf fmt args ≡ printed fmt
vsprintf-Literal fmt args l =
    unfold vsprintf in print_from-Literal (length fmt + 1) [] fmt args (omega arith) l

abbrev percent_lu : List ℕ
percent_lu = b'%' ∷ b'l' ∷ b'u' ∷ []

abbrev percent_u : List ℕ
percent_u = b'%' ∷ b'u' ∷ []

-- `%lu` prints the decimal digits of an int64.
print_unsigned_long :
    (w : ℕ)
    → w < 2 ^ 64
    → vsprintf percent_lu (long w ∷ []) ≡ printed (reverse (tmp_digits false 10 w))
unfolding vsprintf
print_unsigned_long w h = rw (number_decimal w h) refl

-- `%lu` prints an int64 below 2 ^ 31 in a way that `__skip_atoi` reads back.
pub print_then_skip_atoi :
    (w : ℕ)
    → w < 2 ^ 31
    → (out : List ℕ) × (vsprintf percent_lu (long w ∷ []) ≡ printed out) × (skip_atoi out ≡ (w, []))
print_then_skip_atoi w small = (
  reverse (tmp_digits false 10 w),
  print_unsigned_long w (omega (arith, small)),
  ap skip_atoi (sym (append-nil (reverse (tmp_digits false 10 w))))
      ∙ skip_atoi-tmp_digits w [] (omega (arith, small)) tt,
)

-- `%u` prints an int32, given by its 32 bits, in decimal digits, the highest first, that stand for
-- its value if that is below 2 ^ 31, and otherwise for one that is greater by 2 ^ 64 - 2 ^ 32.
pub print_unsigned_int :
    (w : ℕ)
    → w < 2 ^ 32
    → (digits : List ℕ) × (vsprintf percent_u (int w ∷ []) ≡ printed (reverse digits))
      × IsDecimal digits
      × (value_of false 10 digits ≡ (if ltb w (2 ^ 31) then w else w + (2 ^ 64 - 2 ^ 32)))
unfolding vsprintf
print_unsigned_int w h =
    let v : ℕ = if ltb w (2 ^ 31) then w else w + (2 ^ 64 - 2 ^ 32) in
    let small : v < 2 ^ 64 = ground (arith, h) in
    let extended : sign_extend w ≡ v = ground (arith, h) in
    (
      tmp_digits false 10 v,
      rw extended (rw (number_decimal v small) refl),
      tmp_digits-IsDecimal v,
      (value_of-tmp_digits false 10 v (omega arith) (omega arith) small (inl (omega arith))).1,
    )
