-- ===== src/Printk/Format/Total.antt =====
-- The loop over the format ends: a conversion leaves no more of the format than it found.
use oslib.Prelude.{
  ℕ, zero, suc, ◌+◌, ◌-◌, ◌*◌, ◌%◌, ◌^◌, ◌≤◌, ◌<◌, ◌≡◌, ◌≢◌, refl, arith, some, bit_or, >>=-eq-some,
  ◌==◌, List, [], ◌∷◌, ◌++◌, length, Option-cases, Bool-cases, inl, inr,
}
use oslib.Printk.Number.{skip_atoi, skip_atoi_from}
use oslib.Printk.Format.{
  Spec, Args, flag_of, read_flags, read_width, read_precision, read_digits_of_precision,
  read_qualifier, read_spec, convert_next, conversion, print_from, no_fuel, vsprintf,
}

skip_atoi_from-le : (i : ℕ) (s : List ℕ) → length (skip_atoi_from i s).1 ≤ length s
unfolding skip_atoi_from
skip_atoi_from-le i [] = omega arith
skip_atoi_from-le i (c ∷ s) = ground (arith, skip_atoi_from-le ((i * 10 + c - b'0') % 2 ^ 32) s)

skip_atoi-le : (s : List ℕ) → length (skip_atoi s).1 ≤ length s
unfolding skip_atoi
skip_atoi-le s = skip_atoi_from-le 0 s

read_flags-le : (flags : ℕ) (fmt : List ℕ) → length (read_flags flags fmt).1 ≤ length fmt
unfolding read_flags
read_flags-le flags [] = omega arith
read_flags-le flags (c ∷ fmt) = elim (Option-cases (flag_of c)) [
  | inl stop ↦ ground (arith, stop)
  | inr (f, go) ↦ ground (arith, go, read_flags-le (bit_or flags f) fmt)
]

read_width-le :
    (s : Spec) (fmt : List ℕ) {s' : Spec}
    → read_width s fmt ≡ some s'
    → s.fmt ≡ fmt
    → length s'.fmt ≤ length fmt
unfolding read_width
read_width-le s [] e same = ground arith
read_width-le s (c ∷ fmt) e same = ground (arith, skip_atoi-le (c ∷ fmt))

read_digits-le :
    (s : Spec) (fmt : List ℕ) {s' : Spec}
    → read_digits_of_precision s fmt ≡ some s'
    → s.fmt ≡ fmt
    → length s'.fmt ≤ length fmt
unfolding read_digits_of_precision
read_digits-le s [] e same = ground arith
read_digits-le s (c ∷ fmt) e same = ground (arith, skip_atoi-le (c ∷ fmt))

read_precision-le :
    (s : Spec) (fmt : List ℕ) {s' : Spec}
    → read_precision s fmt ≡ some s'
    → s.fmt ≡ fmt
    → length s'.fmt ≤ length fmt
unfolding read_precision
read_precision-le s [] e same = ground arith
read_precision-le s (c ∷ fmt) {s'} e same = elim (Bool-cases (c == b'.')) [
  | inl dot ↦
      let run : read_digits_of_precision (record s { fmt = fmt }) fmt ≡ some s' = ground arith in
      omega (arith, read_digits-le (record s { fmt = fmt }) fmt run refl)
  | inr other ↦ ground arith
]

read_qualifier-le :
    (s : Spec) (fmt : List ℕ) → s.fmt ≡ fmt → length (read_qualifier s fmt).fmt ≤ length fmt
unfolding read_qualifier
read_qualifier-le s [] same = ground arith
read_qualifier-le s (c ∷ fmt) same = ground arith

read_spec-le :
    (fmt : List ℕ) (args : Args) {s : Spec}
    → read_spec fmt args ≡ some s
    → length s.fmt ≤ length fmt
unfolding read_spec
read_spec-le fmt args {s} e =
    let (s1, at1, rest) = >>=-eq-some _ _ e in
    let (s2, at2, last) = >>=-eq-some _ _ rest in
    let le1 = read_width-le _ _ at1 refl in
    let le2 = read_precision-le s1 s1.fmt at2 refl in
    ground (arith, last, read_flags-le 0 fmt, le1, le2, read_qualifier-le s2 s2.fmt refl)

convert_next-le :
    (str : List ℕ) (s : Spec) (fmt : List ℕ) {out rest : List ℕ} {args : Args}
    → convert_next str s fmt ≡ some (out, rest, args)
    → length rest ≤ length fmt
unfolding convert_next
convert_next-le str s [] e = ground arith
convert_next-le str s (c ∷ fmt) e = ground arith

conversion-le :
    (str fmt : List ℕ) (args : Args) {out rest : List ℕ} {args' : Args}
    → conversion str fmt args ≡ some (out, rest, args')
    → length rest ≤ length fmt
unfolding conversion
conversion-le str fmt args {rest} e =
    let (s, at, run) = >>=-eq-some _ _ e in
    omega (arith, read_spec-le fmt args at, convert_next-le str s s.fmt run)

print_from_ends :
    (fuel : ℕ) (str fmt : List ℕ) (args : Args)
    → length fmt < fuel
    → print_from fuel str fmt args ≢ no_fuel
unfolding print_from
print_from_ends zero str fmt args h = absurd (omega arith)
print_from_ends (suc fuel) str [] args h = ground arith
print_from_ends (suc fuel) str (c ∷ fmt) args h = elim (Option-cases (conversion str fmt args)) [
  | inl bad ↦ ground (arith, bad, print_from_ends fuel (str ++ c ∷ []) fmt args)
  | inr ((out, rest, args'), good) ↦
      let le = conversion-le str fmt args good in
      ground (
        arith,
        good,
        print_from_ends fuel out rest args',
        print_from_ends fuel (str ++ c ∷ []) fmt args,
      )
]

-- `__vsprintf` ends on every format and all arguments: it prints, or it comes to a fault.
pub vsprintf_ends : (fmt : List ℕ) (args : Args) → vsprintf fmt args ≢ no_fuel
vsprintf_ends fmt args =
    unfold vsprintf in print_from_ends (length fmt + 1) [] fmt args (omega arith)
