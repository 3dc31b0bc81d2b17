-- ===== src/Printk/Number/Digits.antt =====
-- The digits that `__number` writes stand for the number, and there is room for them in `tmp`.
use oslib.Prelude.{
  ℕ, zero, suc, ◌+◌, ◌-◌, ◌*◌, ◌/◌, ◌%◌, ◌^◌, ◌≤◌, ◌<◌, ◌≡◌, ap, arith, Bool, leb, if◌then◌else◌,
  List, [], ◌∷◌, length, ◌⊎◌, inl, inr, refl, ◌==◌, true, false, ltb, Bool-cases,
}
use native.Mathlib.Nat.{pow-zero, pow-suc, pow-le-pow_left, div-lt_iff_lt-mul, mod-lt, mod-add-div}
use oslib.Printk.Number.{size_of_tmp, is_digit, digit_char, write_digits, tmp_digits}

-- The digit that a character of the alphabet stands for.
pub digit_of : Bool → ℕ → ℕ
digit_of lower c = if leb c b'9' then c - b'0' else c - (if lower then b'a' else b'A') + 10

-- The number that digits stand for, the lowest first.
pub value_of : Bool → ℕ → List ℕ → ℕ
unfolding digit_of
value_of lower base [] = 0
value_of lower base (c ∷ s) = digit_of lower c + base * value_of lower base s

digit_of-digit_char : (lower : Bool) (d : ℕ) → d < 36 → digit_of lower (digit_char lower d) ≡ d
unfolding digit_of digit_char
digit_of-digit_char lower d h = ground arith

value_of-write_digits :
    (fuel : ℕ) (lower : Bool) (base num : ℕ)
    → 2 ≤ base
    → base ≤ 36
    → num < 2 ^ fuel
    → value_of lower base (write_digits fuel lower base num) ≡ num
unfolding value_of write_digits
value_of-write_digits zero lower base num lo hi h = omega arith
value_of-write_digits (suc fuel) lower base num lo hi h =
    let less : num / base < 2 ^ fuel =
      (div-lt_iff_lt-mul (omega arith)).1 (grind (arith, pow-suc 2 fuel)) in
    let rest = value_of-write_digits fuel lower base (num / base) lo hi less in
    ground (
      arith,
      digit_of-digit_char lower (num % base) (omega (arith, mod-lt num {m = base} (omega arith))),
      mod-add-div num base,
      ap (λ (t : ℕ). base * t) rest,
    )

length-write_digits :
    (fuel k : ℕ) (lower : Bool) (base num : ℕ)
    → 0 < base
    → num < base ^ k
    → length (write_digits fuel lower base num) ≤ k
unfolding write_digits
length-write_digits zero k lower base num h l = omega arith
length-write_digits (suc fuel) zero lower base num h l = ground (arith, pow-zero base)
length-write_digits (suc fuel) (suc k) lower base num h l =
    let less : num / base < base ^ k = (div-lt_iff_lt-mul h).1 (omega (arith, pow-suc base k)) in
    ground (arith, length-write_digits fuel k lower base (num / base) h less)

value_of-all_digits :
    (lower : Bool) (base num : ℕ)
    → 2 ≤ base
    → base ≤ 36
    → num < 2 ^ 64
    → value_of lower base (tmp_digits lower base num) ≡ num
unfolding tmp_digits value_of
value_of-all_digits lower base num lo hi h = ground (
  arith,
  value_of-write_digits 64 lower base num lo hi h,
  digit_of-digit_char lower 0 (omega arith),
)

-- In every base but 2 the digits of 64 bits fit the array `tmp[50]`, and in base 2 those of 50 bits.
length-tmp_digits :
    (lower : Bool) (base num : ℕ)
    → 2 ≤ base
    → num < 2 ^ 64
    → (3 ≤ base) ⊎ (num < 2 ^ 50)
    → length (tmp_digits lower base num) ≤ size_of_tmp
unfolding tmp_digits
length-tmp_digits lower base num lo h (inl more) =
    let room : 3 ^ 50 ≤ base ^ 50 = pow-le-pow_left more 50 in
    ground (arith, length-write_digits 64 50 lower base num (omega arith) (omega arith))
length-tmp_digits lower base num lo h (inr less) =
    let room : 2 ^ 50 ≤ base ^ 50 = pow-le-pow_left lo 50 in
    ground (arith, length-write_digits 64 50 lower base num (omega arith) (omega arith))

not_above : (n bound : ℕ) → n ≤ bound → ltb bound n ≡ false
not_above n bound h = ground (arith, h)

-- The test of the model for the end of `tmp`.
pub tmp_digits-fit :
    (lower : Bool) (base num : ℕ)
    → 2 ≤ base
    → num < 2 ^ 64
    → (3 ≤ base) ⊎ (num < 2 ^ 50)
    → ltb size_of_tmp (length (tmp_digits lower base num)) ≡ false
tmp_digits-fit lower base num lo h fits =
    not_above (length (tmp_digits lower base num)) size_of_tmp
      (length-tmp_digits lower base num lo h fits)

-- In every base from 3 to 36 the digits of 64 bits fit the array `tmp` of 50 bytes and stand for the
-- number, and so do those of 50 bits in base 2.
pub value_of-tmp_digits :
    (lower : Bool) (base num : ℕ)
    → 2 ≤ base
    → base ≤ 36
    → num < 2 ^ 64
    → (3 ≤ base) ⊎ (num < 2 ^ 50)
    → (length (tmp_digits lower base num) ≤ size_of_tmp)
      × (value_of lower base (tmp_digits lower base num) ≡ num)
value_of-tmp_digits lower base num lo hi h fits =
    (length-tmp_digits lower base num lo h fits, value_of-all_digits lower base num lo hi h)

-- The characters are those of the decimal digits.
abbrev pub IsDecimal : List ℕ → Type 0
IsDecimal [] = Unit {0}
IsDecimal (c ∷ s) = (is_digit c ≡ true) × IsDecimal s

write_digits-IsDecimal : (fuel num : ℕ) → IsDecimal (write_digits fuel false 10 num)
unfolding write_digits digit_char
write_digits-IsDecimal zero num = tt
write_digits-IsDecimal (suc fuel) num = elim (Bool-cases (num == 0)) [
  | inl done ↦ rw done tt
  | inr more ↦ rw more (ground arith, write_digits-IsDecimal fuel (num / 10))
]

pub tmp_digits-IsDecimal : (num : ℕ) → IsDecimal (tmp_digits false 10 num)
unfolding tmp_digits
tmp_digits-IsDecimal num = elim (Bool-cases (num == 0)) [
  | inl done ↦ rw done (refl, tt)
  | inr more ↦ rw more (write_digits-IsDecimal 64 num)
]
