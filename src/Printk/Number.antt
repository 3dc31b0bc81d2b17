-- ===== src/Printk/Number.antt =====
-- `__skip_atoi` and `__number` of cOS/kernel/src/printk.c: decimal input, and numbers in a base,
-- padded. A number is the bit pattern of its int64; what `__number` writes to `str` is its result.
pub mod Atoi
pub mod Digits
pub mod Width
pub mod Bare
mod Examples
use oslib.Prelude.{
  ℕ, zero, suc, ◌+◌, ◌-◌, ◌*◌, ◌/◌, ◌%◌, ◌^◌, Option, none, some, Bool, true, false, not, ◌&&◌,
  ◌||◌, ◌==◌, ltb, leb, if◌then◌else◌, bit_and, List, [], ◌∷◌, ◌++◌, length, replicate,
}
use Prim.Native.Nat.{max}
use mathlib.Core.List.{reverse}
use oslib.Prelude.Int.{ℤ, pos, negsuc, pos_part, ◌-ℤ◌, ltb_ℤ}

abbrev pub zeropad : ℕ
zeropad = 1

abbrev pub sign : ℕ
sign = 2

abbrev pub plus : ℕ
plus = 4

abbrev pub space : ℕ
space = 8

abbrev pub left : ℕ
left = 16

abbrev pub special : ℕ
special = 32

abbrev pub small : ℕ
small = 64

-- `type & flag`, as a test.
unfoldable pub has : ℕ → ℕ → Bool
has type flag = not (bit_and type flag == 0)

abbrev pub is_digit : ℕ → Bool
is_digit c = leb b'0' c && leb c b'9'

-- The value read and the rest of the text. The accumulator is an int32, by its bit pattern: a value
-- that overflows wraps around.
unfoldable pub skip_atoi_from : ℕ → List ℕ → ℕ × List ℕ
skip_atoi_from i [] = (i, [])
skip_atoi_from i (c ∷ s) =
    let rest = skip_atoi_from ((i * 10 + c - b'0') % 2 ^ 32) s in
    if is_digit c then rest else (i, c ∷ s)

unfoldable pub skip_atoi : List ℕ → ℕ × List ℕ
skip_atoi s = skip_atoi_from 0 s

-- `digits[d]` of the capital or the small alphabet, for `d` below 36.
pub digit_char : Bool → ℕ → ℕ
digit_char lower d = if ltb d 10 then b'0' + d else (if lower then b'a' else b'A') + (d - 10)

-- `divq` of a number of 64 bits: the quotient that it leaves in `n`, and the remainder.
abbrev pub get_remainder : (n base : ℕ) → ℕ × ℕ
get_remainder n base = (n / base, n % base)

-- `while (num != 0) tmp[i++] = digits[get_remainder(num, base)]`, the lowest digit first.
pub write_digits : ℕ → Bool → ℕ → ℕ → List ℕ
write_digits zero lower base num = []
write_digits (suc fuel) lower base num =
    let rest =
      digit_char lower (get_remainder num base).1
      ∷ write_digits fuel lower base (get_remainder num base).0 in
    if num == 0 then [] else rest

-- What is written from the start of the array `tmp` on, which has 50 bytes: 64 rounds are enough for
-- a number of 64 bits. `number` has the bound.
pub tmp_digits : Bool → ℕ → ℕ → List ℕ
tmp_digits lower base num = if num == 0 then b'0' ∷ [] else write_digits 64 lower base num

-- `while (size-- > 0) *str++ = c`: what it writes, and the size behind it.
abbrev pub fill : ℤ → ℕ → List ℕ
fill size c = replicate (pos_part size) c

abbrev pub filled : ℤ → ℤ
filled (pos n) = negsuc 0
filled (negsuc n) = negsuc (n + 1)

-- The sign and the magnitude.
pub sign_of : ℕ → ℕ → List ℕ
sign_of type num =
    if has type sign && leb (2 ^ 63) num
    then b'-' ∷ []
    else if has type plus
    then b'+' ∷ []
    else if has type space
    then b' ' ∷ []
    else []

pub magnitude : ℕ → ℕ → ℕ
magnitude type num = if has type sign && leb (2 ^ 63) num then (2 ^ 64 - num) % 2 ^ 64 else num

-- The prefix of an octal or hexadecimal number: `digits[33]` is the letter.
pub prefix_of : ℕ → ℕ → List ℕ
prefix_of type base =
    if not (has type special)
    then []
    else if base == 8
    then b'0' ∷ []
    else if base == 16
    then b'0' ∷ digit_char (has type small) 33 ∷ []
    else []

-- The part of `__number` behind its test of the base; `type` has no `ZEROPAD` next to `LEFT`. The
-- size and the precision are integers: they are the source's int32 as long as that does not
-- overflow, as for sizes and precisions from -2 ^ 30 to 2 ^ 30.
pub layout : (str : List ℕ) (num base : ℕ) (size precision : ℤ) (type : ℕ) → List ℕ
layout str num base size precision type =
    let c = if has type zeropad then b'0' else b' ' in
    let the_sign = sign_of type num in
    let the_prefix = prefix_of type base in
    let tmp = tmp_digits (has type small) base (magnitude type num) in
    let i = length tmp in
    let precision' = max i (pos_part precision) in
    let size1 = size -ℤ pos (length the_sign) -ℤ pos (length the_prefix) -ℤ pos precision' in
    let spaces = if has type (zeropad + left) then [] else fill size1 b' ' in
    let size2 = if has type (zeropad + left) then size1 else filled size1 in
    let padding = if has type left then [] else fill size2 c in
    let size3 = if has type left then size2 else filled size2 in
    let zeros = replicate (precision' - i) b'0' in
    str ++ spaces ++ the_sign ++ the_prefix ++ padding ++ zeros ++ reverse tmp ++ fill size3 b' '

-- What `__number` comes to: the text, the null pointer for a base out of range, or a digit behind
-- the end of `tmp`.
pub data Numbered : Type 0 where
  written : List ℕ → Numbered
  null overrun : Numbered

-- `if (type & LEFT) type &= ~ZEROPAD`
abbrev pub drop_zeropad : ℕ → ℕ
drop_zeropad type = if has type left && has type zeropad then type - zeropad else type

abbrev pub size_of_tmp : ℕ
size_of_tmp = 50

unfoldable pub number : (str : List ℕ) (num base : ℕ) (size precision : ℤ) (type : ℕ) → Numbered
unfolding layout sign_of magnitude prefix_of write_digits tmp_digits has digit_char
number str num base size precision type =
    if ltb base 2 || ltb 36 base
    then null
    else (let type' = drop_zeropad type in
        if ltb size_of_tmp (length (tmp_digits (has type' small) base (magnitude type' num)))
        then overrun
        else written (layout str num base size precision type'))
