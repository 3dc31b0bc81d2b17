-- ===== src/Printk/Format.antt =====
-- `__vsprintf` of cOS/kernel/src/printk.c. The format is the list of its bytes before the end mark,
-- and so is a string argument; what is written through `__buf` is the result, and the caller has the
-- bound of that array. An argument of another type than the conversion reads, one too few, and a
-- null string, whose length the source takes, are faults.
pub mod Total
pub mod Plain
use oslib.Prelude.{
  ℕ, zero, suc, ◌+◌, ◌-◌, ◌%◌, ◌^◌, Option, none, some, Bool, true, false, not, ◌&&◌, ◌||◌, ◌==◌,
  ltb, if◌then◌else◌, ◌>>=◌, bit_or, List, [], ◌∷◌, ◌++◌, length, take, replicate,
}
use Prim.Native.Nat.{min}
use oslib.Prelude.Int.{ℤ, pos, negsuc, pos_part, neg_part, ◌-ℤ◌, ltb_ℤ, signed32, sign_extend}
use oslib.Printk.Number.{
  zeropad, sign, plus, space, left, special, small, has, is_digit, skip_atoi, skip_atoi_from,
  Numbered, written, null, overrun, number,
}

-- The arguments behind the format: an int32, an int64 and a pointer by their bit patterns.
pub data Arg : Type 0 where
  int : ℕ → Arg
  long : ℕ → Arg
  pointer : ℕ → Arg
  text : Option (List ℕ) → Arg

abbrev pub Args : Type 0
Args = List Arg

pub next_int : Args → Option (ℕ × Args)
next_int (int w ∷ args) = some (w, args)
next_int _ = none

pub next_long : Args → Option (ℕ × Args)
next_long (long w ∷ args) = some (w, args)
next_long _ = none

pub next_pointer : Args → Option (ℕ × Args)
next_pointer (pointer w ∷ args) = some (w, args)
next_pointer _ = none

pub next_text : Args → Option (List ℕ × Args)
next_text (text (some s) ∷ args) = some (s, args)
next_text _ = none

-- The value of a flag character, if it is one.
pub flag_of : ℕ → Option ℕ
flag_of c =
    if c == b'-'
    then some left
    else if c == b'+'
    then some plus
    else if c == b' '
    then some space
    else if c == b'#'
    then some special
    else if c == b'0'
    then some zeropad
    else none

-- The label `repeat`: the flags and the rest of the format.
pub read_flags : ℕ → List ℕ → ℕ × List ℕ
read_flags flags [] = (flags, [])
read_flags flags (c ∷ fmt) = elim (flag_of c) [
  | none ↦ (flags, c ∷ fmt)
  | some f ↦ read_flags (bit_or flags f) fmt
]

-- A conversion on the way: flags, field width, precision, and what is left.
pub record Spec : Type 0 where
  pub flags : ℕ
  pub field_width : ℤ
  pub precision : ℤ
  pub long_qualifier : Bool
  pub fmt : List ℕ
  pub args : Args

abbrev pub minus_one : ℤ
minus_one = negsuc 0

abbrev pub is_negative : ℤ → Bool
is_negative z = ltb_ℤ z (pos 0)

-- The negation of a negative int32: the least one has none and stays as it is.
abbrev pub negate : ℤ → ℤ
negate z = if neg_part z == 2 ^ 31 then z else pos 0 -ℤ z

abbrev pub with_width : Spec → ℤ → Spec
with_width s w =
    if is_negative w
    then record s { field_width = negate w; flags = bit_or s.flags left }
    else record s { field_width = w }

pub read_width : Spec → List ℕ → Option Spec
read_width s [] = some s
read_width s (c ∷ fmt) =
    if is_digit c
    then (let (w, rest) = skip_atoi (c ∷ fmt) in
        some (record s { field_width = signed32 w; fmt = rest }))
    else if c == b'*'
    then (do
      (w, args) ← next_int s.args
      some (with_width (record s { fmt = fmt; args = args }) (signed32 w)))
    else some s

abbrev pub with_precision : Spec → ℤ → Spec
with_precision s p = record s { precision = if is_negative p then pos 0 else p }

-- Behind the dot.
pub read_digits_of_precision : Spec → List ℕ → Option Spec
read_digits_of_precision s [] = some (with_precision s minus_one)
read_digits_of_precision s (c ∷ fmt) =
    if is_digit c
    then (let (p, rest) = skip_atoi (c ∷ fmt) in
        some (with_precision (record s { fmt = rest }) (signed32 p)))
    else if c == b'*'
    then (do
      (p, args) ← next_int s.args
      some (with_precision (record s { fmt = fmt; args = args }) (signed32 p)))
    else some (with_precision s minus_one)

pub read_precision : Spec → List ℕ → Option Spec
read_precision s [] = some s
read_precision s (c ∷ fmt) =
    if c == b'.' then read_digits_of_precision (record s { fmt = fmt }) fmt else some s

pub read_qualifier : Spec → List ℕ → Spec
read_qualifier s [] = s
read_qualifier s (c ∷ fmt) =
    if c == b'h' || c == b'l' || c == b'L' || c == b'Z'
    then record s { long_qualifier = c == b'l'; fmt = fmt }
    else s

-- The part of a conversion before its letter, from the byte behind `%` on.
pub read_spec : List ℕ → Args → Option Spec
read_spec fmt args =
    let (flags, rest) = read_flags 0 fmt in
    let s : Spec = record {
      flags = flags;
      field_width = minus_one;
      precision = minus_one;
      long_qualifier = false;
      fmt = rest;
      args = args;
    } in
    (do s ← read_width s s.fmt; s ← read_precision s s.fmt; some (read_qualifier s s.fmt))

-- `case 'c'`: `while (--field_width > 0)` pads on one side.
pub convert_char : List ℕ → Spec → Option (List ℕ × Args)
convert_char str s = do
  (w, args) ← next_int s.args
  let padding = replicate (pos_part s.field_width - 1) b' '
  some (
    if has s.flags left then str ++ (w % 2 ^ 8 ∷ padding) else str ++ padding ++ (w % 2 ^ 8 ∷ []),
    args,
  )

-- `case 's'`: the text is cut to the precision, and `while (len < field_width--)` pads.
pub convert_text : List ℕ → Spec → Option (List ℕ × Args)
convert_text str s = do
  (t, args) ← next_text s.args
  let len = if is_negative s.precision then length t else min (length t) (pos_part s.precision)
  let padding = replicate (pos_part s.field_width - len) b' '
  some (
    if has s.flags left then str ++ take len t ++ padding else str ++ padding ++ take len t,
    args,
  )

-- The number that a conversion reads: an int32 becomes an int64 by its sign.
pub next_number : Spec → Option (ℕ × Args)
next_number s =
    if s.long_qualifier
    then next_long s.args
    else (do (w, args) ← next_int s.args; some (sign_extend w, args))

-- The text of a number, if it is one: no conversion has a base out of range, or one with more than
-- 50 digits.
pub text_of : Numbered → Option (List ℕ)
text_of (written out) = some out
text_of null = none
text_of overrun = none

pub convert_number : List ℕ → (base flag : ℕ) → Spec → Option (List ℕ × Args)
convert_number str base flag s = do
  (w, args) ← next_number s
  out ← text_of (number str w base s.field_width s.precision (bit_or s.flags flag))
  some (out, args)

-- `case 'p'`: without a field width it is 16, padded with zeros.
pub convert_pointer : List ℕ → Spec → Option (List ℕ × Args)
convert_pointer str s = do
  (w, args) ← next_pointer s.args
  let plain = (pos_part s.field_width == 0) && (neg_part s.field_width == 1)
  out ← text_of (
      number str w 16 (if plain then pos 16 else s.field_width) s.precision
        (if plain then bit_or s.flags zeropad else s.flags))
  some (out, args)

-- The `switch` on the letter of a conversion.
pub convert : List ℕ → Spec → ℕ → Option (List ℕ × Args)
convert str s c =
    if c == b'c'
    then convert_char str s
    else if c == b's'
    then convert_text str s
    else if c == b'o'
    then convert_number str 8 0 s
    else if c == b'p'
    then convert_pointer str s
    else if c == b'x'
    then convert_number str 16 small s
    else if c == b'X'
    then convert_number str 16 0 s
    else if c == b'd' || c == b'i'
    then convert_number str 10 sign s
    else if c == b'u'
    then convert_number str 10 0 s
    else if c == b'%'
    then some (str ++ b'%' ∷ [], s.args)
    else some (str ++ b'%' ∷ c ∷ [], s.args)

-- The text written, the rest of the format and of the arguments. At the end of the format the
-- code steps back, so that the loop ends there.
pub convert_next : List ℕ → Spec → List ℕ → Option (List ℕ × List ℕ × Args)
convert_next str s [] = some (str ++ b'%' ∷ [], [], s.args)
convert_next str s (c ∷ rest) = do (out, args) ← convert str s c; some (out, rest, args)

pub conversion : List ℕ → List ℕ → Args → Option (List ℕ × List ℕ × Args)
conversion str fmt args = do s ← read_spec fmt args; convert_next str s s.fmt

pub data Printed : Type 0 where
  printed : List ℕ → Printed
  fault no_fuel : Printed

-- The loop over the format. Its fuel is the number of bytes that it may read.
pub print_from : ℕ → List ℕ → List ℕ → Args → Printed
print_from zero str fmt args = no_fuel
print_from (suc fuel) str [] args = printed str
print_from (suc fuel) str (c ∷ fmt) args =
    if c == b'%'
    then (elim (conversion str fmt args) [
      | none ↦ fault
      | some (out, rest, args') ↦ print_from fuel out rest args'
    ])
    else print_from fuel (str ++ c ∷ []) fmt args

pub vsprintf : List ℕ → Args → Printed
unfolding print_from conversion convert_next read_spec flag_of read_flags read_width read_precision
    read_digits_of_precision read_qualifier next_int convert next_number convert_char convert_text
    convert_number convert_pointer next_text next_long next_pointer text_of number has skip_atoi
    skip_atoi_from
vsprintf fmt args = print_from (length fmt + 1) [] fmt args
