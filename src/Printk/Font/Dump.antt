-- ===== src/Printk/Font/Dump.antt =====
-- What `dump_bin` leaves on the screen.
use native.Mathlib.Nat.{pow-suc, div-div-eq-div-mul}
use oslib.Prelude.{
  ℕ, zero, suc, ◌+◌, ◌*◌, ◌/◌, ◌%◌, ◌^◌, ◌≤◌, ◌<◌, ◌≡◌, refl, sym, ap, ◌∙◌, arith, Option, none,
  some, ◌==◌, if◌then◌else◌, List, [], ◌∷◌, length,
}
use oslib.Prelude.Bits.{bit, bit-shr, bit-le-one, bit_and_test}
use oslib.Printk.Screen.{
  Screen, white, black, columns, rows, print_char, print_chars, putchar, dump_bits, dump_bin,
}
use oslib.Printk.Font.{font_ascii}
use oslib.Printk.Font.Line.{IsPrintable, read_text, each_some, read_text-print_chars}

abbrev binary_digits : ℕ → ℕ → List ℕ
binary_digits zero i = []
binary_digits (suc j) i = (if bit j i == 0 then b'0' else b'1') ∷ binary_digits j i

-- The number that binary digits stand for, behind those of `value`; other characters count as 0.
pub binary_value : (value : ℕ) → List (Option ℕ) → ℕ
binary_value value [] = value
binary_value value (none ∷ cs) = binary_value (2 * value) cs
binary_value value (some c ∷ cs) = binary_value (2 * value + (if c == b'1' then 1 else 0)) cs

-- Without `0b`.
abbrev pub behind_prefix : List (Option ℕ) → List (Option ℕ)
behind_prefix (p ∷ q ∷ cs) = cs
behind_prefix cs = cs

bit-quotient : (j i : ℕ) → bit j i ≡ i / 2 ^ j % 2
bit-quotient j i =
    let same : j + 0 ≡ j = omega arith in sym (bit-shr j 0 i ∙ ap (λ k. bit k i) same)

next_quotient : (j i : ℕ) → 2 * (i / 2 ^ suc j) + bit j i ≡ i / 2 ^ j
next_quotient j i =
    let half : i / 2 ^ suc j ≡ i / 2 ^ j / 2 =
      ap (λ t. i / t) (pow-suc 2 j) ∙ sym (div-div-eq-div-mul i (2 ^ j) 2) in
    omega (arith, half, bit-quotient j i)

value-digits : (j i : ℕ) → binary_value (i / 2 ^ j) (each_some (binary_digits j i)) ≡ i
unfolding binary_value
value-digits zero i = omega arith
value-digits (suc j) i =
    let digit : (if (if bit j i == 0 then b'0' else b'1') == b'1' then 1 else 0) ≡ bit j i =
      ground (arith, bit-le-one j i) in
    ap (λ d. binary_value (2 * (i / 2 ^ suc j) + d) (each_some (binary_digits j i))) digit
    ∙ ap (λ v. binary_value v (each_some (binary_digits j i))) (next_quotient j i)
    ∙ value-digits j i

digits-IsPrintable : (j i : ℕ) → IsPrintable (binary_digits j i)
digits-IsPrintable zero i = tt
digits-IsPrintable (suc j) i = ((ground arith, ground arith), digits-IsPrintable j i)

length-digits : (j i : ℕ) → length (binary_digits j i) ≡ j
length-digits zero i = refl
length-digits (suc j) i = omega (arith, length-digits j i)

dump_bits_lem :
    (j i : ℕ) (s : Screen)
    → dump_bits font_ascii j i s ≡ print_chars font_ascii white black (binary_digits j i) s
unfolding dump_bits putchar print_chars
dump_bits_lem zero i s = refl
dump_bits_lem (suc j) i s =
    ap
      (λ test.
        dump_bits font_ascii j i
          (print_char font_ascii white black (if test then b'0' else b'1') s))
      (bit_and_test j i)
    ∙ dump_bits_lem j i _

-- If the rest of the cursor's row has room for 66 characters of at least 8 pixels, the 64 digits
-- that can be read from the pixels behind the prefix that `dump_bin` shows stand for its number.
pub dump_bin-shows :
    (i : ℕ) (s : Screen)
    → i < 2 ^ 64
    → 8 ≤ s.pos.x_char_size
    → s.pos.y_position < rows s.pos
    → s.pos.x_position + 66 ≤ columns s.pos
    → binary_value 0 (
        behind_prefix (
          read_text 66 white
            (record s { fb = (dump_bin font_ascii i s).fb })
            s.pos.x_position
            s.pos.y_position))
      ≡ i
unfolding dump_bin putchar print_chars
dump_bin-shows i s small wide row room =
    let text = b'0' ∷ b'b' ∷ binary_digits 64 i in
    let fine : IsPrintable text =
      ((omega arith, omega arith), ((omega arith, omega arith), digits-IsPrintable 64 i)) in
    let long : length text ≡ 66 = omega (arith, length-digits 64 i) in
    let shown : (dump_bin font_ascii i s).fb ≡ (print_chars font_ascii white black text s).fb =
      ap (λ (t : Screen). t.fb) (dump_bits_lem 64 i _) in
    let read =
      read_text-print_chars white black text s fine (omega arith) wide row
        (omega (arith, long, room)) in
    let none_left : 0 ≡ i / 2 ^ 64 = omega (arith, small) in
    ap
      (λ n. binary_value 0 (
        behind_prefix (
          read_text n white (record s { fb = (dump_bin font_ascii i s).fb }) s.pos.x_position
            s.pos.y_position)))
      (sym long)
    ∙ ap
        (λ fb. binary_value 0 (
          behind_prefix (
            read_text (length text) white (record s { fb = fb }) s.pos.x_position
              s.pos.y_position)))
        shown
    ∙ ap (λ cs. binary_value 0 (behind_prefix cs)) read
    ∙ ap (λ v. binary_value v (each_some (binary_digits 64 i))) none_left
    ∙ value-digits 64 i
