-- ===== src/Printk/Examples.antt =====
-- Numbers, formats and characters on a small screen.
use mathlib.Core.List.{reverse}
use oslib.Prelude.{
  ℕ, ◌+◌, ◌*◌, ◌-◌, ◌^◌, ◌≤◌, inl, ◌≡◌, refl, arith, true, false, length, List, [], ◌∷◌,
}
use oslib.Printk.Number.{skip_atoi, tmp_digits, size_of_tmp}
use oslib.Printk.Number.Digits.{value_of, value_of-tmp_digits, IsDecimal}
use oslib.Printk.Format.{int, long, vsprintf, printed}
use oslib.Printk.Format.Plain.{print_then_skip_atoi, print_unsigned_int}
use oslib.Printk.Screen.{Screen, draw, move, place}
use oslib.Printk.Screen.Cursor.{backspace_at_home}

value_of-tmp_digits_example :
    (length (tmp_digits true 16 0xbeef) ≤ size_of_tmp)
    × (value_of true 16 (tmp_digits true 16 0xbeef) ≡ 0xbeef)
value_of-tmp_digits_example =
    value_of-tmp_digits true 16 0xbeef (omega arith) (omega arith) (omega arith) (inl (omega arith))

print_then_skip_atoi_example :
    (out : List ℕ) × (vsprintf (b'%' ∷ b'l' ∷ b'u' ∷ []) (long 1024 ∷ []) ≡ printed out)
    × (skip_atoi out ≡ (1024, []))
print_then_skip_atoi_example = print_then_skip_atoi 1024 (omega arith)

print_unsigned_int_example :
    (digits : List ℕ) × (vsprintf (b'%' ∷ b'u' ∷ []) (int (2 ^ 31) ∷ []) ≡ printed (reverse digits))
    × IsDecimal digits
    × (value_of false 10 digits ≡ 2 ^ 31 + (2 ^ 64 - 2 ^ 32))
print_unsigned_int_example = print_unsigned_int (2 ^ 31) (omega arith)

-- Every character is a checkerboard's row.
abbrev font : ℕ → ℕ → ℕ
font c r = 0xaa

abbrev screen : Screen
screen = record {
  pos = record {
    x_resolution = 1440;
    y_resolution = 900;
    x_position = 0;
    y_position = 0;
    x_char_size = 8;
    y_char_size = 16;
    fb_addr = 0;
    fb_length = 5184000;
  };
  fb = λ i. 0;
}

backspace_at_home_example :
    (x y : ℕ) × (place font 9 5 8 screen ≡ draw font 9 5 b' ' (move screen x y)) × (900 ≤ y * 16)
backspace_at_home_example =
    backspace_at_home font 9 5 screen refl refl (omega arith) (omega arith) (omega arith)
