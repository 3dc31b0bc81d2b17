-- ===== src/Printk/Screen.antt =====
-- The text screen of cOS/kernel/src/printk.c: `__putchar`, `__print_char`, `color_printk`,
-- `set_pos`, `putchar` and `dump_bin`. `font` is the table of cOS/kernel/include/font.h, by
-- character and row: nothing here depends on what it holds.
pub mod Pixels
pub mod Cursor
pub mod Text
use oslib.Prelude.{
  ℕ, zero, suc, ◌+◌, ◌-◌, ◌*◌, ◌/◌, ◌%◌, ◌^◌, Bool, ◌==◌, leb, ltb, if◌then◌else◌, bit_and, List,
  [], ◌∷◌, length,
}
use oslib.Memory.Types.{update}
use oslib.Printk.Format.{Args, int, Printed, printed, fault, no_fuel, vsprintf}

abbrev pub white : ℕ
white = 0x00ffffff

abbrev pub black : ℕ
black = 0

-- Positions are not negative between two characters.
pub record Position : Type 0 where
  pub x_resolution : ℕ
  pub y_resolution : ℕ
  pub x_position : ℕ
  pub y_position : ℕ
  pub x_char_size : ℕ
  pub y_char_size : ℕ
  pub fb_addr : ℕ
  pub fb_length : ℕ

-- `Pos` and the pixels from `FB_addr` on.
pub record Screen : Type 0 where
  pub pos : Position
  pub fb : ℕ → ℕ

abbrev pub columns : Position → ℕ
columns p = p.x_resolution / p.x_char_size

abbrev pub rows : Position → ℕ
rows p = p.y_resolution / p.y_char_size

abbrev pub move : Screen → ℕ → ℕ → Screen
move s x y = record s { pos = record (s.pos) { x_position = x; y_position = y } }

-- `case '\b'`: one back, from the first column to what is meant as the last one of the row before.
pub step_back : Position → ℕ × ℕ
step_back p =
    if p.x_position == 0
    then (
      (columns p - 1) * p.x_char_size,
      (if p.y_position == 0 then (rows p - 1) * p.y_char_size else p.y_position - 1),
    )
    else (p.x_position - 1, p.y_position)

abbrev pub tab_count : ℕ → ℕ
tab_count x = (x + 8) / 8 * 8 - x

-- The two tests behind the `switch`.
unfoldable pub wrap : Screen → Screen
wrap s =
    let p = s.pos in
    let x = if leb (columns p) p.x_position then 0 else p.x_position in
    let y = if leb (columns p) p.x_position then p.y_position + 1 else p.y_position in
    move s x (if leb (rows p) y then 0 else y)

abbrev pub size_of_buf : ℕ
size_of_buf = 4096

pub data Shown : Type 0 where
  shown : ℕ → Screen → Shown
  bad_argument overrun diverges : Shown

pub set_pos : Position → Screen → Screen
set_pos new s = record s { pos = new }

module _ (font : ℕ → ℕ → ℕ) where
  -- The inner loop of `__putchar`: the pixels of a row that are left.
  unfoldable pub draw_row : ℕ → (row testval addr fr bk : ℕ) → (ℕ → ℕ) → ℕ → ℕ
  draw_row zero row testval addr fr bk fb = fb
  draw_row (suc left) row testval addr fr bk fb =
      draw_row left row (testval / 2) (addr + 1) fr bk
        (update fb addr (if bit_and row (testval / 2) == 0 then bk else fr))

  -- The outer loop, at row `i`.
  unfoldable pub draw_rows : ℕ → (i xsize x y fr bk c : ℕ) → (ℕ → ℕ) → ℕ → ℕ
  draw_rows zero i xsize x y fr bk c fb = fb
  draw_rows (suc left) i xsize x y fr bk c fb =
      draw_rows left (i + 1) xsize x y fr bk c
        (draw_row 8 (font c i) 0x100 (xsize * (y + i) + x) fr bk fb)

  -- `__putchar` at a place of the character grid.
  unfoldable pub draw : (fr bk c : ℕ) → Screen → Screen
  draw fr bk c s =
      let p = s.pos in
      record s {
        fb =
            draw_rows 16 0 p.x_resolution (p.x_position * p.x_char_size)
              (p.y_position * p.y_char_size) fr bk c s.fb;
      }

  -- `case '\t'`, with the blanks that are left.
  unfoldable pub blanks : ℕ → (fr bk : ℕ) → Screen → Screen
  blanks zero fr bk s = s
  blanks (suc left) fr bk s =
      blanks left fr bk (move (draw fr bk b' ' s) (s.pos.x_position + 1) s.pos.y_position)

  -- The `switch` on the character.
  unfoldable pub place : (fr bk c : ℕ) → Screen → Screen
  place fr bk c s =
      let p = s.pos in
      if c == 10
      then move s 0 (p.y_position + 1)
      else if c == 8
      then (let (x, y) = step_back p in draw fr bk b' ' (move s x y))
      else if c == 9
      then blanks (tab_count p.x_position) fr bk s
      else move (draw fr bk c s) (p.x_position + 1) p.y_position

  unfoldable pub print_char : (fr bk c : ℕ) → Screen → Screen
  unfolding place wrap
  print_char fr bk c s = wrap (place fr bk c s)

  unfoldable pub print_chars : (fr bk : ℕ) → List ℕ → Screen → Screen
  print_chars fr bk [] s = s
  print_chars fr bk (c ∷ text) s = print_chars fr bk text (print_char fr bk c s)

  -- The result is the number of bytes. A text that fills `__buf` leaves no room for its end.
  pub color_printk : (fr bk : ℕ) → List ℕ → Args → Screen → Shown
  unfolding print_chars
  color_printk fr bk fmt args s = elim (vsprintf fmt args) [
    | printed text ↦
        (if ltb (length text) size_of_buf
          then shown (length text) (print_chars fr bk text s)
          else overrun)
    | fault ↦ bad_argument
    | no_fuel ↦ diverges
  ]

  unfoldable pub putchar : ℕ → Screen → Screen
  putchar ch s = print_char white black ch s

  -- The loop of `dump_bin`, with the digits that are left.
  unfoldable pub dump_bits : ℕ → ℕ → Screen → Screen
  dump_bits zero i s = s
  dump_bits (suc j) i s = dump_bits j i (putchar (if bit_and i (2 ^ j) == 0 then b'0' else b'1') s)

  unfoldable pub dump_bin : ℕ → Screen → Screen
  unfolding dump_bits putchar
  dump_bin i s = dump_bits 64 i (putchar b'b' (putchar b'0' s))

  abbrev pub printf : List ℕ → Args → Screen → Shown
  printf fmt args s = color_printk white black fmt args s

  -- The format reads an int32, the low half of the value.
  pub dump_hex : ℕ → Screen → Shown
  unfolding color_printk
  dump_hex i s = printf (b'%' ∷ b'#' ∷ b'0' ∷ b'1' ∷ b'6' ∷ b'x' ∷ []) (int (i % 2 ^ 32) ∷ []) s
