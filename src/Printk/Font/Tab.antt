-- ===== src/Printk/Font/Tab.antt =====
-- What a tab near the end of a row does to the screen.
use native.Mathlib.Decide.{ℕ_discrete}
use oslib.Prelude.{
  all_below, all_below_lem, ℕ, zero, suc, ◌+◌, ◌-◌, ◌*◌, ◌≤◌, ◌<◌, ◌≡◌, refl, sym, ap, ◌∙◌, arith,
  true, ◌==◌,
}
use oslib.Prelude.Bits.{bit-zero}
use oslib.Printk.Screen.{Screen, columns, move, tab_count, draw_row, draw_rows, draw, blanks, place}
use oslib.Printk.Screen.Pixels.{colour, draw_row_at}
use oslib.Printk.Font.{font_ascii}

empty_rows : all_below 16 (λ r. font_ascii b' ' r == 0) ≡ true
unfolding font_ascii
empty_rows = refl

empty_row : (r : ℕ) → r < 16 → font_ascii b' ' r ≡ 0
empty_row r h = ground (arith, all_below_lem 16 (λ r. font_ascii b' ' r == 0) r empty_rows h)

line_below : (xs top r : ℕ) → 0 < r → xs * (top + (r - 1)) + xs ≡ xs * (top + r)
line_below xs top zero h = absurd (omega arith)
line_below xs top (suc r) h =
    let next : suc r - 1 ≡ r = omega arith in ap (λ r. xs * (top + r) + xs) next ∙ grind arith

module _ (fr bk : ℕ) where
  -- An empty row paints its 8 pixels, and what is background stays so.
  row_paints :
      (addr : ℕ) (fb : ℕ → ℕ) (j : ℕ)
      → j < 8
      → draw_row font_ascii 8 0 0x100 addr fr bk fb (addr + j) ≡ bk
  unfolding colour
  row_paints addr fb j h =
      draw_row_at font_ascii 8 0 addr fr bk fb (addr + j) (omega arith)
      ∙ ground (arith, h, bit-zero (7 - (8 - 8 + (addr + j - addr))))

  row_keeps :
      (addr : ℕ) (fb : ℕ → ℕ) (p : ℕ)
      → fb p ≡ bk
      → draw_row font_ascii 8 0 0x100 addr fr bk fb p ≡ bk
  unfolding colour
  row_keeps addr fb p e =
      draw_row_at font_ascii 8 0 addr fr bk fb p (omega arith)
      ∙ ground (arith, e, bit-zero (7 - (8 - 8 + (p - addr))))

  rows_keep :
      (left i xs x y : ℕ) (fb : ℕ → ℕ) (p : ℕ)
      → i + left ≤ 16
      → fb p ≡ bk
      → draw_rows font_ascii left i xs x y fr bk b' ' fb p ≡ bk
  unfolding draw_rows
  rows_keep zero i xs x y fb p fits e = e
  rows_keep (suc left) i xs x y fb p fits e =
      rows_keep left (i + 1) xs x y _ p (omega (arith, fits)) (
        ap (λ row. draw_row font_ascii 8 row 0x100 (xs * (y + i) + x) fr bk fb p)
          (empty_row i (omega (arith, fits)))
        ∙ row_keeps (xs * (y + i) + x) fb p e)

  rows_paint :
      (left i xs x y : ℕ) (fb : ℕ → ℕ) (r j : ℕ)
      → i + left ≤ 16
      → i ≤ r
      → r < i + left
      → j < 8
      → draw_rows font_ascii left i xs x y fr bk b' ' fb (xs * (y + r) + x + j) ≡ bk
  unfolding draw_rows
  rows_paint zero i xs x y fb r j fits lo hi h = absurd (omega (arith, lo, hi))
  rows_paint (suc left) i xs x y fb r j fits lo hi h = elim (ℕ_discrete i r) [
    | yes same ↦ rows_keep left (i + 1) xs x y _ (xs * (y + r) + x + j) (omega (arith, fits)) (
        ap
          (λ t.
            draw_row font_ascii 8 (font_ascii b' ' i) 0x100 (xs * (y + i) + x) fr bk fb
              (xs * (y + t) + x + j))
          (sym same)
        ∙ ap
            (λ row.
              draw_row font_ascii 8 row 0x100 (xs * (y + i) + x) fr bk fb (xs * (y + i) + x + j))
            (empty_row i (omega (arith, fits)))
        ∙ row_paints (xs * (y + i) + x) fb j h)
    | no other ↦
        rows_paint left (i + 1) xs x y _ r j (omega (arith, fits)) (omega (arith, lo, other))
          (omega (arith, hi)) h
  ]

  blanks_keep : (n : ℕ) (s : Screen) (p : ℕ) → s.fb p ≡ bk → (blanks font_ascii n fr bk s).fb p ≡ bk
  unfolding blanks draw
  blanks_keep zero s p e = e
  blanks_keep (suc n) s p e =
      blanks_keep n (move (draw font_ascii fr bk b' ' s) (s.pos.x_position + 1) s.pos.y_position) p
        (rows_keep 16 0 s.pos.x_resolution _ _ s.fb p (omega arith) e)

  -- A blank in column `c`, which the blanks reach.
  blanks_paint :
      (n : ℕ) (s : Screen) (c r j : ℕ)
      → s.pos.x_position ≤ c
      → c < s.pos.x_position + n
      → r < 16
      → j < 8
      → (blanks font_ascii n fr bk s).fb (
          s.pos.x_resolution * (s.pos.y_position * s.pos.y_char_size + r)
          + c * s.pos.x_char_size
          + j)
        ≡ bk
  unfolding blanks draw
  blanks_paint zero s c r j lo hi hr h = absurd (omega (arith, lo, hi))
  blanks_paint (suc n) s c r j lo hi hr h =
      let next = move (draw font_ascii fr bk b' ' s) (s.pos.x_position + 1) s.pos.y_position in
      let w = s.pos.x_char_size in
      let top = s.pos.y_position * s.pos.y_char_size in
      let at = λ (x : ℕ). s.pos.x_resolution * (top + r) + x * w + j in
      elim (ℕ_discrete s.pos.x_position c) [
        | yes same ↦ blanks_keep n next (at c) (
            ap (λ x. next.fb (at x)) (sym same)
            ∙ rows_paint 16 0 s.pos.x_resolution (s.pos.x_position * w) top s.fb r j (omega arith)
                (omega arith) (omega (arith, hr)) h)
        | no other ↦ blanks_paint n next c r j (omega (arith, lo, other)) (omega (arith, hi)) hr h
      ]

  -- If the columns fill the picture's row and the next tab stop is behind the last one, a tab draws
  -- a blank behind the row's end, which is the next line of pixels: it wipes out all but the first
  -- line of the character in the first column of the same row.
  pub tab_wipes :
      (s : Screen) (r j : ℕ)
      → columns s.pos * s.pos.x_char_size ≡ s.pos.x_resolution
      → s.pos.x_position < columns s.pos
      → columns s.pos < s.pos.x_position + tab_count s.pos.x_position
      → 0 < r
      → r ≤ 16
      → j < 8
      → (place font_ascii fr bk 9 s).fb
          (s.pos.x_resolution * (s.pos.y_position * s.pos.y_char_size + r) + j)
        ≡ bk
  unfolding place
  tab_wipes s r j full on behind lo hi h =
      let xs = s.pos.x_resolution in
      let top = s.pos.y_position * s.pos.y_char_size in
      let last = r - 1 in
      let row : xs * (top + last) + xs ≡ xs * (top + r) = line_below xs top r lo in
      let here : xs * (top + r) + j ≡ xs * (top + last) + columns s.pos * s.pos.x_char_size + j =
        omega (arith, row, full) in
      ap (blanks font_ascii (tab_count s.pos.x_position) fr bk s).fb here
      ∙ blanks_paint (tab_count s.pos.x_position) s (columns s.pos) last j (omega (arith, on))
          behind (omega (arith, lo, hi)) h
