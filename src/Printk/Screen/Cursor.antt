-- ===== src/Printk/Screen/Cursor.antt =====
-- Where the cursor is after a character, and where the wrapped backspace draws.
use oslib.Prelude.{ℕ, zero, suc, ◌+◌, ◌-◌, ◌*◌, ◌/◌, ◌≤◌, ◌<◌, ◌≡◌, arith}
use mathlib.Core.Path.{ap₂}
use oslib.Printk.Screen.{
  Position, Screen, columns, rows, move, wrap, draw, step_back, tab_count, blanks, place,
  print_char,
}

-- The cursor is on the grid of characters.
pub record IsOnGrid (p : Position) : Type 0 where
  pub column : p.x_position < columns p
  pub row : p.y_position < rows p

-- Nothing but the cursor changed.
pub record SameSizes (p q : Position) : Type 0 where
  pub x_resolution : q.x_resolution ≡ p.x_resolution
  pub y_resolution : q.y_resolution ≡ p.y_resolution
  pub x_char_size : q.x_char_size ≡ p.x_char_size
  pub y_char_size : q.y_char_size ≡ p.y_char_size

wrap-IsOnGrid : (s : Screen) → 0 < columns s.pos → 0 < rows s.pos → IsOnGrid (wrap s).pos
unfolding wrap
wrap-IsOnGrid s h k = ground arith

twice_scaled : (r h : ℕ) → 2 ≤ r → 3 ≤ h → r + 1 ≤ (r - 1) * h
twice_scaled r h two three = let step : (r - 1) * 3 ≤ (r - 1) * h = grind arith in omega arith

module _ (font : ℕ → ℕ → ℕ) where
  blanks_sizes : (n fr bk : ℕ) (s : Screen) → SameSizes s.pos (blanks font n fr bk s).pos
  unfolding blanks draw
  blanks_sizes zero fr bk s = ground arith
  blanks_sizes (suc n) fr bk s = ground (
    arith,
    blanks_sizes n fr bk (move (draw font fr bk b' ' s) (s.pos.x_position + 1) s.pos.y_position),
  )

  place_sizes : (fr bk c : ℕ) (s : Screen) → SameSizes s.pos (place font fr bk c s).pos
  unfolding place draw
  place_sizes fr bk c s = ground (arith, blanks_sizes (tab_count s.pos.x_position) fr bk s)

  -- After every character, a backspace among them, the cursor is on the grid, if the screen has
  -- room for one character.
  pub print_char-IsOnGrid :
      (fr bk c : ℕ) (s : Screen)
      → 0 < columns s.pos
      → 0 < rows s.pos
      → IsOnGrid (print_char font fr bk c s).pos × SameSizes s.pos (print_char font fr bk c s).pos
  unfolding print_char
  print_char-IsOnGrid fr bk c s h k =
      let t = place font fr bk c s in
      let z = place_sizes fr bk c s in
      let col : columns t.pos ≡ columns s.pos = ap₂ ◌/◌ z.x_resolution z.x_char_size in
      let row : rows t.pos ≡ rows s.pos = ap₂ ◌/◌ z.y_resolution z.y_char_size in
      (
        wrap-IsOnGrid t (omega arith) (omega arith),
        unfold wrap in
            record {
              x_resolution = z.x_resolution;
              y_resolution = z.y_resolution;
              x_char_size = z.x_char_size;
              y_char_size = z.y_char_size;
            },
      )

  -- A backspace in the first column of the first row draws its blank at a character row that
  -- begins below the picture, if there are at least two rows of characters, of at least three
  -- pixels each, and less than a row of the picture is left below them.
  pub backspace_at_home :
      (fr bk : ℕ) (s : Screen)
      → s.pos.x_position ≡ 0
      → s.pos.y_position ≡ 0
      → 2 ≤ rows s.pos
      → 3 ≤ s.pos.y_char_size
      → s.pos.y_resolution < (rows s.pos + 1) * s.pos.y_char_size
      → (x y : ℕ) × (place font fr bk 8 s ≡ draw font fr bk b' ' (move s x y))
        × (s.pos.y_resolution ≤ y * s.pos.y_char_size)
  unfolding place step_back
  backspace_at_home fr bk s x0 y0 two three fills =
      let h = s.pos.y_char_size in
      let y = (rows s.pos - 1) * h in
      let below : rows s.pos + 1 ≤ y = twice_scaled (rows s.pos) h two three in
      let far : (rows s.pos + 1) * h ≤ y * h = grind arith in
      ((columns s.pos - 1) * s.pos.x_char_size, y, ground (arith, x0, y0), omega arith)
