-- ===== src/Printk/Font/Line.antt =====
-- Text that is printed within a row of the screen can be read back from the pixels.
use mathlib.Core.Path.{subst}
use native.Mathlib.Decide.{dec_lt, ℕ_discrete}
use oslib.Prelude.{
  ℕ, zero, suc, ◌+◌, ◌*◌, ◌/◌, ◌≤◌, ◌<◌, ◌≡◌, ◌≢◌, ◌⊎◌, inl, inr, refl, sym, ap, ◌∙◌, arith, Option,
  some, List, [], ◌∷◌, length,
}
use oslib.Printk.Screen.{Screen, columns, rows, move, wrap, draw, place, print_char, print_chars}
use oslib.Printk.Screen.Pixels.{next_row, draw_rows_glyph, draw_rows_outside}
use oslib.Printk.Font.{font_ascii}
use oslib.Printk.Font.Read.{read_char, Shows, read_char-Shows}

abbrev pub IsPrintable : List ℕ → Type 0
IsPrintable [] = Unit
IsPrintable (c ∷ text) = ((32 ≤ c) × (c < 127)) × IsPrintable text

-- The characters at `n` places of row `y` from column `x` on.
pub read_text : ℕ → (fr : ℕ) (s : Screen) (x y : ℕ) → List (Option ℕ)
read_text zero fr s x y = []
read_text (suc left) fr s x y =
    read_char fr s.pos.x_resolution s.fb (x * s.pos.x_char_size) (y * s.pos.y_char_size)
    ∷ read_text left fr s (x + 1) y

abbrev pub each_some : List ℕ → List (Option ℕ)
each_some [] = []
each_some (c ∷ text) = some c ∷ each_some text

cell_fits : (xs w x : ℕ) → 8 ≤ w → x < xs / w → x * w + 8 ≤ xs
cell_fits xs w x wide h = grind arith

cell_before : (w x x' : ℕ) → 8 ≤ w → x < x' → x * w + 8 ≤ x' * w
cell_before w x x' wide h = grind arith

-- A pixel of a cell is in none of the rows of one on its right.
beside :
    (xs x x' y r j : ℕ)
    → x + 8 ≤ x'
    → x' + 8 ≤ xs
    → j < 8
    → (r' : ℕ) → r' < 16
    → (xs * (y + r) + x + j < xs * (y + r') + x') ⊎ (xs * (y + r') + x' + 8 ≤ xs * (y + r) + x + j)
beside xs x x' y r j before fits h r' h' = elim (dec_lt r' r) [
  | yes above ↦ inr (omega (arith, next_row xs y r' r above, fits))
  | no not_above ↦ elim (ℕ_discrete r r') [
    | yes same ↦ inl (omega (arith, ap (λ r. xs * (y + r)) same, before, h))
    | no other ↦
        inl (omega (arith, next_row xs y r r' (omega (arith, not_above, other)), before, fits, h))
  ]
]

module _ (fr bk : ℕ) where
  -- A printable character goes to the cursor's place.
  drawn-Shows :
      (c : ℕ) (s : Screen)
      → 8 ≤ s.pos.x_char_size
      → s.pos.x_position < columns s.pos
      → Shows c fr bk s.pos.x_resolution
          (draw font_ascii fr bk c s).fb
          (s.pos.x_position * s.pos.x_char_size)
          (s.pos.y_position * s.pos.y_char_size)
  unfolding draw
  drawn-Shows c s wide on r j hr hj =
      draw_rows_glyph font_ascii s.pos.x_resolution _ _ fr bk c s.fb r j
        (cell_fits s.pos.x_resolution s.pos.x_char_size s.pos.x_position wide on) hr hj

  drawn_beside :
      (c c' x : ℕ) (s : Screen)
      → 8 ≤ s.pos.x_char_size
      → s.pos.x_position < columns s.pos
      → x < s.pos.x_position
      → Shows c' fr bk s.pos.x_resolution s.fb
          (x * s.pos.x_char_size)
          (s.pos.y_position * s.pos.y_char_size)
      → Shows c' fr bk s.pos.x_resolution
          (draw font_ascii fr bk c s).fb
          (x * s.pos.x_char_size)
          (s.pos.y_position * s.pos.y_char_size)
  unfolding draw
  drawn_beside c c' x s wide on left shows r j hr hj =
      let w = s.pos.x_char_size in
      draw_rows_outside font_ascii s.pos.x_resolution (s.pos.x_position * w)
        (s.pos.y_position * s.pos.y_char_size) fr bk c s.fb _
        (beside s.pos.x_resolution (x * w) (s.pos.x_position * w)
          (s.pos.y_position * s.pos.y_char_size) r j (cell_before w x s.pos.x_position wide left)
          (cell_fits s.pos.x_resolution w s.pos.x_position wide on) hj)
      ∙ shows r j hr hj

  print_char_fb :
      (c : ℕ) (s : Screen)
      → 32 ≤ c
      → (print_char font_ascii fr bk c s).fb ≡ (draw font_ascii fr bk c s).fb
  unfolding print_char place wrap
  print_char_fb c s lo = ground (arith, lo)

  print_char_next :
      (c : ℕ) (s : Screen)
      → 32 ≤ c
      → s.pos.x_position + 1 < columns s.pos
      → s.pos.y_position < rows s.pos
      → print_char font_ascii fr bk c s
        ≡ move (draw font_ascii fr bk c s) (s.pos.x_position + 1) s.pos.y_position
  unfolding print_char place wrap draw
  print_char_next c s lo on row = ground (arith, lo, on, row)

  -- What stands on the left of the cursor stays.
  kept :
      (text : List ℕ) (s : Screen) (c x : ℕ)
      → IsPrintable text
      → 8 ≤ s.pos.x_char_size
      → s.pos.y_position < rows s.pos
      → s.pos.x_position + length text ≤ columns s.pos
      → x < s.pos.x_position
      → Shows c fr bk s.pos.x_resolution s.fb
          (x * s.pos.x_char_size)
          (s.pos.y_position * s.pos.y_char_size)
      → Shows c fr bk s.pos.x_resolution
          (print_chars font_ascii fr bk text s).fb
          (x * s.pos.x_char_size)
          (s.pos.y_position * s.pos.y_char_size)
  unfolding print_chars draw
  kept [] s c x fine wide row room left shows = shows
  kept (d ∷ []) s c x fine wide row room left shows =
      subst
        (λ fb.
          Shows c fr bk s.pos.x_resolution fb (x * s.pos.x_char_size)
            (s.pos.y_position * s.pos.y_char_size))
        (sym (print_char_fb d s fine.0.0))
        (drawn_beside d c x s wide (omega (arith, room)) left shows)
  kept (d ∷ e ∷ text) s c x fine wide row room left shows =
      let t = move (draw font_ascii fr bk d s) (s.pos.x_position + 1) s.pos.y_position in
      subst
        (λ (u : Screen).
          Shows c fr bk s.pos.x_resolution (print_chars font_ascii fr bk (e ∷ text) u).fb
            (x * s.pos.x_char_size) (s.pos.y_position * s.pos.y_char_size))
        (sym (print_char_next d s fine.0.0 (omega (arith, room)) row))
        (kept (e ∷ text) t c x fine.1 wide row (omega (arith, room)) (omega (arith, left))
          (drawn_beside d c x s wide (omega (arith, room)) left shows))

  -- Each character of the text at its place.
  ShowsText : List ℕ → (xs w y : ℕ) (fb : ℕ → ℕ) (x : ℕ) → Type 0
  ShowsText [] xs w y fb x = Unit
  ShowsText (c ∷ text) xs w y fb x =
      Shows c fr bk xs fb (x * w) y × ShowsText text xs w y fb (x + 1)

  print_chars-ShowsText :
      (text : List ℕ) (s : Screen)
      → IsPrintable text
      → 8 ≤ s.pos.x_char_size
      → s.pos.y_position < rows s.pos
      → s.pos.x_position + length text ≤ columns s.pos
      → ShowsText text s.pos.x_resolution s.pos.x_char_size
          (s.pos.y_position * s.pos.y_char_size)
          (print_chars font_ascii fr bk text s).fb
          s.pos.x_position
  unfolding print_chars draw ShowsText
  print_chars-ShowsText [] s fine wide row room = tt
  print_chars-ShowsText (d ∷ []) s fine wide row room = (
    subst
        (λ fb.
          Shows d fr bk s.pos.x_resolution fb (s.pos.x_position * s.pos.x_char_size)
            (s.pos.y_position * s.pos.y_char_size))
        (sym (print_char_fb d s fine.0.0)) (drawn-Shows d s wide (omega (arith, room))),
    tt,
  )
  print_chars-ShowsText (d ∷ e ∷ text) s fine wide row room =
      let t = move (draw font_ascii fr bk d s) (s.pos.x_position + 1) s.pos.y_position in
      let next = sym (print_char_next d s fine.0.0 (omega (arith, room)) row) in
      subst
        (λ (u : Screen).
          ShowsText (d ∷ e ∷ text) s.pos.x_resolution s.pos.x_char_size
            (s.pos.y_position * s.pos.y_char_size) (print_chars font_ascii fr bk (e ∷ text) u).fb
            s.pos.x_position)
        next
        (
          kept (e ∷ text) t d s.pos.x_position fine.1 wide row (omega (arith, room)) (omega arith)
              (drawn-Shows d s wide (omega (arith, room))),
          print_chars-ShowsText (e ∷ text) t fine.1 wide row (omega (arith, room)),
        )

  read_text-ShowsText :
      (text : List ℕ) (s : Screen) (x y : ℕ)
      → IsPrintable text
      → fr ≢ bk
      → ShowsText text s.pos.x_resolution s.pos.x_char_size (y * s.pos.y_char_size) s.fb x
      → read_text (length text) fr s x y ≡ each_some text
  unfolding read_text ShowsText
  read_text-ShowsText [] s x y fine ne shows = refl
  read_text-ShowsText (c ∷ text) s x y fine ne (here, rest) =
      ap (λ o. o ∷ read_text (length text) fr s (x + 1) y)
        (read_char-Shows c fr bk s.pos.x_resolution s.fb _ _ fine.0.0 fine.0.1 ne here)
      ∙ ap (λ os. some c ∷ os) (read_text-ShowsText text s (x + 1) y fine.1 ne rest)

  -- Text of printable characters that fits the rest of the cursor's row is on the screen from there
  -- on, in pictures that no two characters share: it can be read back from the pixels, if the two
  -- colours differ and characters are at least 8 pixels wide.
  pub read_text-print_chars :
      (text : List ℕ) (s : Screen)
      → IsPrintable text
      → fr ≢ bk
      → 8 ≤ s.pos.x_char_size
      → s.pos.y_position < rows s.pos
      → s.pos.x_position + length text ≤ columns s.pos
      → read_text
          (length text)
          fr
          (record s { fb = (print_chars font_ascii fr bk text s).fb })
          s.pos.x_position
          s.pos.y_position
        ≡ each_some text
  read_text-print_chars text s fine ne wide row room =
      read_text-ShowsText text (record s { fb = (print_chars font_ascii fr bk text s).fb })
        s.pos.x_position s.pos.y_position fine ne (print_chars-ShowsText text s fine wide row room)
