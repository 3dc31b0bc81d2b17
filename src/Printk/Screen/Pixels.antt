-- ===== src/Printk/Screen/Pixels.antt =====
-- The pixels that `__putchar` writes.
use oslib.Prelude.{
  ℕ, zero, suc, ◌+◌, ◌-◌, ◌*◌, ◌/◌, ◌^◌, ◌≤◌, ◌<◌, ◌≡◌, ◌⊎◌, refl, ap, ◌∙◌, arith, ◌==◌, ◌&&◌, leb,
  ltb, if◌then◌else◌, inl,
}
use oslib.Prelude.Bits.{bit, bit_and_test}
use native.Mathlib.Decide.{dec_lt, ℕ_discrete}
use native.Mathlib.Nat.{pow-suc}
use oslib.Memory.Types.{update}
use oslib.Printk.Screen.{draw_row, draw_rows}

-- The colour of column `j` of a row: digit `7 - j` of its byte.
unfoldable pub colour : (row fr bk j : ℕ) → ℕ
colour row fr bk j = if bit (7 - j) row == 0 then bk else fr

colour_at :
    (left row fr bk : ℕ)
    → left < 8
    → colour row fr bk (7 - left) ≡ (if bit left row == 0 then bk else fr)
unfolding colour
colour_at left row fr bk h = let digit : 7 - (7 - left) ≡ left = omega arith in rw digit

-- The first pixel of a row, and those behind it.
first_pixel :
    (left row addr fr bk : ℕ) (fb : ℕ → ℕ) (p : ℕ)
    → suc left ≤ 8
    → (if leb (addr + 1) p && ltb p (addr + 1 + left)
        then colour row fr bk (8 - left + (p - (addr + 1)))
        else update fb addr (if bit left row == 0 then bk else fr) p)
      ≡ (if leb addr p && ltb p (addr + suc left)
          then colour row fr bk (8 - suc left + (p - addr))
          else fb p)
first_pixel left row addr fr bk fb p h = elim (dec_lt addr p) [
  | yes later ↦
      let same : 8 - left + (p - (addr + 1)) ≡ 8 - suc left + (p - addr) = omega arith in
      ground (arith, ap (colour row fr bk) same)
  | no not_later ↦
      let place : p ≡ addr → 8 - suc left + (p - addr) ≡ 7 - left = λ e. omega arith in
      ground (arith, λ (e : p ≡ addr). ap (colour row fr bk) (place e), colour_at left row fr bk h)
]

inside :
    (row addr fr bk : ℕ) (fb : ℕ → ℕ) (p j : ℕ)
    → j < 8
    → p ≡ addr + j
    → (if leb addr p && ltb p (addr + 8) then colour row fr bk (8 - 8 + (p - addr)) else fb p)
      ≡ colour row fr bk j
inside row addr fr bk fb p j h e =
    let place : 8 - 8 + (p - addr) ≡ j = omega arith in ground (arith, ap (colour row fr bk) place)

pub next_row : (xsize y r r' : ℕ) → r < r' → xsize * (y + r) + xsize ≤ xsize * (y + r')
next_row xsize y r r' h = grind arith

module _ (font : ℕ → ℕ → ℕ) where
  pub draw_row_at :
      (left row addr fr bk : ℕ) (fb : ℕ → ℕ) (p : ℕ)
      → left ≤ 8
      → draw_row font left row (2 ^ left) addr fr bk fb p ≡ (
          if leb addr p && ltb p (addr + left)
          then colour row fr bk (8 - left + (p - addr))
          else fb p)
  unfolding draw_row
  draw_row_at zero row addr fr bk fb p h = ground arith
  draw_row_at (suc left) row addr fr bk fb p h =
      let half : 2 ^ suc left / 2 ≡ 2 ^ left = omega (arith, pow-suc 2 left) in
      let fb' = update fb addr (if bit left row == 0 then bk else fr) in
      rw (half, bit_and_test)
        (draw_row_at left row (addr + 1) fr bk fb' p (omega arith)
          ∙ first_pixel left row addr fr bk fb p h)

  draw_rows_same :
      (left i xsize x y fr bk c : ℕ) (fb : ℕ → ℕ) (p : ℕ)
      → ((r : ℕ) → i ≤ r → r < i + left → (p < xsize * (y + r) + x) ⊎ (xsize * (y + r) + x + 8 ≤ p))
      → draw_rows font left i xsize x y fr bk c fb p ≡ fb p
  unfolding draw_rows
  draw_rows_same zero i xsize x y fr bk c fb p out = refl
  draw_rows_same (suc left) i xsize x y fr bk c fb p out =
      let addr = xsize * (y + i) + x in
      draw_rows_same left (i + 1) xsize x y fr bk c _ p
        (λ r lo hi. out r (omega arith) (omega arith))
      ∙ draw_row_at 8 (font c i) addr fr bk fb p (omega arith)
      ∙ ground (arith, out i (omega arith) (omega arith))

  draw_rows_at :
      (left i xsize x y fr bk c : ℕ) (fb : ℕ → ℕ) (r j : ℕ)
      → x + 8 ≤ xsize
      → j < 8
      → i ≤ r
      → r < i + left
      → draw_rows font left i xsize x y fr bk c fb (xsize * (y + r) + x + j)
        ≡ colour (font c r) fr bk j
  unfolding draw_rows
  draw_rows_at zero i xsize x y fr bk c fb r j fits hj lo hi = absurd (omega arith)
  draw_rows_at (suc left) i xsize x y fr bk c fb r j fits hj lo hi = elim (ℕ_discrete i r) [
    | yes e ↦
        let p = xsize * (y + r) + x + j in
        let addr = xsize * (y + i) + x in
        let here : p ≡ addr + j = omega (arith, ap (λ (t : ℕ). xsize * (y + t)) e) in
        draw_rows_same left (i + 1) xsize x y fr bk c _ p
          (λ r' lo' hi'. inl (omega (arith, next_row xsize y r r' (omega arith))))
        ∙ draw_row_at 8 (font c i) addr fr bk fb p (omega arith)
        ∙ inside (font c i) addr fr bk fb p j hj here
        ∙ ap (λ t. colour (font c t) fr bk j) e
    | no ne ↦ draw_rows_at left (i + 1) xsize x y fr bk c _ r j fits hj (omega arith) (omega arith)
  ]

  -- `__putchar` paints the 16 rows of 8 pixels of the character at `x` and `y`: each pixel has the
  -- foreground colour where the font has a 1 and the background colour where it has a 0. The
  -- character ends within the picture's row.
  pub draw_rows_glyph :
      (xsize x y fr bk c : ℕ) (fb : ℕ → ℕ) (r j : ℕ)
      → x + 8 ≤ xsize
      → r < 16
      → j < 8
      → draw_rows font 16 0 xsize x y fr bk c fb (xsize * (y + r) + x + j)
        ≡ colour (font c r) fr bk j
  draw_rows_glyph xsize x y fr bk c fb r j fits hr hj =
      draw_rows_at 16 0 xsize x y fr bk c fb r j fits hj (omega arith) (omega arith)

  -- Every pixel that is in none of the 16 rows keeps its colour.
  pub draw_rows_outside :
      (xsize x y fr bk c : ℕ) (fb : ℕ → ℕ) (p : ℕ)
      → ((r : ℕ) → r < 16 → (p < xsize * (y + r) + x) ⊎ (xsize * (y + r) + x + 8 ≤ p))
      → draw_rows font 16 0 xsize x y fr bk c fb p ≡ fb p
  draw_rows_outside xsize x y fr bk c fb p out =
      draw_rows_same 16 0 xsize x y fr bk c fb p (λ r lo hi. out r (omega arith))
