-- ===== src/Printk/Font/Read.antt =====
-- What can be read from the pixels of a character.
use oslib.Prelude.{
  is_some_of, is_some_of-eq, all_below, all_below_lem, ℕ, zero, suc, ◌+◌, ◌-◌, ◌*◌, ◌≤◌, ◌<◌, ◌≡◌,
  ◌≢◌, refl, sym, ap, ◌∙◌, arith, Option, none, some, Bool, true, false, List, [], ◌∷◌, ◌==◌, ltb,
  ◌&&◌, if◌then◌else◌,
}
use mathlib.Core.Path.{subst}
use oslib.Prelude.Bits.{bit}
use oslib.Printk.Screen.Pixels.{colour}
use oslib.Printk.Font.{font_ascii}

bytes : all_below 128 (λ c. all_below 16 (λ r. ltb (font_ascii c r) 256)) ≡ true
unfolding font_ascii
bytes = refl

-- The byte whose digits are 1 where the pixels have the colour, the first pixel's digit highest.
pub read_row : ℕ → (fr : ℕ) (fb : ℕ → ℕ) (addr value : ℕ) → ℕ
read_row zero fr fb addr value = value
read_row (suc left) fr fb addr value =
    read_row left fr fb (addr + 1) (2 * value + (if fb addr == fr then 1 else 0))

digits_value : ℕ → (row value : ℕ) → ℕ
digits_value zero row value = value
digits_value (suc left) row value =
    digits_value left row (2 * value + (if bit left row == 0 then 0 else 1))

every_byte : all_below 256 (λ row. digits_value 8 row 0 == row) ≡ true
unfolding digits_value
every_byte = refl

read_row-digits :
    (left row fr bk : ℕ) (fb : ℕ → ℕ) (addr value : ℕ)
    → fr ≢ bk
    → ((j : ℕ) → j < left → fb (addr + j) ≡ (if bit (left - 1 - j) row == 0 then bk else fr))
    → read_row left fr fb addr value ≡ digits_value left row value
unfolding read_row digits_value
read_row-digits zero row fr bk fb addr value ne at = refl
read_row-digits (suc left) row fr bk fb addr value ne at =
    let here : addr + 0 ≡ addr = omega arith in
    let digit : suc left - 1 - 0 ≡ left = omega arith in
    let first : fb addr ≡ (if bit left row == 0 then bk else fr) =
      sym (ap fb here) ∙ at 0 (omega arith) ∙ ap (λ k. if bit k row == 0 then bk else fr) digit in
    ap (λ d. read_row left fr fb (addr + 1) (2 * value + d)) (ground (arith, first, ne))
    ∙ read_row-digits left row fr bk fb (addr + 1) _ ne (λ j h.
      let next : addr + 1 + j ≡ addr + suc j = omega arith in
      let digit : suc left - 1 - suc j ≡ left - 1 - j = omega arith in
      ap fb next
      ∙ at (suc j) (omega (arith, h))
      ∙ ap (λ k. if bit k row == 0 then bk else fr) digit)

-- The rows of a picture on the screen, and in the table.
pub read_rows : ℕ → (i fr : ℕ) (fb : ℕ → ℕ) (xsize x y : ℕ) → List ℕ
read_rows zero i fr fb xsize x y = []
read_rows (suc left) i fr fb xsize x y =
    read_row 8 fr fb (xsize * (y + i) + x) 0 ∷ read_rows left (i + 1) fr fb xsize x y

font_rows : ℕ → (i c : ℕ) → List ℕ
font_rows zero i c = []
font_rows (suc left) i c = font_ascii c i ∷ font_rows left (i + 1) c

same : List ℕ → List ℕ → Bool
same [] [] = true
same (v ∷ vs) (w ∷ ws) = v == w && same vs ws
same _ _ = false

-- The first of the characters from `c` on that has the rows.
find : ℕ → (c : ℕ) → List ℕ → Option ℕ
find zero c rows = none
find (suc left) c rows =
    let rest = find left (c + 1) rows in if same rows (font_rows 16 0 c) then some c else rest

every_character :
    all_below 95 (λ k. is_some_of (find 95 32 (font_rows 16 0 (32 + k))) (32 + k)) ≡ true
unfolding find font_rows font_ascii same
every_character = refl

-- The character whose picture is at a place, in the colour `fr` on some other.
pub read_char : (fr xsize : ℕ) (fb : ℕ → ℕ) (x y : ℕ) → Option ℕ
read_char fr xsize fb x y = find 95 32 (read_rows 16 0 fr fb xsize x y)

-- The 16 rows of 8 pixels at a place are those of the character.
abbrev pub Shows : (c fr bk xsize : ℕ) (fb : ℕ → ℕ) (x y : ℕ) → Type 0
Shows c fr bk xsize fb x y =
    (r j : ℕ) → r < 16 → j < 8 → fb (xsize * (y + r) + x + j) ≡ colour (font_ascii c r) fr bk j

row-value : (c r : ℕ) → c < 128 → r < 16 → digits_value 8 (font_ascii c r) 0 ≡ font_ascii c r
row-value c r hc hr =
    let rows = all_below_lem 128 (λ c. all_below 16 (λ r. ltb (font_ascii c r) 256)) c bytes hc in
    let byte = all_below_lem 16 (λ r. ltb (font_ascii c r) 256) r rows hr in
    let value =
      all_below_lem 256 (λ row. digits_value 8 row 0 == row) (font_ascii c r) every_byte
        (ground (arith, byte)) in
    ground (arith, value)

read_rows-Shows :
    (left i c fr bk xsize : ℕ) (fb : ℕ → ℕ) (x y : ℕ)
    → c < 128
    → fr ≢ bk
    → i + left ≤ 16
    → Shows c fr bk xsize fb x y
    → read_rows left i fr fb xsize x y ≡ font_rows left i c
unfolding read_rows font_rows colour
read_rows-Shows zero i c fr bk xsize fb x y hc ne fits shows = refl
read_rows-Shows (suc left) i c fr bk xsize fb x y hc ne fits shows =
    let row =
      read_row-digits 8 (font_ascii c i) fr bk fb (xsize * (y + i) + x) 0 ne
        (λ j h. shows i j (omega (arith, fits)) h)
      ∙ row-value c i hc (omega (arith, fits)) in
    ap (λ v. v ∷ read_rows left (i + 1) fr fb xsize x y) row
    ∙ ap (λ vs. font_ascii c i ∷ vs)
        (read_rows-Shows left (i + 1) c fr bk xsize fb x y hc ne (omega (arith, fits)) shows)

pub read_char-Shows :
    (c fr bk xsize : ℕ) (fb : ℕ → ℕ) (x y : ℕ)
    → 32 ≤ c
    → c < 127
    → fr ≢ bk
    → Shows c fr bk xsize fb x y
    → read_char fr xsize fb x y ≡ some c
unfolding read_char
read_char-Shows c fr bk xsize fb x y lo hi ne shows =
    let place : 32 + (c - 32) ≡ c = omega (arith, lo) in
    ap (find 95 32)
      (read_rows-Shows 16 0 c fr bk xsize fb x y (omega (arith, hi)) ne (omega arith) shows)
    ∙ subst (λ c. find 95 32 (font_rows 16 0 c) ≡ some c) place
        (is_some_of-eq _ _ (
          all_below_lem 95 (λ k. is_some_of (find 95 32 (font_rows 16 0 (32 + k))) (32 + k))
            (c - 32) every_character (omega (arith, lo, hi))))
