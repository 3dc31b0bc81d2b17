-- ===== src/Strings/Order.antt =====
-- What the comparisons of texts and of memory decide.
use oslib.Prelude.{
  ℕ, zero, suc, ◌+◌, ◌^◌, ◌<◌, ◌≡◌, arith, ◌==◌, if◌then◌else◌, List, [], ◌∷◌, length, take, some,
}
use oslib.Prelude.Int.{ℤ, pos, negsuc, ltb_ℤ}
use oslib.Strings.{Bytes, signed8, strcmp, strncmp}
use oslib.Strings.Text.{IsText}

-- 1 for a greater signed byte, -1 for a smaller one.
abbrev pub sign_of : (first second : ℕ) → ℤ
sign_of first second = if ltb_ℤ (signed8 second) (signed8 first) then pos 1 else negsuc 0

-- The dictionary's order of two texts of signed bytes, in which the end stands for the byte 0.
pub dictionary : List ℕ → List ℕ → ℤ
dictionary [] [] = pos 0
dictionary [] (d ∷ t) = sign_of 0 d
dictionary (c ∷ s) [] = sign_of c 0
dictionary (c ∷ s) (d ∷ t) = let rest = dictionary s t in if c == d then rest else sign_of c d

-- With fuel for the first text `strcmp` ends, with the order of the two texts.
pub strcmp-dictionary :
    (fuel first second : ℕ) (mem : Bytes) (s t : List ℕ)
    → IsText mem first s
    → IsText mem second t
    → length s < fuel
    → strcmp fuel first second mem ≡ some (dictionary s t)
unfolding strcmp dictionary
strcmp-dictionary zero first second mem s t ts tt' h = absurd (omega arith)
strcmp-dictionary (suc fuel) first second mem [] [] ts tt' h = ground (arith, ts, tt')
strcmp-dictionary (suc fuel) first second mem [] (d ∷ t) ts (at, ne, tt') h =
    ground (arith, ts, at, ne)
strcmp-dictionary (suc fuel) first second mem (c ∷ s) [] (at, ne, ts) tt' h =
    ground (arith, at, ne, tt')
strcmp-dictionary (suc fuel) first second mem (c ∷ s) (d ∷ t) (at, ne, ts) (at', ne', tt') h =
    ground (arith, at, ne, at', ne', strcmp-dictionary fuel (first + 1) (second + 1) mem s t ts tt')

-- With fuel for the first text `strncmp` with a count that is not negative ends, with the order of
-- the first bytes of the two texts.
strncmp-dictionary :
    (fuel first second count : ℕ) (mem : Bytes) (s t : List ℕ)
    → IsText mem first s
    → IsText mem second t
    → length s < fuel
    → count < 2 ^ 63
    → strncmp fuel first second count mem ≡ some (dictionary (take count s) (take count t))
unfolding strncmp dictionary
strncmp-dictionary zero first second count mem s t ts tt' h small = absurd (omega arith)
strncmp-dictionary (suc fuel) first second zero mem s t ts tt' h small = ground arith
strncmp-dictionary (suc fuel) first second (suc count) mem [] [] ts tt' h small =
    ground (arith, ts, tt')
strncmp-dictionary (suc fuel) first second (suc count) mem [] (d ∷ t) ts (at, ne, tt') h small =
    ground (arith, ts, at, ne)
strncmp-dictionary (suc fuel) first second (suc count) mem (c ∷ s) [] (at, ne, ts) tt' h small =
    ground (arith, at, ne, tt')
strncmp-dictionary (suc fuel) first second (suc count) mem (c ∷ s) (d ∷ t) (at, ne, ts)
      (at', ne', tt') h small =
    ground (
      arith,
      at,
      ne,
      at',
      ne',
      strncmp-dictionary fuel (first + 1) (second + 1) count mem s t ts tt',
    )
