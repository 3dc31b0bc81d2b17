-- ===== src/Strings/Pad.antt =====
-- `strncpy` copies at most a number of bytes, and pads with the byte 0.
use oslib.Prelude.{
  ℕ, zero, suc, ◌+◌, ◌-◌, ◌^◌, ◌<◌, ◌≡◌, arith, ltb, if◌then◌else◌, List, [], ◌∷◌, length, some,
}
use oslib.Memory.Types.{update}
use oslib.Strings.{Bytes, in_range, rep_stos, strncpy}
use oslib.Strings.Copy.{IsForward}
use oslib.Strings.Fill.{IsFull, rep_stos-IsFilling, IsFilling}
use oslib.Strings.Text.{IsText, IsText-congr}

-- The memory with `count` bytes written: the `size` bytes of a text, and zeros.
abbrev pub padded : (dst src size count : ℕ) → Bytes → Bytes
padded dst src size count mem a =
    if in_range dst count a
    then (if ltb (a - dst) size then mem (src + (a - dst)) else 0)
    else mem a

zeros-IsFilling :
    (p count al : ℕ) (mem : Bytes)
    → al ≡ 0
    → IsFilling p 0 count mem (rep_stos count 1 al (record { dst = p; mem = mem }))
unfolding IsFull
zeros-IsFilling p count al mem e =
    rep_stos-IsFilling p 0 al mem count 1 0 count (omega arith) (λ j h. omega (arith, e))
      (record { to = omega arith; bytes = λ b. ground arith })

-- With fuel for the text `strncpy` with a count that is not negative ends, with the first bytes of
-- the text and zeros up to the count, and no other byte changed, if it begins at a lower address
-- than its source or ends at or below it.
strncpy-padded :
    (fuel dst src count : ℕ) (mem : Bytes) (s : List ℕ)
    → IsText mem src s
    → length s < fuel
    → count < 2 ^ 63
    → IsForward dst src (length s + 1)
    → (m : Bytes) × (strncpy fuel dst src count mem ≡ some m)
      × ((a : ℕ) → m a ≡ padded dst src (length s) count mem a)
unfolding strncpy
strncpy-padded zero dst src count mem s t h small safe = absurd (omega arith)
strncpy-padded (suc fuel) dst src zero mem s t h small safe = (mem, ground arith, λ a. ground arith)
strncpy-padded (suc fuel) dst src (suc count) mem [] t h small safe =
    let mem' = update mem dst (mem src) in
    let f = rep_stos count 1 (mem src) (record { dst = dst + 1; mem = mem' }) in
    (
      f.mem,
      ground (arith, t),
      λ a. ground (arith, t, (zeros-IsFilling (dst + 1) count (mem src) mem' t).bytes a),
    )
strncpy-padded (suc fuel) dst src (suc count) mem (c ∷ s) (at, ne, t) h small safe =
    let mem' = update mem dst (mem src) in
    let t' = IsText-congr mem mem' (src + 1) s t (λ a lo hi. ground (arith, safe)) in
    let (m, run, bytes) =
      strncpy-padded fuel (dst + 1) (src + 1) count mem' s t' (omega arith) (omega arith)
        (omega (arith, safe)) in
    (m, ground (arith, run, at, ne), λ a. ground (arith, bytes a, at, safe))
