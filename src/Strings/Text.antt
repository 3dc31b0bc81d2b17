-- ===== src/Strings/Text.antt =====
-- Texts in memory: the functions on strings that end in a byte 0.
use oslib.Prelude.{
  ℕ, zero, suc, ◌+◌, ◌-◌, ◌^◌, ◌≤◌, ◌<◌, ◌≡◌, ◌≢◌, refl, sym, ap, ◌∙◌, arith, List, [], ◌∷◌, ◌++◌,
  length, some,
}
use mathlib.Core.Path.{subst}
use oslib.Prelude.Int.{pos}
use oslib.Memory.Types.{update}
use oslib.Strings.{Bytes, memcpy, strcpy, strcat, strlen, repne_scasb}
use oslib.Strings.Copy.{copied, IsForward, memcpy_lem}

-- The text `s` lies at `p`, with the byte 0 behind it.
abbrev pub IsText : (mem : Bytes) (p : ℕ) → List ℕ → Type 0
IsText mem p [] = mem p ≡ 0
IsText mem p (c ∷ s) = (mem p ≡ c) × (c ≢ 0) × IsText mem (p + 1) s

pub IsText-congr :
    (mem mem' : Bytes) (p : ℕ) (s : List ℕ)
    → IsText mem p s
    → ((a : ℕ) → p ≤ a → a ≤ p + length s → mem' a ≡ mem a)
    → IsText mem' p s
IsText-congr mem mem' p [] t same = same p (omega arith) (omega arith) ∙ t
IsText-congr mem mem' p (c ∷ s) (at, ne, t) same = (
  same p (omega arith) (omega arith) ∙ at,
  ne,
  IsText-congr mem mem' (p + 1) s t (λ a lo hi. same a (omega arith) (omega arith)),
)

repne_scasb-IsText :
    (count p : ℕ) (mem : Bytes) (s : List ℕ)
    → IsText mem p s
    → length s < count
    → (repne_scasb count p mem).0 + length s + 1 ≡ count
      × (repne_scasb count p mem).1 ≡ p + length s + 1
unfolding repne_scasb
repne_scasb-IsText zero p mem s t h = absurd (omega arith)
repne_scasb-IsText (suc count) p mem [] t h = ground (arith, t)
repne_scasb-IsText (suc count) p mem (c ∷ s) (at, ne, t) h =
    ground (arith, at, ne, repne_scasb-IsText count (p + 1) mem s t)

-- `strlen` is the length of a text, if that is an int32.
strlen-IsText :
    (p : ℕ) (mem : Bytes) (s : List ℕ)
    → IsText mem p s
    → length s < 2 ^ 31
    → strlen p mem ≡ pos (length s)
unfolding strlen
strlen-IsText p mem s t h = ground (arith, repne_scasb-IsText (2 ^ 32 - 1) p mem s t (omega arith))

-- With fuel for its text `strcpy` ends, with the memory in which the text and its byte 0 are copied.
strcpy-copied :
    (fuel dst src : ℕ) (mem : Bytes) (s : List ℕ)
    → IsText mem src s
    → length s < fuel
    → IsForward dst src (length s + 1)
    → (m : Bytes) × (strcpy fuel dst src mem ≡ some m)
      × ((a : ℕ) → m a ≡ copied dst src (length s + 1) mem a)
unfolding strcpy
strcpy-copied zero dst src mem s t h safe = absurd (omega arith)
strcpy-copied (suc fuel) dst src mem [] t h safe =
    (update mem dst (mem src), ground (arith, t), λ a. ground (arith, t))
strcpy-copied (suc fuel) dst src mem (c ∷ s) (at, ne, t) h safe =
    let mem' = update mem dst (mem src) in
    let t' = IsText-congr mem mem' (src + 1) s t (λ a lo hi. ground (arith, safe)) in
    let (m, run, bytes) =
      strcpy-copied fuel (dst + 1) (src + 1) mem' s t' (omega arith) (omega (arith, safe)) in
    (m, ground (arith, run, at, ne), λ a. ground (arith, bytes a, safe))

-- With fuel for its text `strcpy` ends, and leaves the memory that `memcpy` of the text and its byte
-- 0 leaves, if it begins at a lower address than its source or ends at or below it.
pub strcpy-memcpy :
    (fuel dst src : ℕ) (mem : Bytes) (s : List ℕ)
    → IsText mem src s
    → length s < fuel
    → IsForward dst src (length s + 1)
    → (m : Bytes) × (strcpy fuel dst src mem ≡ some m)
      × ((a : ℕ) → m a ≡ memcpy dst src (length s + 1) mem a)
strcpy-memcpy fuel dst src mem s t h safe =
    let (m, run, bytes) = strcpy-copied fuel dst src mem s t h safe in
    (m, run, λ a. bytes a ∙ sym (memcpy_lem dst src mem (length s + 1) a safe))

copied-IsText :
    (m mem : Bytes) (dst src : ℕ) (s : List ℕ)
    → IsText mem src s
    → ((i : ℕ) → i ≤ length s → m (dst + i) ≡ mem (src + i))
    → IsText m dst s
copied-IsText m mem dst src [] t same = ground (arith, same 0, t)
copied-IsText m mem dst src (c ∷ s) (at, ne, t) same = (
  ground (arith, same 0, at),
  ne,
  copied-IsText m mem (dst + 1) (src + 1) s t (λ i le. ground (arith, same (i + 1))),
)

append-IsText :
    (m mem : Bytes) (p q : ℕ) (d s : List ℕ)
    → q ≡ p + length d
    → IsText mem p d
    → ((a : ℕ) → a < q → m a ≡ mem a)
    → IsText m q s
    → IsText m p (d ++ s)
append-IsText m mem p q [] s e t same rest =
    let at : q ≡ p = omega arith in subst (λ x. IsText m x s) at rest
append-IsText m mem p q (c ∷ d) s e (at, ne, t) same rest =
    (same p (omega arith) ∙ at, ne, append-IsText m mem (p + 1) q d s (omega arith) t same rest)

-- With fuel for the second text `strcat` ends, and leaves both texts one behind the other at the
-- first one's address, if the second one lies behind the end of the first, or below it with room.
pub strcat-IsText :
    (fuel dest src : ℕ) (mem : Bytes) (d s : List ℕ)
    → IsText mem dest d
    → IsText mem src s
    → length d < 2 ^ 32 - 1
    → length s < fuel
    → IsForward (dest + length d) src (length s + 1)
    → (m : Bytes) × (strcat fuel dest src mem ≡ some m) × IsText m dest (d ++ s)
unfolding strcat
strcat-IsText fuel dest src mem d s td ts hd hs safe =
    let end : (repne_scasb (2 ^ 32 - 1) dest mem).1 - 1 ≡ dest + length d =
      omega (arith, repne_scasb-IsText (2 ^ 32 - 1) dest mem d td hd) in
    let (m, run, bytes) = strcpy-copied fuel (dest + length d) src mem s ts hs safe in
    (
      m,
      ap (λ p. strcpy fuel p src mem) end ∙ run,
      append-IsText m mem dest (dest + length d) d s refl td (λ a lt. ground (arith, bytes a))
          (copied-IsText m mem (dest + length d) src s ts
            (λ i le. ground (arith, bytes (dest + length d + i)))),
    )
