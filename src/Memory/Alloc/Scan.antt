-- ===== src/Memory/Alloc/Scan.antt =====
-- What the search for free pages finds, and that it ends.
use oslib.Prelude.{
  ℕ, zero, suc, ◌+◌, ◌-◌, ◌*◌, ◌/◌, ◌%◌, ◌^◌, ◌≤◌, ◌<◌, ◌≡◌, ◌⊎◌, ap, ◌∙◌, arith, Option, some,
  true, Bool-cases, Option-cases, inl, inr, bit_and, bit_or,
}
use oslib.Prelude.Words.{◌>>>◌, ◌<<<◌}
use oslib.Prelude.Bits.{
  bit, bit-zero, bit-le-one, bit-bit_or, bit-bit_and, bit-low_mask, bit-shr, bit-shl, bit-mod,
}
use oslib.Prelude.Bits.Bounds.{pow-lt-pow}
use mathlib.Core.Path.{subst, subst₂}
use native.Mathlib.Decide.{ℕ_discrete, dec_lt}
use native.Mathlib.Nat.{one-le-pow}
use Prim.Native.Nat.{max}
use oslib.Memory.Types.{page_bit}
use oslib.Memory.Alloc.{run_mask, run_is_free, find_shift, hit, next_block, scan_zone}

pub run_mask_lem : (number : ℕ) → number ≤ 64 → run_mask number ≡ 2 ^ number - 1
run_mask_lem number le = elim (ℕ_discrete number 64) [
  | yes e ↦ rw e
  | no ne ↦
      let same : number % 64 ≡ number = omega arith in
      let small : 2 ^ number < 2 ^ 64 = pow-lt-pow number 64 (omega arith) in
      ground (arith, ap (λ (t : ℕ). 2 ^ t) same, one-le-pow number 2)
]

bit-run_mask : (l number : ℕ) → l < number → number ≤ 64 → bit l (run_mask number) ≡ 1
bit-run_mask l number h le = ap (bit l) (run_mask_lem number le) ∙ bit-low_mask l number h

-- The run of `number` pages from page `64 * q + k` on is free in the bitmap.
abbrev pub RunIsFree : (ℕ → ℕ) → ℕ → ℕ → ℕ → Type 0
RunIsFree bits q k number = (l : ℕ) → l < number → page_bit bits (64 * q + k + l) ≡ 0

-- Digit `l` of the 64 digits that the test looks at.
bit_window :
    (w next k l : ℕ)
    → k < 64
    → l < 64
    → max (bit l (w >>> k)) (bit l (next <<< (64 - k))) ≡ 0
    → (k + l < 64 → bit (k + l) w ≡ 0) × (64 ≤ k + l → bit (k + l - 64) next ≡ 0)
bit_window w next k l hk hl e = (
  λ lo. omega (arith, bit-shr k l w),
  λ hi.
      let s = 64 - k in
      let d = k + l - 64 in
      let count : s % 64 ≡ s = omega arith in
      let place : s + d ≡ l = omega arith in
      omega (
        arith,
        bit-mod 64 l (next * 2 ^ (s % 64)) hl,
        ap (λ (t : ℕ). bit l (next * 2 ^ t)) count,
        ap (λ (t : ℕ). bit t (next * 2 ^ s)) place,
        bit-shl s d next,
      ),
)

-- The page at offset `o` of a word, in that word or in the next one.
page_bit_at :
    (bits : ℕ → ℕ) (q o n : ℕ)
    → n ≡ 64 * q + o
    → o < 128
    → (o < 64 → bit o (bits q) ≡ 0)
    → (64 ≤ o → bit (o - 64) (bits (q + 1)) ≡ 0)
    → page_bit bits n ≡ 0
page_bit_at bits q o n e small lo hi = elim (dec_lt o 64) [
  | yes p ↦
      let r : n % 64 ≡ o = omega arith in let w : n >>> 6 ≡ q = omega arith in rw (r, w) (lo p)
  | no p ↦
      let r : n % 64 ≡ o - 64 = omega arith in
      let w : n >>> 6 ≡ q + 1 = omega arith in rw (r, w) (hi (omega arith))
]

run_is_free_sound :
    (bits : ℕ → ℕ) (q k number : ℕ)
    → k < 64
    → number ≤ 64
    → run_is_free (bits q) (bits (q + 1)) k number ≡ true
    → RunIsFree bits q k number
unfolding run_is_free
run_is_free_sound bits q k number hk le h l hl =
    let window = bit_or (bits q >>> k) (bits (q + 1) <<< (64 - k)) in
    let none_set : bit_and window (run_mask number) ≡ 0 = ground arith in
    let clear : max (bit l (bits q >>> k)) (bit l (bits (q + 1) <<< (64 - k))) ≡ 0 = omega (
      arith,
      ap (bit l) none_set,
      bit-zero l,
      bit-bit_and l window (run_mask number),
      bit-bit_or l (bits q >>> k) (bits (q + 1) <<< (64 - k)),
      bit-run_mask l number hl le,
      bit-le-one l window,
    ) in
    let digits = bit_window (bits q) (bits (q + 1)) k l hk (omega arith) clear in
    page_bit_at bits q (k + l) (64 * q + k + l) (omega arith) (omega arith) digits.0 digits.1

find_shift_sound :
    (bits : ℕ → ℕ) (q number left k : ℕ) {found : ℕ}
    → k + left ≤ 64
    → number ≤ 64
    → find_shift left k (bits q) (bits (q + 1)) number ≡ some found
    → (k ≤ found) × (found < k + left) × RunIsFree bits q found number
unfolding find_shift
find_shift_sound bits q number zero k fits le e = cc
find_shift_sound bits q number (suc left) k {found} fits le e =
    elim (Bool-cases (run_is_free (bits q) (bits (q + 1)) k number)) [
      | inl free ↦
          let same : k ≡ found = ground arith in
          (
            omega arith,
            omega arith,
            subst (λ t. RunIsFree bits q t number) same
                (run_is_free_sound bits q k number (omega arith) le free),
          )
      | inr taken ↦
          let later : find_shift left (k + 1) (bits q) (bits (q + 1)) number ≡ some found =
            ground arith in
          let (lo, hi, free) = find_shift_sound bits q number left (k + 1) (omega arith) le later in
          (omega arith, omega arith, free)
    ]

abbrev shift_at : (ℕ → ℕ) → ℕ → ℕ → Option ℕ
shift_at bits number j =
    find_shift (64 - j % 64 - j % 64) (j % 64) (bits (j >>> 6)) (bits ((j >>> 6) + 1)) number

-- At a hit of the scan of a zone.
pub record IsHit (bits : ℕ → ℕ) (start end number j k : ℕ) : Type 0 where
  pub from_start : start ≤ j
  pub to_end : j ≤ end
  pub on_stride : (j ≡ start) ⊎ (j % 64 ≡ 0)
  pub shift_le : j % 64 ≤ k
  pub shift_lt : k < 64 - j % 64
  pub free : RunIsFree bits (j / 64) k number

pub scan_zone_sound :
    (fuel start end j number : ℕ) (bits : ℕ → ℕ) {j' k : ℕ}
    → start ≤ j
    → (j ≡ start) ⊎ (j % 64 ≡ 0)
    → number ≤ 64
    → scan_zone fuel start end j number bits ≡ hit j' k
    → IsHit bits start end number j' k
unfolding scan_zone
scan_zone_sound zero start end j number bits h on le e = cc
scan_zone_sound (suc fuel) start end j number bits {j'} {k} h on le e =
    elim (Option-cases (shift_at bits number j)) [
      | inl absent ↦
          let within : j ≤ end = ground (arith, absent) in
          let later : scan_zone fuel start end (next_block start j) number bits ≡ hit j' k =
            ground (arith, absent) in
          scan_zone_sound fuel start end (next_block start j) number bits (ground arith)
            (ground arith) le later
      | inr (found, present) ↦
          let within : j ≤ end = ground (arith, present) in
          let at : j ≡ j' = ground (arith, present) in
          let off : found ≡ k = ground (arith, present) in
          let (lo, hi, free) =
            find_shift_sound bits (j / 64) number (64 - j % 64 - j % 64) (j % 64) (omega arith) le
              present in
          subst₂ (IsHit bits start end number) at off (record {
            from_start = h;
            to_end = within;
            on_stride = on;
            shift_le = lo;
            shift_lt = omega arith;
            free = free;
          })
    ]
