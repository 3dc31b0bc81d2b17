-- ===== src/Strings/Copy.antt =====
-- `memcpy` is a copy byte by byte.
use oslib.Prelude.{
  ℕ, zero, suc, ◌+◌, ◌-◌, ◌*◌, ◌/◌, ◌%◌, ◌^◌, ◌≤◌, ◌<◌, ◌≡◌, ◌⊎◌, inl, inr, refl, arith, ◌==◌,
  if◌then◌else◌, bit_and, ap, ◌∙◌, true, false,
}
use native.Mathlib.Decide.{ℕ_discrete}
use oslib.Prelude.Bits.{bit, bit_and_test, bit-mod, bit-le-one}
use oslib.Strings.{Bytes, in_range, Copying, movs, rep_movs, movs_if, memcpy}

-- The memory with `count` bytes copied.
abbrev pub copied : (dst src count : ℕ) → Bytes → Bytes
copied dst src count mem a = if in_range dst count a then mem (src + (a - dst)) else mem a

-- A copy from the lowest address up reads no byte that it has written before.
abbrev pub IsForward : (dst src count : ℕ) → Type 0
IsForward dst src count = (dst ≤ src) ⊎ (src + count ≤ dst)

-- `done` bytes are copied.
record IsCopying (dst src done : ℕ) (mem : Bytes) (c : Copying) : Type 0 where
  from : c.src ≡ src + done
  to : c.dst ≡ dst + done
  bytes : (a : ℕ) → c.mem a ≡ copied dst src done mem a

-- Digit `k` of a count, and what the test of its low byte says.
pub digit_cases :
    (k num : ℕ)
    → k < 8
    → (bit k num ≡ 0) × ((bit_and (num % 2 ^ 8) (2 ^ k) == 0) ≡ true)
      ⊎ (bit k num ≡ 1) × ((bit_and (num % 2 ^ 8) (2 ^ k) == 0) ≡ false)
digit_cases k num low = elim (ℕ_discrete (bit k num) 0) [
  | yes e ↦ inl (e, bit_and_test k (num % 2 ^ 8) ∙ ground (arith, bit-mod 8 k num low, e))
  | no ne ↦
      let one : bit k num ≡ 1 = omega (arith, bit-le-one k num) in
      inr (one, bit_and_test k (num % 2 ^ 8) ∙ ground (arith, bit-mod 8 k num low, one))
]

module _ (dst src : ℕ) (mem : Bytes) where
  movs-IsCopying :
      (done width end : ℕ) {c : Copying}
      → end ≡ done + width
      → IsForward dst src end
      → IsCopying dst src done mem c
      → IsCopying dst src end mem (movs width c)
  unfolding movs
  movs-IsCopying done width end {c} e safe i = record {
    from = omega (arith, i.from);
    to = omega (arith, i.to);
    bytes = λ a. ground (arith, i.from, i.to, i.bytes a, i.bytes (c.src + (a - c.dst)), safe);
  }

  rep_movs-IsCopying :
      (count done end : ℕ) {c : Copying}
      → end ≡ done + count * 8
      → IsForward dst src end
      → IsCopying dst src done mem c
      → IsCopying dst src end mem (rep_movs count 8 c)
  unfolding rep_movs
  rep_movs-IsCopying zero done end e safe i = record {
    from = omega (arith, i.from);
    to = omega (arith, i.to);
    bytes = λ a. ground (arith, i.bytes a);
  }
  rep_movs-IsCopying (suc count) done end e safe i =
      rep_movs-IsCopying count (done + 8) end (omega arith) safe
        (movs-IsCopying done 8 (done + 8) refl (omega (arith, safe)) i)

  -- One of the tests behind `rep movsq`, for digit `k` of the number of bytes.
  movs_if-IsCopying :
      (num k done end : ℕ) {c : Copying}
      → k < 8
      → end ≡ done + bit k num * 2 ^ k
      → IsForward dst src end
      → IsCopying dst src done mem c
      → IsCopying dst src end mem (movs_if num (2 ^ k) c)
  movs_if-IsCopying num k done end {c} low e safe i = elim (digit_cases k num low) [
    | inl (zero_digit, skip) ↦
        let same : end ≡ done = omega (arith, ap (λ (t : ℕ). t * 2 ^ k) zero_digit) in
        rw (skip, same) i
    | inr (one_digit, run) ↦
        let step : end ≡ done + 2 ^ k = omega (arith, ap (λ (t : ℕ). t * 2 ^ k) one_digit) in
        rw run (movs-IsCopying done (2 ^ k) end step safe i)
  ]

  -- `memcpy` leaves the memory with the bytes copied, if it begins at a lower address than its
  -- source or ends at or below it, in whatever pieces it moves them.
  pub memcpy_lem :
      (num a : ℕ) → IsForward dst src num → memcpy dst src num mem a ≡ copied dst src num mem a
  unfolding memcpy
  memcpy_lem num a safe =
      let eights = num / 8 * 8 in
      let fours = eights + bit 2 num * 4 in
      let twos = fours + bit 1 num * 2 in
      let start : IsCopying dst src 0 mem (record { src = src; dst = dst; mem = mem }) = record {
        from = omega arith;
        to = omega arith;
        bytes = λ b. ground arith;
      } in
      let done8 = rep_movs-IsCopying (num / 8) 0 eights (omega arith) (omega (arith, safe)) start in
      let done4 =
        movs_if-IsCopying num 2 eights fours (omega arith) (omega arith) (omega (arith, safe))
          done8 in
      let done2 =
        movs_if-IsCopying num 1 fours twos (omega arith) (omega arith) (omega (arith, safe))
          done4 in
      (movs_if-IsCopying num 0 twos num (omega arith) (omega arith) safe done2).bytes a
