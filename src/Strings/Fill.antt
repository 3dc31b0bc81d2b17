-- ===== src/Strings/Fill.antt =====
-- `memset` fills a range byte by byte.
use oslib.Prelude.{
  ℕ, zero, suc, ◌+◌, ◌-◌, ◌*◌, ◌/◌, ◌%◌, ◌^◌, ◌≤◌, ◌<◌, ◌≡◌, inl, inr, refl, ap, arith,
  if◌then◌else◌,
}
use oslib.Prelude.Bits.{bit}
use oslib.Strings.{Bytes, in_range, Filling, stos, rep_stos, stos_if, memset}
use oslib.Strings.Copy.{digit_cases}

-- The memory with `count` bytes set.
abbrev pub filled : (p c count : ℕ) → Bytes → Bytes
filled p c count mem a = if in_range p count a then c else mem a

-- `done` bytes are set.
pub record IsFilling (p c done : ℕ) (mem : Bytes) (f : Filling) : Type 0 where
  pub to : f.dst ≡ p + done
  pub bytes : (a : ℕ) → f.mem a ≡ filled p c done mem a

-- The low byte of `rax`, for `stosb`; and all its bytes, for a byte that fills the register.
unfoldable pub IsFull : (width rax c : ℕ) → Type 0
IsFull width rax c = (j : ℕ) → j < width → rax / 2 ^ (8 * j) % 2 ^ 8 ≡ c

register-IsFull : (c : ℕ) → c < 2 ^ 8 → IsFull 8 (c * 0x0101010101010101 % 2 ^ 64) c
unfolding IsFull
register-IsFull c small zero h = omega arith
register-IsFull c small (suc zero) h = omega arith
register-IsFull c small (suc (suc zero)) h = omega arith
register-IsFull c small (suc (suc (suc zero))) h = omega arith
register-IsFull c small (suc (suc (suc (suc zero)))) h = omega arith
register-IsFull c small (suc (suc (suc (suc (suc zero))))) h = omega arith
register-IsFull c small (suc (suc (suc (suc (suc (suc zero)))))) h = omega arith
register-IsFull c small (suc (suc (suc (suc (suc (suc (suc zero))))))) h = omega arith
register-IsFull c small (suc (suc (suc (suc (suc (suc (suc (suc j)))))))) h = absurd (omega arith)

narrow-IsFull : (w width rax c : ℕ) → w ≤ width → IsFull width rax c → IsFull w rax c
unfolding IsFull
narrow-IsFull w width rax c le full j h = full j (omega arith)

module _ (p c rax : ℕ) (mem : Bytes) where
  stos-IsFilling :
      (done width end : ℕ) {f : Filling}
      → end ≡ done + width
      → IsFull width rax c
      → IsFilling p c done mem f
      → IsFilling p c end mem (stos width rax f)
  unfolding stos IsFull
  stos-IsFilling done width end {f} e full i = record {
    to = omega (arith, i.to);
    bytes = λ a. ground (arith, i.to, i.bytes a, full (a - f.dst));
  }

  pub rep_stos-IsFilling :
      (count width done end : ℕ) {f : Filling}
      → end ≡ done + count * width
      → IsFull width rax c
      → IsFilling p c done mem f
      → IsFilling p c end mem (rep_stos count width rax f)
  unfolding rep_stos
  rep_stos-IsFilling zero width done end e full i = record {
    to = omega (arith, i.to);
    bytes = λ a. ground (arith, i.bytes a);
  }
  rep_stos-IsFilling (suc count) width done end e full i =
      rep_stos-IsFilling count width (done + width) end (grind arith) full
        (stos-IsFilling done width (done + width) refl full i)

  stos_if-IsFilling :
      (num k done end : ℕ) {f : Filling}
      → k < 8
      → end ≡ done + bit k num * 2 ^ k
      → IsFull (2 ^ k) rax c
      → IsFilling p c done mem f
      → IsFilling p c end mem (stos_if num (2 ^ k) rax f)
  stos_if-IsFilling num k done end {f} low e full i = elim (digit_cases k num low) [
    | inl (zero_digit, skip) ↦
        let same : end ≡ done = omega (arith, ap (λ (t : ℕ). t * 2 ^ k) zero_digit) in
        rw (skip, same) i
    | inr (one_digit, run) ↦
        let step : end ≡ done + 2 ^ k = omega (arith, ap (λ (t : ℕ). t * 2 ^ k) one_digit) in
        rw run (stos-IsFilling done (2 ^ k) end step full i)
  ]

-- `memset` leaves the memory with the bytes set to a byte, and no other byte changed.
memset_lem :
    (p c count a : ℕ) (mem : Bytes) → c < 2 ^ 8 → memset p c count mem a ≡ filled p c count mem a
unfolding memset
memset_lem p c count a mem small =
    let rax = c * 0x0101010101010101 % 2 ^ 64 in
    let full = register-IsFull c small in
    let eights = count / 8 * 8 in
    let fours = eights + bit 2 count * 4 in
    let twos = fours + bit 1 count * 2 in
    let start : IsFilling p c 0 mem (record { dst = p; mem = mem }) = record {
      to = omega arith;
      bytes = λ b. ground arith;
    } in
    let done8 = rep_stos-IsFilling p c rax mem (count / 8) 8 0 eights (omega arith) full start in
    let done4 =
      stos_if-IsFilling p c rax mem count 2 eights fours (omega arith) (omega arith)
        (narrow-IsFull 4 8 rax c (omega arith) full) done8 in
    let done2 =
      stos_if-IsFilling p c rax mem count 1 fours twos (omega arith) (omega arith)
        (narrow-IsFull 2 8 rax c (omega arith) full) done4 in
    (stos_if-IsFilling p c rax mem count 0 twos count (omega arith) (omega arith)
        (narrow-IsFull 1 8 rax c (omega arith) full) done2).bytes
      a
