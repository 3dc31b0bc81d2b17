-- ===== src/Strings/Blocks.antt =====
-- What `memcmp` decides on two blocks of bytes.
use oslib.Prelude.{ℕ, zero, suc, ◌+◌, ◌≤◌, ◌<◌, ◌≡◌, ◌≢◌, ◌⊎◌, inl, inr, arith, true}
use oslib.Prelude.Int.{pos}
use oslib.Strings.{Bytes, Flags, compare_bytes, repe_cmpsb, memcmp, memcpy}
use oslib.Strings.Copy.{memcpy_lem}
use oslib.Strings.Order.{sign_of}

-- The first `count` bytes of two blocks are the same.
abbrev pub SameBytes : (first second count : ℕ) → Bytes → Type 0
SameBytes first second count mem = (i : ℕ) → i < count → mem (first + i) ≡ mem (second + i)

tail_SameBytes :
    (first second count : ℕ) (mem : Bytes)
    → SameBytes first second (suc count) mem
    → SameBytes (first + 1) (second + 1) count mem
tail_SameBytes first second count mem same i h = ground (arith, same (i + 1))

repe_cmpsb-equal :
    (count first second : ℕ) (mem : Bytes) (flags : Flags)
    → (flags.equal ≡ true) ⊎ (0 < count)
    → SameBytes first second count mem
    → (repe_cmpsb count first second mem flags).equal ≡ true
unfolding repe_cmpsb
repe_cmpsb-equal zero first second mem flags e same = ground (arith, e)
repe_cmpsb-equal (suc count) first second mem flags e same =
    let now = compare_bytes (mem second) (mem first) in
    let equal : now.equal ≡ true = ground (arith, same 0) in
    ground (
      arith,
      same 0,
      repe_cmpsb-equal count (first + 1) (second + 1) mem now (inl equal)
          (tail_SameBytes first second count mem same),
    )

repe_cmpsb-difference :
    (k count first second : ℕ) (mem : Bytes) (flags : Flags)
    → k < count
    → SameBytes first second k mem
    → mem (first + k) ≢ mem (second + k)
    → repe_cmpsb count first second mem flags ≡ compare_bytes (mem (second + k)) (mem (first + k))
unfolding repe_cmpsb
repe_cmpsb-difference k zero first second mem flags h same differ = absurd (omega arith)
repe_cmpsb-difference zero (suc count) first second mem flags h same differ = ground (arith, differ)
repe_cmpsb-difference (suc k) (suc count) first second mem flags h same differ =
    let now = compare_bytes (mem second) (mem first) in
    ground (
      arith,
      same 0,
      differ,
      repe_cmpsb-difference k count (first + 1) (second + 1) mem now (omega arith)
          (tail_SameBytes first second k mem same),
    )

-- The first two bytes that differ decide `memcmp`: it is 1 if the first block's is the greater one
-- as an int8, and -1 if it is the smaller one.
memcmp-sign_of :
    (flags : Flags) (first second count k : ℕ) (mem : Bytes)
    → k < count
    → SameBytes first second k mem
    → mem (first + k) ≢ mem (second + k)
    → memcmp flags first second count mem ≡ sign_of (mem (first + k)) (mem (second + k))
unfolding memcmp
memcmp-sign_of flags first second count k mem h same differ =
    ground (arith, differ, repe_cmpsb-difference k count first second mem flags h same differ)

-- A block of at least one byte that `memcpy` has copied to a place apart from it is equal to the
-- copy for `memcmp`, whatever the flags were.
memcmp-memcpy :
    (flags : Flags) (dst src num : ℕ) (mem : Bytes)
    → 0 < num
    → (dst + num ≤ src) ⊎ (src + num ≤ dst)
    → memcmp flags dst src num (memcpy dst src num mem) ≡ pos 0
unfolding memcmp
memcmp-memcpy flags dst src num mem some_byte apart =
    let forward : (dst ≤ src) ⊎ (src + num ≤ dst) = ground (arith, apart) in
    let same : SameBytes dst src num (memcpy dst src num mem) = λ i h. ground (
      arith,
      apart,
      memcpy_lem dst src mem num (dst + i) forward,
      memcpy_lem dst src mem num (src + i) forward,
    ) in
    ground (arith, repe_cmpsb-equal num dst src (memcpy dst src num mem) flags (inr some_byte) same)
