-- ===== src/Strings.antt =====
-- The memory and string functions of cOS/kernel/include/lib.h, instruction by instruction. Memory
-- is a function from addresses to bytes; `rep`, `repe` and `repne` are recursions on the count in
-- `rcx`, and a loop that only the data ends takes fuel. Addresses do not wrap around.
pub mod Copy
pub mod Fill
pub mod Pad
pub mod Blocks
pub mod Order
pub mod Text
mod Examples
use oslib.Prelude.{
  ℕ, zero, suc, ◌+◌, ◌-◌, ◌*◌, ◌/◌, ◌%◌, ◌^◌, Bool, true, false, not, ◌&&◌, ◌==◌, ltb, leb,
  if◌then◌else◌, Option, none, some, bit_and, bit_or,
}
use oslib.Prelude.Words.{sub64, not64, ◌<<<◌}
use oslib.Prelude.Int.{ℤ, pos, negsuc, ltb_ℤ, signed32}
use oslib.Memory.Types.{update}

abbrev pub Bytes : Type 0
Bytes = ℕ → ℕ

-- `a` is one of the `count` addresses from `p` on.
abbrev pub in_range : (p count a : ℕ) → Bool
in_range p count a = leb p a && ltb a (p + count)

-- `rsi`, `rdi` and the memory.
pub record Copying : Type 0 where
  pub src : ℕ
  pub dst : ℕ
  pub mem : Bytes

-- `movsb`, `movsw`, `movsl` and `movsq` by their width: the source is read before the store.
pub movs : (width : ℕ) → Copying → Copying
movs width c = record {
  src = c.src + width;
  dst = c.dst + width;
  mem = λ a. if in_range c.dst width a then c.mem (c.src + (a - c.dst)) else c.mem a;
}

pub rep_movs : (count width : ℕ) → Copying → Copying
rep_movs zero width c = c
rep_movs (suc count) width c = rep_movs count width (movs width c)

-- `testb $bit, %b; je 1f; movs`
abbrev pub movs_if : (num bit : ℕ) → Copying → Copying
movs_if num bit c = if bit_and (num % 2 ^ 8) bit == 0 then c else movs bit c

pub memcpy : (dst src num : ℕ) → Bytes → Bytes
memcpy dst src num mem =
    let c = rep_movs (num / 8) 8 (record { src = src; dst = dst; mem = mem }) in
    let c = movs_if num 4 c in let c = movs_if num 2 c in let c = movs_if num 1 c in c.mem

-- `rdi` and the memory.
pub record Filling : Type 0 where
  pub dst : ℕ
  pub mem : Bytes

-- `stosb` to `stosq` by their width: the low bytes of `rax`, the lowest first.
pub stos : (width rax : ℕ) → Filling → Filling
stos width rax f = record {
  dst = f.dst + width;
  mem = λ a. if in_range f.dst width a then rax / 2 ^ (8 * (a - f.dst)) % 2 ^ 8 else f.mem a;
}

pub rep_stos : (count width rax : ℕ) → Filling → Filling
rep_stos zero width rax f = f
rep_stos (suc count) width rax f = rep_stos count width rax (stos width rax f)

abbrev pub stos_if : (count bit rax : ℕ) → Filling → Filling
stos_if count bit rax f = if bit_and (count % 2 ^ 8) bit == 0 then f else stos bit rax f

pub memset : (address c count : ℕ) → Bytes → Bytes
memset address c count mem =
    let tmp = c * 0x0101010101010101 % 2 ^ 64 in
    let f = rep_stos (count / 8) 8 tmp (record { dst = address; mem = mem }) in
    let f = stos_if count 4 tmp f in
    let f = stos_if count 2 tmp f in let f = stos_if count 1 tmp f in f.mem

-- The flags that `je` and `jl` read.
pub record Flags : Type 0 where
  pub equal : Bool
  pub less : Bool

-- The int8 of a byte.
abbrev pub signed8 : ℕ → ℤ
signed8 b = if ltb b 128 then pos b else negsuc (2 ^ 8 - b - 1)

-- The flags of the difference of two bytes.
abbrev pub compare_bytes : (left right : ℕ) → Flags
compare_bytes left right = record {
  equal = left == right;
  less = ltb_ℤ (signed8 left) (signed8 right);
}

-- `movl $1; jl; negl`: the second part was subtracted from, so `less` makes the first one greater.
abbrev pub one_or_minus_one : Flags → ℤ
one_or_minus_one flags = if flags.less then pos 1 else negsuc 0

-- With a count of 0 `cmpsb` is not run, and the flags are those from before.
pub repe_cmpsb : (count first second : ℕ) → Bytes → Flags → Flags
repe_cmpsb zero first second mem flags = flags
repe_cmpsb (suc count) first second mem flags =
    let now = compare_bytes (mem second) (mem first) in
    let rest = repe_cmpsb count (first + 1) (second + 1) mem now in if now.equal then rest else now

-- `flags` are the ones that the code before leaves.
pub memcmp : (flags : Flags) (first second count : ℕ) → Bytes → ℤ
memcmp flags first second count mem =
    let after = repe_cmpsb count first second mem flags in
    if after.equal then pos 0 else one_or_minus_one after

-- The loop from label 1 on.
pub strcpy : (fuel dst src : ℕ) → Bytes → Option Bytes
strcpy zero dst src mem = none
strcpy (suc fuel) dst src mem =
    let al = mem src in
    let mem' = update mem dst al in
    let rest = strcpy fuel (dst + 1) (src + 1) mem' in if al == 0 then some mem' else rest

-- `decq; js`: the count is an int64, and the loop ends when it is negative.
pub strncpy : (fuel dst src count : ℕ) → Bytes → Option Bytes
strncpy zero dst src count mem = none
strncpy (suc fuel) dst src count mem =
    let count' = sub64 count 1 in
    let al = mem src in
    let mem' = update mem dst al in
    let rest = strncpy fuel (dst + 1) (src + 1) count' mem' in
    if leb (2 ^ 63) count'
    then some mem
    else if al == 0
    then some (rep_stos count' 1 al (record { dst = dst + 1; mem = mem' })).mem
    else rest

-- `repne scasb` for the byte 0: what is left of the count, and `rdi`.
pub repne_scasb : (count p : ℕ) → Bytes → ℕ × ℕ
repne_scasb zero p mem = (0, p)
repne_scasb (suc count) p mem =
    let rest = repne_scasb count (p + 1) mem in if mem p == 0 then (count, p + 1) else rest

-- `notl; decl` on the count that began as 0xffffffff.
pub strlen : (p : ℕ) → Bytes → ℤ
strlen p mem =
    let ecx = 2 ^ 32 - 1 - (repne_scasb (2 ^ 32 - 1) p mem).0 in
    signed32 ((ecx + 2 ^ 32 - 1) % 2 ^ 32)

pub strcat : (fuel dest src : ℕ) → Bytes → Option Bytes
unfolding strcpy
strcat fuel dest src mem = strcpy fuel ((repne_scasb (2 ^ 32 - 1) dest mem).1 - 1) src mem

pub strcmp : (fuel first second : ℕ) → Bytes → Option ℤ
strcmp zero first second mem = none
strcmp (suc fuel) first second mem =
    let al = mem second in
    let flags = compare_bytes al (mem first) in
    let rest = strcmp fuel (first + 1) (second + 1) mem in
    if not flags.equal
    then some (one_or_minus_one flags)
    else if al == 0
    then some (pos 0)
    else rest

pub strncmp : (fuel first second count : ℕ) → Bytes → Option ℤ
strncmp zero first second count mem = none
strncmp (suc fuel) first second count mem =
    let count' = sub64 count 1 in
    let al = mem second in
    let flags = compare_bytes al (mem first) in
    let rest = strncmp fuel (first + 1) (second + 1) count' mem in
    if leb (2 ^ 63) count'
    then some (pos 0)
    else if not flags.equal
    then some (one_or_minus_one flags)
    else if al == 0
    then some (pos 0)
    else rest

-- The word with the bit set, the bit in its place, and the word with the bit cleared: the word in
-- memory stays as it is.
pub bit_set : (word nr : ℕ) → ℕ
bit_set word nr = bit_or word (1 <<< nr)

pub bit_get : (word nr : ℕ) → ℕ
bit_get word nr = bit_and word (1 <<< nr)

pub bit_clean : (word nr : ℕ) → ℕ
bit_clean word nr = bit_and word (not64 (1 <<< nr))
