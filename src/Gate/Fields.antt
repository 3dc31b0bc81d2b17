-- ===== src/Gate/Fields.antt =====
-- What the processor reads in a gate descriptor, and in the task state segment.
use oslib.Prelude.{ℕ, ◌+◌, ◌*◌, ◌/◌, ◌%◌, ◌^◌, ◌<◌, ◌≡◌, arith}
use oslib.Prelude.Bits.Align.{bit_and-mod}
use oslib.Gate.{GateStruct, set_gate, set_tss64}

abbrev pub offset : GateStruct → ℕ
offset g = g.low % 2 ^ 16 + g.low / 2 ^ 48 * 2 ^ 16 + g.high % 2 ^ 32 * 2 ^ 32

abbrev pub selector : GateStruct → ℕ
selector g = g.low / 2 ^ 16 % 2 ^ 16

abbrev pub stack_index : GateStruct → ℕ
stack_index g = g.low / 2 ^ 32 % 8

abbrev pub attributes : GateStruct → ℕ
attributes g = g.low / 2 ^ 40 % 2 ^ 8

-- The descriptor has the address, the kernel's code selector, the low 3 bits of the stack index
-- and the attributes at the places where the processor reads them.
pub record IsGate (g : GateStruct) (attr ist addr : ℕ) : Type 0 where
  pub address : offset g ≡ addr
  pub code_segment : selector g ≡ 8
  pub stack : stack_index g ≡ ist % 8
  pub kind : attributes g ≡ attr
  pub reserved : g.high / 2 ^ 32 ≡ 0

-- For an attribute of 8 bits and an address of 64 bits the two words that `_set_gate` stores read as
-- that gate.
pub set_gate-IsGate :
    (attr ist addr : ℕ)
    → attr < 2 ^ 8
    → addr < 2 ^ 64
    → IsGate (set_gate attr ist addr) attr ist addr
unfolding set_gate
set_gate-IsGate attr ist addr ha hc = omega (arith, bit_and-mod 3 ist)

-- The 64 bits of the task state segment from the array's place `i` on.
abbrev pub load64 : (ℕ → ℕ) → ℕ → ℕ
load64 tss i = tss i + tss (i + 1) * 2 ^ 32

-- `set_tss64` leaves each stack pointer at its place of the segment, whatever was there, and the
-- entries 0, 7, 8 and 23 as they were.
set_tss64_lem :
    (rsp0 rsp1 rsp2 ist1 ist2 ist3 ist4 ist5 ist6 ist7 : ℕ) (tss : ℕ → ℕ)
    → let t = set_tss64 rsp0 rsp1 rsp2 ist1 ist2 ist3 ist4 ist5 ist6 ist7 tss in
      (load64 t 1 ≡ rsp0)
      × (load64 t 3 ≡ rsp1)
      × (load64 t 5 ≡ rsp2)
      × (load64 t 9 ≡ ist1)
      × (load64 t 11 ≡ ist2)
      × (load64 t 13 ≡ ist3)
      × (load64 t 15 ≡ ist4)
      × (load64 t 17 ≡ ist5)
      × (load64 t 19 ≡ ist6)
      × (load64 t 21 ≡ ist7)
      × (t 0 ≡ tss 0)
      × (t 7 ≡ tss 7)
      × (t 8 ≡ tss 8)
      × (t 23 ≡ tss 23)
unfolding set_tss64
set_tss64_lem rsp0 rsp1 rsp2 ist1 ist2 ist3 ist4 ist5 ist6 ist7 tss = omega arith
