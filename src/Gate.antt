-- ===== src/Gate.antt =====
-- Gate descriptors and the task state segment: cOS/kernel/include/gate.h. A descriptor is two
-- words of 64 bits, and the interrupt descriptor table a function of the vector.
pub mod Fields
use oslib.Prelude.{ℕ, ◌+◌, ◌*◌, ◌/◌, ◌%◌, ◌^◌, ◌==◌, if◌then◌else◌, bit_and}
use oslib.Prelude.Words.{add64, ◌>>>◌, ◌<<<◌}
use oslib.Memory.Types.{update}

pub record GateStruct : Type 0 where
  pub low : ℕ
  pub high : ℕ

-- `_set_gate`, instruction by instruction: `rax` starts as the selector 8 << 16, `rdx` as the
-- address and `rcx` as the stack index.
pub set_gate : (attr ist code_addr : ℕ) → GateStruct
set_gate attr ist code_addr =
    let rdx = code_addr in
    let rax = (0x8 <<< 16) + rdx % 2 ^ 16 in
    let rcx = bit_and ist 0x7 in
    let rcx = add64 rcx (attr <<< 8) in
    let rcx = rcx <<< 32 in
    let rax = add64 rax rcx in
    let rcx = rdx % 2 ^ 32 in
    let rcx = rcx >>> 16 in
    let rcx = rcx <<< 48 in let rax = add64 rax rcx in record { low = rax; high = rdx >>> 32 }

abbrev pub IdtTable : Type 0
IdtTable = ℕ → GateStruct

unfoldable pub set_intr_gate : (n ist addr : ℕ) → IdtTable → IdtTable
set_intr_gate n ist addr idt = update idt n (set_gate 0x8E ist addr)

unfoldable pub set_trap_gate : (n ist addr : ℕ) → IdtTable → IdtTable
set_trap_gate n ist addr idt = update idt n (set_gate 0x8F ist addr)

unfoldable pub set_system_gate : (n ist addr : ℕ) → IdtTable → IdtTable
set_system_gate n ist addr idt = update idt n (set_gate 0xEF ist addr)

pub set_system_intr_gate : (n ist addr : ℕ) → IdtTable → IdtTable
set_system_intr_gate n ist addr idt = update idt n (set_gate 0xEE ist addr)

-- `TSS64_Table`, an array of uint32: a store of 64 bits fills two of them.
abbrev pub store64 : (ℕ → ℕ) → ℕ → ℕ → ℕ → ℕ
store64 tss i v = update (update tss i (v % 2 ^ 32)) (i + 1) (v / 2 ^ 32)

pub set_tss64 : (rsp0 rsp1 rsp2 ist1 ist2 ist3 ist4 ist5 ist6 ist7 : ℕ) → (ℕ → ℕ) → ℕ → ℕ
set_tss64 rsp0 rsp1 rsp2 ist1 ist2 ist3 ist4 ist5 ist6 ist7 tss =
    let tss = store64 tss 1 rsp0 in
    let tss = store64 tss 3 rsp1 in
    let tss = store64 tss 5 rsp2 in
    let tss = store64 tss 9 ist1 in
    let tss = store64 tss 11 ist2 in
    let tss = store64 tss 13 ist3 in
    let tss = store64 tss 15 ist4 in
    let tss = store64 tss 17 ist5 in let tss = store64 tss 19 ist6 in store64 tss 21 ist7
