-- ===== src/Interrupt.antt =====
-- The interrupt controllers and the interrupt entry: cOS/kernel/src/interrupt.c. A byte sent to
-- a port is an entry of the list that `io_out8` grows, the first sent first.
pub mod Controller
pub mod Stub
use oslib.Prelude.{ℕ, zero, suc, ◌+◌, ◌-◌, ◌==◌, if◌then◌else◌, Bool, true, List, [], ◌∷◌, ◌++◌}
use oslib.Gate.{IdtTable, set_intr_gate}

pub record Output : Type 0 where
  pub port : ℕ
  pub value : ℕ

pub record Machine : Type 0 where
  pub idt : IdtTable
  pub sent : List Output
  pub read : List ℕ
  pub interrupts : Bool

abbrev pub io_out8 : (port value : ℕ) → Machine → Machine
io_out8 port value m = record m { sent = m.sent ++ record { port = port; value = value } ∷ [] }

-- The byte that is read depends on the device and is shown in a debug build only.
abbrev pub io_in8 : (port : ℕ) → Machine → Machine
io_in8 port m = record m { read = m.read ++ port ∷ [] }

abbrev pub sti : Machine → Machine
sti m = record m { interrupts = true }

-- The table `interrupt`: its entry i is `IRQ` 0x20 + i's stub, which the assembler places and
-- which calls `do_IRQ` with that number.
abbrev pub interrupt : (stub : ℕ → ℕ) → ℕ → ℕ
interrupt stub i = stub (0x20 + i)

-- The loop from i on, for the passes that are left.
pub set_gates : (stub : ℕ → ℕ) (passes i : ℕ) → IdtTable → IdtTable
set_gates stub zero i idt = idt
set_gates stub (suc passes) i idt =
    set_gates stub passes (i + 1) (set_intr_gate i 2 (interrupt stub (i - 0x20)) idt)

pub init_8259a : Machine → Machine
init_8259a m =
    let m = io_out8 0x20 0x11 m in
    let m = io_out8 0x21 0x20 m in
    let m = io_out8 0x21 0x04 m in
    let m = io_out8 0x21 0x01 m in
    let m = io_out8 0xa0 0x11 m in
    let m = io_out8 0xa1 0x28 m in
    let m = io_out8 0xa1 0x02 m in
    let m = io_out8 0xa1 0x01 m in let m = io_out8 0x21 0xfd m in io_out8 0xa1 0xff m

pub init_interrupt : (stub : ℕ → ℕ) → Machine → Machine
init_interrupt stub m =
    sti (init_8259a (record m { idt = set_gates stub (0x38 - 0x20) 0x20 m.idt }))

pub do_irq : (regs nr : ℕ) → Machine → Machine
do_irq regs nr m = let m = if 0x21 == nr then io_in8 0x60 m else m in io_out8 0x20 0x20 m
