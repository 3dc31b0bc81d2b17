-- ===== src/Interrupt/Stub.antt =====
-- The entry stubs of cOS/kernel/src/interrupt.c, which `Build_IRQ` assembles: `SAVE_ALL` and the
-- jump to `do_IRQ`.
pub mod Frame
use oslib.Prelude.{ℕ, ◌-◌, List, [], ◌∷◌}
use oslib.Tasks.Types.{Kernel}
use oslib.Tasks.Thread.{pushq}
use oslib.Entry.{load_rax}

-- `SAVE_ALL`
pub save_all : Kernel → Kernel
save_all k =
    let k = pushq k.cpu.rax k in
    let k = pushq k.cpu.rax k in
    let k = load_rax k.cpu.es k in
    let k = pushq k.cpu.rax k in
    let k = load_rax k.cpu.ds k in
    let k = pushq k.cpu.rax k in
    let k = load_rax 0 k in
    let k = pushq k.cpu.rbp k in
    let k = pushq k.cpu.rdi k in
    let k = pushq k.cpu.rsi k in
    let k = pushq k.cpu.rdx k in
    let k = pushq k.cpu.rcx k in
    let k = pushq k.cpu.rbx k in
    let k = pushq k.cpu.r8 k in
    let k = pushq k.cpu.r9 k in
    let k = pushq k.cpu.r10 k in
    let k = pushq k.cpu.r11 k in
    let k = pushq k.cpu.r12 k in
    let k = pushq k.cpu.r13 k in
    let k = pushq k.cpu.r14 k in
    let k = pushq k.cpu.r15 k in
    record k { cpu = record (k.cpu) { rdx = 0x10; ds = 0x10; es = 0x10 } }

-- The stub of vector `nr`, up to the first instruction of `do_IRQ`.
pub irq_interrupt : (ret_from_intr do_irq nr : ℕ) → Kernel → Kernel
unfolding save_all
irq_interrupt ret_from_intr do_irq nr k =
    let k = save_all (pushq 0 k) in
    let k = record k { cpu = record (k.cpu) { rdi = k.cpu.rsp } } in
    let k = record k { cpu = record (k.cpu) { rax = ret_from_intr } } in
    let k = pushq k.cpu.rax k in record k { cpu = record (k.cpu) { rsi = nr; rip = do_irq } }

-- The stubs that are built: the lines `Build_IRQ(0x20)` to `Build_IRQ(0x37)`.
abbrev pub built_stubs : List ℕ
built_stubs =
    0x20 ∷ 0x21 ∷ 0x22 ∷ 0x23 ∷ 0x24 ∷ 0x25 ∷ 0x26 ∷ 0x27 ∷ 0x28 ∷ 0x29 ∷ 0x2a ∷ 0x2b ∷ 0x2c ∷ 0x2d
    ∷ 0x2e ∷ 0x2f ∷ 0x30 ∷ 0x31 ∷ 0x32 ∷ 0x33 ∷ 0x34 ∷ 0x35 ∷ 0x36 ∷ 0x37 ∷ []
