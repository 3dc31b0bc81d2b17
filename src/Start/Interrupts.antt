-- ===== src/Start/Interrupts.antt =====
-- An interrupt of a kernel that is running, from the descriptor to the interrupted code.
use mathlib.Core.Path.{subst}
use oslib.Prelude.{
  ℕ, ◌+◌, ◌-◌, ◌*◌, ◌/◌, ◌^◌, ◌≤◌, ◌<◌, ◌≡◌, refl, sym, ap, ◌∙◌, arith, some, none, ◌==◌,
  if◌then◌else◌, get_elem?, true, all_below_lem, is_some_of, is_some_of-eq,
}
use oslib.Gate.{GateStruct}
use oslib.Gate.Fields.{IsGate, offset, stack_index, load64}
use oslib.Trap.Vectors.{Symbol}
use oslib.Tasks.Types.{Kernel}
use oslib.Entry.{Context, deliver, restore_all}
use oslib.Entry.Return.{HasSelectors, HasReturned, Continues}
use oslib.Memory.Init.{init_memory}
use oslib.Interrupt.{Machine, init_interrupt, do_irq}
use oslib.Interrupt.Controller.{Controller, after, init_interrupt-after, do_irq-after}
use oslib.Interrupt.Stub.{irq_interrupt, built_stubs}
use oslib.Interrupt.Stub.Frame.{irq_interrupt-IsCalled, irq_interrupt-Continues}
use oslib.Start.{System, Outside, running, before_memory, kernel_start}
use oslib.Start.Vectors.{after_memory-machine, kernel_start-IsVector}

-- The stack that the processor goes to: the descriptor's entry of the task state segment, or the one
-- it is on, at a multiple of 16.
abbrev pub stack_of : (tss : ℕ → ℕ) → GateStruct → Context → ℕ
stack_of tss g c =
    (if stack_index g == 0 then c.cpu.rsp else load64 tss (7 + 2 * stack_index g)) / 16 * 16

-- The processor takes an interrupt through a gate: the context is on the stack, and the code at the
-- gate's address has run, up to the first instruction of the C function that it calls.
abbrev pub entered : (code : ℕ → Kernel → Kernel) → GateStruct → Context → Kernel → Kernel
entered code g c k = code (offset g) (deliver (stack_of k.tss_table g c) none c k)

-- `Build_IRQ(n)` has put the code of stub `n` at its address.
abbrev pub AreBuilt : (o : Outside) (ret_from_intr do_irq : ℕ) → (ℕ → Kernel → Kernel) → Type 0
AreBuilt o ret_from_intr do_irq code =
    (i n : ℕ)
    → get_elem? built_stubs i ≡ some n
    → code (o.stub n) ≡ irq_interrupt ret_from_intr do_irq n

built_at : (n : ℕ) → 0x20 ≤ n → n < 0x38 → get_elem? built_stubs (n - 0x20) ≡ some n
built_at n lo hi =
    let at =
      all_below_lem 24 (λ i. is_some_of (get_elem? built_stubs i) (0x20 + i)) (n - 0x20) refl
        (omega arith) in
    let place : 0x20 + (n - 0x20) ≡ n = omega arith in
    is_some_of-eq (get_elem? built_stubs (n - 0x20)) n
      (subst (λ m. is_some_of (get_elem? built_stubs (n - 0x20)) m ≡ true) place at)

-- In a kernel that `kernel_start` has brought to its first thread, an interrupt of a vector from
-- 0x20 to 0x37 leads to `do_IRQ` with that number; its call leaves the controllers as
-- `init_interrupt` has set them up, with one more interrupt ended at the first one, and none at the
-- second one, whatever the vector; and if `do_IRQ` returns with the words above its return address
-- as they were, the interrupted code goes on with its registers, flags, stack and data segments as
-- they were. The addresses fit 64 bits, the stubs' code is at theirs, the segment registers have 16
-- bits, and the second interrupt stack of the task state segment has room for 28 words.
pub interrupt-Continues :
    (o : Outside) (s r : System) (n ret_from_intr do_irq_address : ℕ) (code : ℕ → Kernel → Kernel)
    (c : Context) (k back : Kernel) (controller : Controller)
    → ((a : Symbol) → o.address a < 2 ^ 64)
    → ((k : ℕ) → o.stub k < 2 ^ 64)
    → kernel_start o s ≡ running r
    → 0x20 ≤ n
    → n < 0x38
    → AreBuilt o ret_from_intr do_irq_address code
    → HasSelectors c
    → 28 * 8 ≤ load64 k.tss_table 11
    → HasReturned (entered code (r.machine.idt n) c k) back
    → let call = entered code (r.machine.idt n) c k in
      (call.cpu.rip ≡ do_irq_address)
      × (call.cpu.rsi ≡ n)
      × (after 0x20 (do_irq call.cpu.rdi call.cpu.rsi r.machine).sent controller ≡ record {
        awaited = 0;
        base = 0x20;
        mask = 0xfd;
        ended = (after 0x20 s.machine.sent controller).ended + 1;
      })
      × (after 0xa0 (do_irq call.cpu.rdi call.cpu.rsi r.machine).sent controller ≡ record {
        awaited = 0;
        base = 0x28;
        mask = 0xff;
        ended = (after 0xa0 s.machine.sent controller).ended;
      })
      × (back.cpu.rip ≡ ret_from_intr)
      × Continues c (restore_all back)
unfolding kernel_start before_memory
interrupt-Continues o s r n ret_from_intr do_irq_address code c k back controller handlers stubs run
      lo hi built fit room returned =
    let g = r.machine.idt n in
    let stack = stack_of k.tss_table g c in
    let gate : IsGate g 0x8E 2 (o.stub n) =
      ground (arith, lo, hi, kernel_start-IsVector o s r n handlers stubs run) in
    let space : 26 * 8 ≤ stack =
      subst (λ i. 26 * 8 ≤ (if i == 0 then c.cpu.rsp else load64 k.tss_table (7 + 2 * i)) / 16 * 16)
        (sym gate.stack) (omega (arith, room)) in
    let runs : code (offset g) ≡ irq_interrupt ret_from_intr do_irq_address n =
      ap code gate.address ∙ built (n - 0x20) n (built_at n lo hi) in
    let start = deliver stack none c k in
    let same : code (offset g) start ≡ irq_interrupt ret_from_intr do_irq_address n start =
      ap (λ (f : Kernel → Kernel). f start) runs in
    let call = irq_interrupt-IsCalled ret_from_intr do_irq_address n stack c k space in
    let (rip, goes_on) =
      irq_interrupt-Continues ret_from_intr do_irq_address n stack c k space back fit
        (subst (λ (called : Kernel). HasReturned called back) same returned) in
    let booting = before_memory o s in
    let machine : r.machine ≡ init_interrupt o.stub booting.machine =
      after_memory-machine o booting (init_memory o.bios o.cr3 booting.kernel.memory) run in
    let set_up : (p : ℕ)
        → after p r.machine.sent controller
          ≡ after p (init_interrupt o.stub booting.machine).sent controller =
      λ p. ap (λ (m : Machine). after p m.sent controller) machine in
    let ready = init_interrupt-after o.stub booting.machine controller in
    let (first, second) =
      do_irq-after (code (offset g) start).cpu.rdi (code (offset g) start).cpu.rsi r.machine
        controller in
    (
      ap (λ (k : Kernel). k.cpu.rip) same ∙ call.entry,
      ap (λ (k : Kernel). k.cpu.rsi) same ∙ call.error,
      first ∙ ap (λ (d : Controller). record d { ended = d.ended + 1 }) (set_up 0x20 ∙ ready.0),
      second ∙ set_up 0xa0 ∙ ready.1,
      rip,
      goes_on,
    )
