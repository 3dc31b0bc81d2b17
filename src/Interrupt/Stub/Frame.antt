-- ===== src/Interrupt/Stub/Frame.antt =====
-- What a stub of an interrupt leaves on the stack for `do_IRQ`, and for `RSETORE_ALL` behind it.
use oslib.Prelude.{ℕ, ◌*◌, ◌≤◌, ◌≡◌, refl, arith, none, [], ◌∷◌}
use oslib.Tasks.Types.{Kernel, words_of}
use oslib.Tasks.Thread.{pushq}
use oslib.Entry.{Context, deliver, restore_all}
use oslib.Entry.Stack.{pushed-Holds, Holds-push, regs_of}
use oslib.Entry.Return.{HasSelectors, Continues, IsCalled, HasReturned, called-Continues}
use oslib.Interrupt.Stub.{save_all, irq_interrupt}

module _ (ret_from_intr do_irq nr stack : ℕ) (c : Context) (k : Kernel)
    (room : 26 * 8 ≤ stack) where
  -- `do_IRQ` gets the saved registers and the number of the interrupt, and returns to
  -- `ret_from_intr`.
  pub irq_interrupt-IsCalled :
      IsCalled do_irq c.cpu.rax 0 nr ret_from_intr c
        (irq_interrupt ret_from_intr do_irq nr (deliver stack none c k))
  unfolding irq_interrupt save_all deliver
  irq_interrupt-IsCalled =
      let entered = save_all (pushq 0 (deliver stack none c k)) in
      let regs =
        pushed-Holds
          (c.ss ∷ c.cpu.rsp ∷ c.rflags ∷ c.cs ∷ c.cpu.rip ∷ 0 ∷ c.cpu.rax ∷ c.cpu.rax ∷ c.cpu.es
            ∷ c.cpu.ds ∷ c.cpu.rbp ∷ c.cpu.rdi ∷ c.cpu.rsi ∷ c.cpu.rdx ∷ c.cpu.rcx ∷ c.cpu.rbx
            ∷ c.cpu.r8 ∷ c.cpu.r9 ∷ c.cpu.r10 ∷ c.cpu.r11 ∷ c.cpu.r12 ∷ c.cpu.r13 ∷ c.cpu.r14
            ∷ c.cpu.r15 ∷ [])
          [] k.words stack (omega (arith, room)) tt in
      record {
        entry = refl;
        regs =
            Holds-push entered.words entered.cpu.rsp ret_from_intr
              (words_of (regs_of c.cpu.rax 0 c)) (omega (arith, room)) regs;
        error = refl;
        return_to = ground arith;
        depth = omega (arith, room);
        data_segment = refl;
        extra_segment = refl;
      }

  -- If the segment registers have 16 bits, the stack of the interrupt has room for 26 words, and
  -- `do_IRQ` returns with the words above its return address as they were, then the interrupted code
  -- goes on with its registers, flags, stack and data segments as they were.
  pub irq_interrupt-Continues :
      (back : Kernel)
      → HasSelectors c
      → HasReturned (irq_interrupt ret_from_intr do_irq nr (deliver stack none c k)) back
      → (back.cpu.rip ≡ ret_from_intr) × Continues c (restore_all back)
  irq_interrupt-Continues back fit =
      called-Continues do_irq c.cpu.rax 0 nr ret_from_intr c
        (irq_interrupt ret_from_intr do_irq nr (deliver stack none c k)) back fit
        irq_interrupt-IsCalled
