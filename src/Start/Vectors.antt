-- ===== src/Start/Vectors.antt =====
-- The interrupt descriptor table of a kernel that is running.
use mathlib.Core.Path.{subst}
use native.Mathlib.Decide.{dec_lt}
use oslib.Prelude.{
  ℕ, ◌^◌, ◌<◌, ◌≡◌, refl, sym, ap, ◌∙◌, arith, ltb, if◌then◌else◌, Option, none, some,
}
use oslib.Gate.{IdtTable}
use oslib.Gate.Fields.{IsGate}
use oslib.Trap.Vectors.{Symbol, Vector, exception, IsInstalled, above, init_sys_vector-IsInstalled}
use oslib.Memory.Types.{Memory}
use oslib.Memory.Init.{init_memory}
use oslib.Interrupt.{Machine, init_interrupt}
use oslib.Interrupt.Controller.{IsLine, init_interrupt-IsLine}
use oslib.Tasks.Init.{Started, started, faulted, stuck, task_init}
use oslib.Start.{
  System, Outside, Booted, running, broken, endless, after_tasks, after_memory, before_memory,
  kernel_start,
}

-- Below vector 0x20 the exceptions' handlers, of those that have one, from there to 0x37 the
-- interrupts' stubs, and behind them what was there before.
abbrev pub IsVector : Outside → (before after : IdtTable) → ℕ → Type 0
IsVector o before after n =
    if ltb n 0x20
    then IsInstalled o.address before after n (exception n)
    else if ltb n 0x38
    then IsGate (after n) 0x8E 2 (o.stub n)
    else after n ≡ before n

IsInstalled-same :
    (address : Symbol → ℕ) (before m after : IdtTable) (n : ℕ) (e : Option (Option Vector))
    → after n ≡ m n
    → IsInstalled address before m n e
    → IsInstalled address before after n e
IsInstalled-same address before m after n (some (some v)) same h =
    subst (λ g. IsGate g v.attr 1 (address v.handler)) (sym same) h
IsInstalled-same address before m after n (some none) same h = same ∙ h
IsInstalled-same address before m after n none same h = same ∙ h

-- The exceptions first, and then the interrupts.
both :
    (o : Outside) (before m after : IdtTable) (n : ℕ)
    → IsInstalled o.address before m n (exception n)
    → (20 < n → m n ≡ before n)
    → IsLine o.stub m after n
    → IsVector o before after n
both o before m after n traps rest line = elim (dec_lt n 0x20) [
  | yes lo ↦
      ground (arith, lo, IsInstalled-same o.address before m after n (exception n), traps, line)
  | no hi ↦ ground (arith, hi, rest, line)
]

abbrev machine_of : Machine → Booted → Machine
machine_of m (running r) = r.machine
machine_of m broken = m
machine_of m endless = m

after_tasks-machine :
    (s : System) (t : Started) → machine_of s.machine (after_tasks s t) ≡ s.machine
after_tasks-machine s (started k) = refl
after_tasks-machine s faulted = refl
after_tasks-machine s stuck = refl

-- What the machine is if the kernel runs at all.
pub after_memory-machine :
    (o : Outside) (s : System) (m : Option Memory) {r : System}
    → after_memory o s m ≡ running r
    → r.machine ≡ init_interrupt o.stub s.machine
after_memory-machine o s none e = cc
after_memory-machine o s (some m) e =
    let ready = record s { machine = init_interrupt o.stub s.machine } in
    ap (machine_of ready.machine) (sym e)
    ∙ after_tasks-machine ready (task_init o.layout (record (s.kernel) { memory = m }))

-- If the handlers' and the stubs' addresses fit 64 bits, a kernel that `kernel_start` has brought to
-- its first thread has gates to the exceptions' handlers in the vectors 0 to 14 and 16 to 20,
-- interrupt gates to the stubs on the second stack in those from 0x20 to 0x37, and every other
-- descriptor as it was.
pub kernel_start-IsVector :
    (o : Outside) (s r : System) (n : ℕ)
    → ((a : Symbol) → o.address a < 2 ^ 64)
    → ((k : ℕ) → o.stub k < 2 ^ 64)
    → kernel_start o s ≡ running r
    → IsVector o s.machine.idt r.machine.idt n
unfolding kernel_start before_memory
kernel_start-IsVector o s r n handlers stubs run =
    let ready = before_memory o s in
    let table : r.machine.idt ≡ (init_interrupt o.stub ready.machine).idt =
      ap (λ (m : Machine). m.idt)
        (after_memory-machine o ready (init_memory o.bios o.cr3 ready.kernel.memory) run) in
    subst (λ t. IsVector o s.machine.idt t n) (sym table)
      (both o s.machine.idt ready.machine.idt (init_interrupt o.stub ready.machine).idt n
        (init_sys_vector-IsInstalled o.address s.machine.idt n handlers)
        (above o.address s.machine.idt n) (init_interrupt-IsLine o.stub ready.machine n stubs))
