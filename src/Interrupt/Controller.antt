-- ===== src/Interrupt/Controller.antt =====
-- The two 8259A controllers as their data sheet has them, and what the kernel's bytes do to them.
use oslib.Prelude.{ℕ, zero, suc, ◌+◌, ◌-◌, ◌/◌, ◌%◌, ◌^◌, ◌<◌, ◌≤◌, ◌≡◌, ◌==◌, refl, arith}
use oslib.Prelude.{if◌then◌else◌, ◌⊎◌, ◌++◌, List, [], ◌∷◌, ltb}
use oslib.Gate.{IdtTable, set_intr_gate, set_gate}
use oslib.Gate.Fields.{IsGate, set_gate-IsGate}
use oslib.Interrupt.{Machine, interrupt, Output, set_gates, init_8259a, init_interrupt, do_irq}

-- A controller: the initialisation words still to come, the first vector, the mask of its lines,
-- and the interrupts that were ended.
pub record Controller : Type 0 where
  pub awaited : ℕ
  pub base : ℕ
  pub mask : ℕ
  pub ended : ℕ

-- A byte at the command port begins the initialisation, or ends an interrupt.
abbrev pub command : ℕ → Controller → Controller
command v c =
    if v / 16 % 2 == 1
    then record c { awaited = 3; mask = 0 }
    else if v == 0x20
    then record c { ended = c.ended + 1 }
    else c

-- A byte at the data port: of the awaited words the first is the base, and behind them the mask.
abbrev pub data_byte : ℕ → Controller → Controller
data_byte v c =
    if c.awaited == 0
    then record c { mask = v }
    else if c.awaited == 3
    then record c { awaited = 2; base = v }
    else record c { awaited = c.awaited - 1 }

abbrev pub receive : (command_port : ℕ) → Output → Controller → Controller
receive p o c =
    if o.port == p then command o.value c else if o.port == p + 1 then data_byte o.value c else c

-- The controller at a port behind all the bytes.
abbrev pub after : (command_port : ℕ) → List Output → Controller → Controller
after p [] c = c
after p (o ∷ os) c = after p os (receive p o c)

module _ (stub : ℕ → ℕ) where
  set_gates_outside :
      (passes i : ℕ) (idt : IdtTable) (n : ℕ)
      → (n < i) ⊎ (i + passes ≤ n)
      → set_gates stub passes i idt n ≡ idt n
  unfolding set_gates set_intr_gate
  set_gates_outside zero i idt n h = refl
  set_gates_outside (suc passes) i idt n h = ground (
    arith,
    h,
    set_gates_outside passes (i + 1) (set_intr_gate i 2 (interrupt stub (i - 0x20)) idt) n,
  )

  set_gates_inside :
      (passes i : ℕ) (idt : IdtTable) (n : ℕ)
      → i ≤ n
      → n < i + passes
      → set_gates stub passes i idt n ≡ set_gate 0x8E 2 (interrupt stub (n - 0x20))
  unfolding set_gates set_intr_gate
  set_gates_inside zero i idt n hi hn = ground (arith, hi, hn)
  set_gates_inside (suc passes) i idt n hi hn = ground (
    arith,
    hi,
    hn,
    set_gates_outside passes (i + 1) (set_intr_gate i 2 (interrupt stub (i - 0x20)) idt) n,
    set_gates_inside passes (i + 1) (set_intr_gate i 2 (interrupt stub (i - 0x20)) idt) n,
  )

-- A vector in the loop's range has a gate to its stub, any other its descriptor from before.
abbrev pub IsLine : (stub : ℕ → ℕ) (before after : IdtTable) (n : ℕ) → Type 0
IsLine stub before after n =
    if ltb n 0x20
    then after n ≡ before n
    else if ltb n 0x38
    then IsGate (after n) 0x8E 2 (stub n)
    else after n ≡ before n

-- If the stubs' addresses fit 64 bits, `init_interrupt` gives the vectors from 0x20 to 0x37
-- interrupt gates to their stubs on the second stack, and leaves every other descriptor.
pub init_interrupt-IsLine :
    (stub : ℕ → ℕ) (m : Machine) (n : ℕ)
    → ((k : ℕ) → stub k < 2 ^ 64)
    → IsLine stub m.idt (init_interrupt stub m).idt n
unfolding init_interrupt init_8259a
init_interrupt-IsLine stub m n ok = ground (
  arith,
  set_gates_outside stub 24 0x20 m.idt n,
  set_gates_inside stub 24 0x20 m.idt n,
  set_gate-IsGate 0x8E 2 (stub n),
  ok n,
)

after-append :
    (p : ℕ) (xs ys : List Output) (c : Controller)
    → after p (xs ++ ys) c ≡ after p ys (after p xs c)
after-append p [] ys c = refl
after-append p (x ∷ xs) ys c = after-append p xs ys (receive p x c)

-- `init_interrupt` leaves the first controller with vectors from 0x20 on and all lines but the
-- second masked, and the second one with vectors from 0x28 on and all lines masked, whatever they
-- were and were sent before.
pub init_interrupt-after :
    (stub : ℕ → ℕ) (m : Machine) (c : Controller)
    → let sent = (init_interrupt stub m).sent in
      (after 0x20 sent c
        ≡ record { awaited = 0; base = 0x20; mask = 0xfd; ended = (after 0x20 m.sent c).ended })
      × (after 0xa0 sent c
          ≡ record { awaited = 0; base = 0x28; mask = 0xff; ended = (after 0xa0 m.sent c).ended })
unfolding init_interrupt init_8259a
init_interrupt-after stub m c = simp after-append (refl, refl)

-- `do_IRQ` ends one interrupt at the first controller, for every number, and does nothing else to it
-- and nothing to the second one.
pub do_irq-after :
    (regs nr : ℕ) (m : Machine) (c : Controller)
    → (after 0x20 (do_irq regs nr m).sent c
        ≡ (let d = after 0x20 m.sent c in record d { ended = d.ended + 1 }))
      × (after 0xa0 (do_irq regs nr m).sent c ≡ after 0xa0 m.sent c)
unfolding do_irq
do_irq-after regs nr m c =
    let end_of_interrupt : List Output = record { port = 0x20; value = 0x20 } ∷ [] in
    ground (
      arith,
      after-append 0x20 m.sent end_of_interrupt c,
      after-append 0xa0 m.sent end_of_interrupt c,
    )
