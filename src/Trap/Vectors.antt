-- ===== src/Trap/Vectors.antt =====
-- The exception vectors: `init_sys_vector` of cOS/kernel/src/trap.c.
use oslib.Prelude.{ℕ, ◌<◌, ◌≡◌, ◌^◌, refl, arith, Option, some, none}
use oslib.Prelude.{List, [], ◌∷◌, get_elem?, Each, by_place}
use oslib.Gate.{IdtTable, set_intr_gate, set_trap_gate, set_system_gate, set_gate}
use oslib.Gate.Fields.{IsGate, set_gate-IsGate}

-- The functions whose addresses the gates get: two of trap.c, the others of entry.sx.
pub data Symbol : Type 0 where
  do_divide_error do_debug nmi int3 overflow bounds undefined_opcode dev_not_available : Symbol
  double_fault coprocessor_segment_overrun invalid_tss segment_not_present : Symbol
  stack_segment_fault general_protection page_fault x87_fpu_error alignment_check : Symbol
  machine_check simd_exception virtualization_exception : Symbol

-- The linker's choice of addresses is a parameter.
pub init_sys_vector : (address : Symbol → ℕ) → IdtTable → IdtTable
init_sys_vector address idt =
    let idt = set_trap_gate 0 1 (address do_divide_error) idt in
    let idt = set_trap_gate 1 1 (address do_debug) idt in
    let idt = set_intr_gate 2 1 (address nmi) idt in
    let idt = set_system_gate 3 1 (address int3) idt in
    let idt = set_system_gate 4 1 (address overflow) idt in
    let idt = set_system_gate 5 1 (address bounds) idt in
    let idt = set_trap_gate 6 1 (address undefined_opcode) idt in
    let idt = set_trap_gate 7 1 (address dev_not_available) idt in
    let idt = set_trap_gate 8 1 (address double_fault) idt in
    let idt = set_trap_gate 9 1 (address coprocessor_segment_overrun) idt in
    let idt = set_trap_gate 10 1 (address invalid_tss) idt in
    let idt = set_trap_gate 11 1 (address segment_not_present) idt in
    let idt = set_trap_gate 12 1 (address stack_segment_fault) idt in
    let idt = set_trap_gate 13 1 (address general_protection) idt in
    let idt = set_trap_gate 14 1 (address page_fault) idt in
    let idt = set_trap_gate 16 1 (address x87_fpu_error) idt in
    let idt = set_trap_gate 17 1 (address alignment_check) idt in
    let idt = set_trap_gate 18 1 (address machine_check) idt in
    let idt = set_trap_gate 19 1 (address simd_exception) idt in
    set_trap_gate 20 1 (address virtualization_exception) idt

-- The attribute byte of a gate by what may reach it and whether it masks interrupts.
abbrev pub interrupt_gate : ℕ
interrupt_gate = 0x8E

abbrev pub trap_gate : ℕ
trap_gate = 0x8F

abbrev pub user_trap_gate : ℕ
user_trap_gate = 0xEF

pub record Vector : Type 0 where
  pub attr : ℕ
  pub handler : Symbol

abbrev pub by : ℕ → Symbol → Option Vector
by attr handler = some (record { attr = attr; handler = handler })

-- The exceptions of the processor by number; number 15 is reserved.
abbrev pub exceptions : List (Option Vector)
exceptions =
    by trap_gate do_divide_error
    ∷ by trap_gate do_debug
    ∷ by interrupt_gate nmi
    ∷ by user_trap_gate int3
    ∷ by user_trap_gate overflow
    ∷ by user_trap_gate bounds
    ∷ by trap_gate undefined_opcode
    ∷ by trap_gate dev_not_available
    ∷ by trap_gate double_fault
    ∷ by trap_gate coprocessor_segment_overrun
    ∷ by trap_gate invalid_tss
    ∷ by trap_gate segment_not_present
    ∷ by trap_gate stack_segment_fault
    ∷ by trap_gate general_protection
    ∷ by trap_gate page_fault
    ∷ none
    ∷ by trap_gate x87_fpu_error
    ∷ by trap_gate alignment_check
    ∷ by trap_gate machine_check
    ∷ by trap_gate simd_exception
    ∷ by trap_gate virtualization_exception
    ∷ []

abbrev pub exception : ℕ → Option (Option Vector)
exception n = get_elem? exceptions n

-- A descriptor against the table: a gate on the first stack of the task state segment, or as before.
abbrev pub IsInstalled :
    (Symbol → ℕ) → (before after : IdtTable) → ℕ → Option (Option Vector) → Type 0
IsInstalled address before after n (some (some v)) = IsGate (after n) v.attr 1 (address v.handler)
IsInstalled address before after n (some none) = after n ≡ before n
IsInstalled address before after n none = after n ≡ before n

module _ (address : Symbol → ℕ) (idt : IdtTable) where
  pub above : (n : ℕ) → 20 < n → init_sys_vector address idt n ≡ idt n
  unfolding init_sys_vector set_trap_gate set_intr_gate set_system_gate
  above n h = ground arith

  gate :
      ((s : Symbol) → address s < 2 ^ 64)
      → (attr : ℕ) → attr < 2 ^ 8
      → (s : Symbol) → IsGate (set_gate attr 1 (address s)) attr 1 (address s)
  gate ok attr h s = set_gate-IsGate attr 1 (address s) h (ok s)

  installed :
      ((s : Symbol) → address s < 2 ^ 64)
      → Each exceptions (λ i e. IsInstalled address idt (init_sys_vector address idt) i (some e))
  unfolding init_sys_vector set_trap_gate set_intr_gate set_system_gate
  installed ok = (
    gate ok 0x8F (omega arith) _,
    (
      gate ok 0x8F (omega arith) _,
      (
        gate ok 0x8E (omega arith) _,
        (
          gate ok 0xEF (omega arith) _,
          (
            gate ok 0xEF (omega arith) _,
            (
              gate ok 0xEF (omega arith) _,
              (
                gate ok 0x8F (omega arith) _,
                (
                  gate ok 0x8F (omega arith) _,
                  (
                    gate ok 0x8F (omega arith) _,
                    (
                      gate ok 0x8F (omega arith) _,
                      (
                        gate ok 0x8F (omega arith) _,
                        (
                          gate ok 0x8F (omega arith) _,
                          (
                            gate ok 0x8F (omega arith) _,
                            (
                              gate ok 0x8F (omega arith) _,
                              (
                                gate ok 0x8F (omega arith) _,
                                (
                                  refl,
                                  (
                                    gate ok 0x8F (omega arith) _,
                                    (
                                      gate ok 0x8F (omega arith) _,
                                      (
                                        gate ok 0x8F (omega arith) _,
                                        (
                                          gate ok 0x8F (omega arith) _,
                                          (gate ok 0x8F (omega arith) _, tt),
                                        ),
                                      ),
                                    ),
                                  ),
                                ),
                              ),
                            ),
                          ),
                        ),
                      ),
                    ),
                  ),
                ),
              ),
            ),
          ),
        ),
      ),
    ),
  )

-- If all addresses fit 64 bits, each vector of `exceptions` has a gate to its handler with its
-- attributes on the first stack, and every other descriptor, number 15 among them, is as it was.
pub init_sys_vector-IsInstalled :
    (address : Symbol → ℕ) (idt : IdtTable) (n : ℕ)
    → ((s : Symbol) → address s < 2 ^ 64)
    → IsInstalled address idt (init_sys_vector address idt) n (exception n)
init_sys_vector-IsInstalled address idt n ok =
    by_place exceptions (λ i e. IsInstalled address idt (init_sys_vector address idt) i e)
      (installed address idt ok) (λ i h. above address idt i (omega (arith, h))) n
