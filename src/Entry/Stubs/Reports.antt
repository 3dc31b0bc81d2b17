-- ===== src/Entry/Stubs/Reports.antt =====
-- What the kernel says of an exception: the stubs of cOS/kernel/src/entry.sx with the handlers of
-- cOS/kernel/src/trap.c that they call.
use oslib.Prelude.{ℕ, ◌+◌, ◌*◌, ◌≤◌, ◌≡◌, refl, ap, ◌∙◌, arith, Option, none, some, [], ◌∷◌}
use oslib.Tasks.Types.{words_of}
use oslib.Tasks.Types.{Kernel}
use oslib.Trap.Report.{Memory}
use oslib.Trap.Handlers.{
  do_debug, do_nmi, do_int3, do_overflow, do_bounds, do_undefined_opcode, do_dev_not_available,
  do_double_fault, do_coprocessor_segment_overrun, do_x87_fpu_error, do_alignment_check,
  do_machine_check, do_simd_exception, do_virtualization_exception,
}
use oslib.Trap.Selector.{
  do_invalid_tss, do_segment_not_present, do_stack_segment_fault, do_general_protection,
  do_page_fault,
}
use oslib.Entry.{Context, deliver}
use oslib.Entry.Stack.{Holds-word, regs_of}
use oslib.Entry.Return.{IsCalled}
use oslib.Entry.Stubs.{
  Handlers, Label, stub, divide_error, debug, nmi, int3, overflow, bounds, undefined_opcode,
  dev_not_available, double_fault, coprocessor_segment_overrun, invalid_tss, segment_not_present,
  stack_segment_fault, general_protection, page_fault, x87_fpu_error, alignment_check,
  machine_check, simd_exception, virtualization_exception,
}
use oslib.Entry.Stubs.Handled.{
  handler_of, handled, has_error_code, is_some, error_of, first_values, reported_rip,
}
use oslib.Entry.Stubs.Called.{
  plain_stub-IsCalled, place_holder_stub-IsCalled, nmi_stub-IsCalled, divide_error-IsCalled,
}

first_values_lem :
    (cr2 : ℕ) (l : Label) (rsp error_code : ℕ) (mem : Memory)
    → first_values (handled cr2 l rsp error_code mem) ≡ error_code ∷ rsp ∷ mem (rsp + 0x98) ∷ []
unfolding do_debug do_nmi do_int3 do_overflow do_bounds do_undefined_opcode do_dev_not_available
    do_double_fault do_coprocessor_segment_overrun do_invalid_tss do_segment_not_present
    do_stack_segment_fault do_general_protection do_page_fault do_x87_fpu_error do_alignment_check
    do_machine_check do_simd_exception do_virtualization_exception
first_values_lem cr2 divide_error rsp error_code mem = refl
first_values_lem cr2 debug rsp error_code mem = refl
first_values_lem cr2 nmi rsp error_code mem = refl
first_values_lem cr2 int3 rsp error_code mem = refl
first_values_lem cr2 overflow rsp error_code mem = refl
first_values_lem cr2 bounds rsp error_code mem = refl
first_values_lem cr2 undefined_opcode rsp error_code mem = refl
first_values_lem cr2 dev_not_available rsp error_code mem = refl
first_values_lem cr2 double_fault rsp error_code mem = refl
first_values_lem cr2 coprocessor_segment_overrun rsp error_code mem = refl
first_values_lem cr2 invalid_tss rsp error_code mem = refl
first_values_lem cr2 segment_not_present rsp error_code mem = refl
first_values_lem cr2 stack_segment_fault rsp error_code mem = refl
first_values_lem cr2 general_protection rsp error_code mem = refl
first_values_lem cr2 page_fault rsp error_code mem = refl
first_values_lem cr2 x87_fpu_error rsp error_code mem = refl
first_values_lem cr2 alignment_check rsp error_code mem = refl
first_values_lem cr2 machine_check rsp error_code mem = refl
first_values_lem cr2 simd_exception rsp error_code mem = refl
first_values_lem cr2 virtualization_exception rsp error_code mem = refl

-- The first values of a handler that was called with the saved registers.
called-values :
    (cr2 function func errcode second ret : ℕ) (l : Label) (c : Context) (k : Kernel)
    → IsCalled function func errcode second ret c k
    → (k.cpu.rip ≡ function)
      × (first_values (handled cr2 l k.cpu.rdi k.cpu.rsi k.words)
          ≡ second ∷ k.cpu.rdi ∷ c.cpu.rip ∷ [])
called-values cr2 function func errcode second ret l c k call = (
  call.entry,
  first_values_lem cr2 l k.cpu.rdi k.cpu.rsi k.words
      ∙ ap (λ e. e ∷ k.cpu.rdi ∷ k.words (k.cpu.rdi + 0x98) ∷ []) call.error
      ∙ ap (λ w. second ∷ k.cpu.rdi ∷ w ∷ [])
          (Holds-word k.words k.cpu.rdi 19 c.cpu.rip (words_of (regs_of func errcode c)) refl
            call.regs),
)

-- With 28 words of room on its stack and an error code if the processor has one for it, every
-- exception's stub calls its handler, which prints the error code, 0 if there is none, the address
-- of the saved registers, and the address of the interrupted instruction; but `divide_error` calls
-- `do_debug`, which prints the address of `do_divide_error` instead.
pub stub-values :
    (h : Handlers) (ret stack cr2 : ℕ) (l : Label) (error : Option ℕ) (c : Context) (k : Kernel)
    → 28 * 8 ≤ stack
    → has_error_code l ≡ is_some error
    → let called = stub h ret l (deliver stack error c k) in
      (called.cpu.rip ≡ handler_of h l)
      × (first_values (handled cr2 l called.cpu.rdi called.cpu.rsi called.words)
          ≡ error_of error ∷ called.cpu.rdi ∷ reported_rip h l c ∷ [])
unfolding stub
stub-values h ret stack cr2 divide_error (some error) c k room e = absurd (ground (arith, e))
stub-values h ret stack cr2 divide_error none c k room e =
    called-values cr2 _ _ _ _ ret divide_error _ _ (divide_error-IsCalled ret stack c k room h)
stub-values h ret stack cr2 debug (some error) c k room e = absurd (ground (arith, e))
stub-values h ret stack cr2 debug none c k room e =
    called-values cr2 _ _ _ _ ret debug _ _
      (place_holder_stub-IsCalled ret stack c k room h.do_debug)
stub-values h ret stack cr2 nmi (some error) c k room e = absurd (ground (arith, e))
stub-values h ret stack cr2 nmi none c k room e =
    called-values cr2 _ _ _ _ ret nmi _ _ (nmi_stub-IsCalled ret stack c k room h.do_nmi)
stub-values h ret stack cr2 int3 (some error) c k room e = absurd (ground (arith, e))
stub-values h ret stack cr2 int3 none c k room e =
    called-values cr2 _ _ _ _ ret int3 _ _ (place_holder_stub-IsCalled ret stack c k room h.do_int3)
stub-values h ret stack cr2 overflow (some error) c k room e = absurd (ground (arith, e))
stub-values h ret stack cr2 overflow none c k room e =
    called-values cr2 _ _ _ _ ret overflow _ _
      (place_holder_stub-IsCalled ret stack c k room h.do_overflow)
stub-values h ret stack cr2 bounds (some error) c k room e = absurd (ground (arith, e))
stub-values h ret stack cr2 bounds none c k room e =
    called-values cr2 _ _ _ _ ret bounds _ _
      (place_holder_stub-IsCalled ret stack c k room h.do_bounds)
stub-values h ret stack cr2 undefined_opcode (some error) c k room e = absurd (ground (arith, e))
stub-values h ret stack cr2 undefined_opcode none c k room e =
    called-values cr2 _ _ _ _ ret undefined_opcode _ _
      (place_holder_stub-IsCalled ret stack c k room h.do_undefined_opcode)
stub-values h ret stack cr2 dev_not_available (some error) c k room e = absurd (ground (arith, e))
stub-values h ret stack cr2 dev_not_available none c k room e =
    called-values cr2 _ _ _ _ ret dev_not_available _ _
      (place_holder_stub-IsCalled ret stack c k room h.do_dev_not_available)
stub-values h ret stack cr2 double_fault none c k room e = absurd (ground (arith, e))
stub-values h ret stack cr2 double_fault (some error) c k room e =
    called-values cr2 _ _ _ _ ret double_fault _ _
      (plain_stub-IsCalled ret stack c k room h.do_double_fault error)
stub-values h ret stack cr2 coprocessor_segment_overrun (some error) c k room e =
    absurd (ground (arith, e))
stub-values h ret stack cr2 coprocessor_segment_overrun none c k room e =
    called-values cr2 _ _ _ _ ret coprocessor_segment_overrun _ _
      (place_holder_stub-IsCalled ret stack c k room h.do_coprocessor_segment_overrun)
stub-values h ret stack cr2 invalid_tss none c k room e = absurd (ground (arith, e))
stub-values h ret stack cr2 invalid_tss (some error) c k room e =
    called-values cr2 _ _ _ _ ret invalid_tss _ _
      (plain_stub-IsCalled ret stack c k room h.do_invalid_tss error)
stub-values h ret stack cr2 segment_not_present none c k room e = absurd (ground (arith, e))
stub-values h ret stack cr2 segment_not_present (some error) c k room e =
    called-values cr2 _ _ _ _ ret segment_not_present _ _
      (plain_stub-IsCalled ret stack c k room h.do_segment_not_present error)
stub-values h ret stack cr2 stack_segment_fault none c k room e = absurd (ground (arith, e))
stub-values h ret stack cr2 stack_segment_fault (some error) c k room e =
    called-values cr2 _ _ _ _ ret stack_segment_fault _ _
      (plain_stub-IsCalled ret stack c k room h.do_stack_segment_fault error)
stub-values h ret stack cr2 general_protection none c k room e = absurd (ground (arith, e))
stub-values h ret stack cr2 general_protection (some error) c k room e =
    called-values cr2 _ _ _ _ ret general_protection _ _
      (plain_stub-IsCalled ret stack c k room h.do_general_protection error)
stub-values h ret stack cr2 page_fault none c k room e = absurd (ground (arith, e))
stub-values h ret stack cr2 page_fault (some error) c k room e =
    called-values cr2 _ _ _ _ ret page_fault _ _
      (plain_stub-IsCalled ret stack c k room h.do_page_fault error)
stub-values h ret stack cr2 x87_fpu_error (some error) c k room e = absurd (ground (arith, e))
stub-values h ret stack cr2 x87_fpu_error none c k room e =
    called-values cr2 _ _ _ _ ret x87_fpu_error _ _
      (place_holder_stub-IsCalled ret stack c k room h.do_x87_fpu_error)
stub-values h ret stack cr2 alignment_check none c k room e = absurd (ground (arith, e))
stub-values h ret stack cr2 alignment_check (some error) c k room e =
    called-values cr2 _ _ _ _ ret alignment_check _ _
      (plain_stub-IsCalled ret stack c k room h.do_alignment_check error)
stub-values h ret stack cr2 machine_check (some error) c k room e = absurd (ground (arith, e))
stub-values h ret stack cr2 machine_check none c k room e =
    called-values cr2 _ _ _ _ ret machine_check _ _
      (place_holder_stub-IsCalled ret stack c k room h.do_machine_check)
stub-values h ret stack cr2 simd_exception (some error) c k room e = absurd (ground (arith, e))
stub-values h ret stack cr2 simd_exception none c k room e =
    called-values cr2 _ _ _ _ ret simd_exception _ _
      (place_holder_stub-IsCalled ret stack c k room h.do_simd_exception)
stub-values h ret stack cr2 virtualization_exception (some error) c k room e =
    absurd (ground (arith, e))
stub-values h ret stack cr2 virtualization_exception none c k room e =
    called-values cr2 _ _ _ _ ret virtualization_exception _ _
      (place_holder_stub-IsCalled ret stack c k room h.do_virtualization_exception)
