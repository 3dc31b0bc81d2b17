-- ===== src/Entry/Stubs/Handled.antt =====
-- The function that each stub of cOS/kernel/src/entry.sx calls, and what the processor and that
-- function do: the handlers of cOS/kernel/src/trap.c.
use oslib.Prelude.{ℕ, Option, none, some, Bool, true, false, List, [], ◌∷◌}
use oslib.Trap.Report.{Memory, Handled, halts}
use oslib.Trap.Handlers.{
  do_debug, do_nmi, do_int3, do_overflow, do_bounds, do_undefined_opcode, do_dev_not_available,
  do_double_fault, do_coprocessor_segment_overrun, do_x87_fpu_error, do_alignment_check,
  do_machine_check, do_simd_exception, do_virtualization_exception,
}
use oslib.Trap.Selector.{
  do_invalid_tss, do_segment_not_present, do_stack_segment_fault, do_general_protection,
  do_page_fault,
}
use oslib.Entry.{Context}
use oslib.Entry.Stubs.{
  Handlers, Label, divide_error, debug, nmi, int3, overflow, bounds, undefined_opcode,
  dev_not_available, double_fault, coprocessor_segment_overrun, invalid_tss, segment_not_present,
  stack_segment_fault, general_protection, page_fault, x87_fpu_error, alignment_check,
  machine_check, simd_exception, virtualization_exception,
}

-- The function that a stub calls, by its address and by what it does.
abbrev pub handler_of : Handlers → Label → ℕ
handler_of h divide_error = h.do_debug
handler_of h debug = h.do_debug
handler_of h nmi = h.do_nmi
handler_of h int3 = h.do_int3
handler_of h overflow = h.do_overflow
handler_of h bounds = h.do_bounds
handler_of h undefined_opcode = h.do_undefined_opcode
handler_of h dev_not_available = h.do_dev_not_available
handler_of h double_fault = h.do_double_fault
handler_of h coprocessor_segment_overrun = h.do_coprocessor_segment_overrun
handler_of h invalid_tss = h.do_invalid_tss
handler_of h segment_not_present = h.do_segment_not_present
handler_of h stack_segment_fault = h.do_stack_segment_fault
handler_of h general_protection = h.do_general_protection
handler_of h page_fault = h.do_page_fault
handler_of h x87_fpu_error = h.do_x87_fpu_error
handler_of h alignment_check = h.do_alignment_check
handler_of h machine_check = h.do_machine_check
handler_of h simd_exception = h.do_simd_exception
handler_of h virtualization_exception = h.do_virtualization_exception

abbrev pub handled : (cr2 : ℕ) → Label → (rsp error_code : ℕ) → Memory → Handled
handled cr2 divide_error = do_debug
handled cr2 debug = do_debug
handled cr2 nmi = do_nmi
handled cr2 int3 = do_int3
handled cr2 overflow = do_overflow
handled cr2 bounds = do_bounds
handled cr2 undefined_opcode = do_undefined_opcode
handled cr2 dev_not_available = do_dev_not_available
handled cr2 double_fault = do_double_fault
handled cr2 coprocessor_segment_overrun = do_coprocessor_segment_overrun
handled cr2 invalid_tss = do_invalid_tss
handled cr2 segment_not_present = do_segment_not_present
handled cr2 stack_segment_fault = do_stack_segment_fault
handled cr2 general_protection = do_general_protection
handled cr2 page_fault = do_page_fault cr2
handled cr2 x87_fpu_error = do_x87_fpu_error
handled cr2 alignment_check = do_alignment_check
handled cr2 machine_check = do_machine_check
handled cr2 simd_exception = do_simd_exception
handled cr2 virtualization_exception = do_virtualization_exception

-- The exceptions with which the processor pushes an error code.
abbrev pub has_error_code : Label → Bool
has_error_code divide_error = false
has_error_code debug = false
has_error_code nmi = false
has_error_code int3 = false
has_error_code overflow = false
has_error_code bounds = false
has_error_code undefined_opcode = false
has_error_code dev_not_available = false
has_error_code double_fault = true
has_error_code coprocessor_segment_overrun = false
has_error_code invalid_tss = true
has_error_code segment_not_present = true
has_error_code stack_segment_fault = true
has_error_code general_protection = true
has_error_code page_fault = true
has_error_code x87_fpu_error = false
has_error_code alignment_check = true
has_error_code machine_check = false
has_error_code simd_exception = false
has_error_code virtualization_exception = false

abbrev pub is_some : Option ℕ → Bool
is_some none = false
is_some (some e) = true

abbrev pub error_of : Option ℕ → ℕ
error_of none = 0
error_of (some e) = e

-- The values of the first line that the handler prints.
abbrev pub first_values : Handled → List ℕ
first_values (halts []) = []
first_values (halts (c ∷ cs)) = c.args

-- The address that the handler takes for the interrupted instruction's.
abbrev pub reported_rip : Handlers → Label → Context → ℕ
reported_rip h divide_error c = h.do_divide_error
reported_rip h _ c = c.cpu.rip
