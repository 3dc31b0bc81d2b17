-- ===== src/Trap/Handlers.antt =====
-- The handlers of cOS/kernel/src/trap.c that print the error code and the addresses alone.
use oslib.Prelude.{ℕ, [], ◌∷◌}
use oslib.Trap.Report.{Memory, Handled, halts, header}

pub do_divide_error : (rsp error_code : ℕ) → Memory → Handled
do_divide_error rsp error_code mem = halts (
    header "do_divide_error(0), ERROR_CODE: %#018lx, RSP: %#018lx, RIP: %#018lx\n" rsp error_code
      mem
    ∷ [])

unfoldable pub do_debug : (rsp error_code : ℕ) → Memory → Handled
do_debug rsp error_code mem = halts (
    header "do_debug(1), ERROR_CODE: %#018lx, RSP: %#018lx, RIP: %#018lx\n" rsp error_code mem ∷ [])

unfoldable pub do_nmi : (rsp error_code : ℕ) → Memory → Handled
do_nmi rsp error_code mem =
    halts (
      header "do_nmi(2), ERROR_CODE: %#018lx, RSP: %#018lx, RIP: %#018lx\n" rsp error_code mem ∷ [])

unfoldable pub do_int3 : (rsp error_code : ℕ) → Memory → Handled
do_int3 rsp error_code mem =
    halts (
      header "do_int3(3), ERROR_CODE: %#018lx, RSP: %#018lx, RIP: %#018lx\n" rsp error_code mem
      ∷ [])

unfoldable pub do_overflow : (rsp error_code : ℕ) → Memory → Handled
do_overflow rsp error_code mem = halts (
    header "do_overflow(4), ERROR_CODE: %#018lx, RSP: %#018lx, RIP: %#018lx\n" rsp error_code mem
    ∷ [])

unfoldable pub do_bounds : (rsp error_code : ℕ) → Memory → Handled
do_bounds rsp error_code mem = halts (
    header "do_bounds(5), ERROR_CODE: %#018lx, RSP: %#018lx, RIP: %#018lx\n" rsp error_code mem
    ∷ [])

unfoldable pub do_undefined_opcode : (rsp error_code : ℕ) → Memory → Handled
do_undefined_opcode rsp error_code mem = halts (
    header "do_undefined_opcode(6), ERROR_CODE: %#018lx, RSP: %#018lx, RIP: %#018lx\n" rsp
      error_code mem
    ∷ [])

unfoldable pub do_dev_not_available : (rsp error_code : ℕ) → Memory → Handled
do_dev_not_available rsp error_code mem = halts (
    header "do_dev_not_available(7), ERROR_CODE: %#018lx, RSP: %#018lx, RIP: %#018lx\n" rsp
      error_code mem
    ∷ [])

unfoldable pub do_double_fault : (rsp error_code : ℕ) → Memory → Handled
do_double_fault rsp error_code mem = halts (
    header "do_double_fault(8), ERROR_CODE: %#018lx, RSP: %#018lx, RIP: %#018lx\n" rsp error_code
      mem
    ∷ [])

unfoldable pub do_coprocessor_segment_overrun : (rsp error_code : ℕ) → Memory → Handled
do_coprocessor_segment_overrun rsp error_code mem = halts (
    header "do_coprocessor_segment_overrun(9), ERROR_CODE: %#018lx, RSP: %#018lx, RIP: %#018lx\n"
      rsp error_code mem
    ∷ [])

unfoldable pub do_x87_fpu_error : (rsp error_code : ℕ) → Memory → Handled
do_x87_fpu_error rsp error_code mem = halts (
    header "do_x87_FPU_error(16), ERROR_CODE: %#018lx, RSP: %#018lx, RIP: %#018lx\n" rsp error_code
      mem
    ∷ [])

unfoldable pub do_alignment_check : (rsp error_code : ℕ) → Memory → Handled
do_alignment_check rsp error_code mem = halts (
    header "do_alignment_check(17), ERROR_CODE: %#018lx, RSP: %#018lx, RIP: %#018lx\n" rsp
      error_code mem
    ∷ [])

unfoldable pub do_machine_check : (rsp error_code : ℕ) → Memory → Handled
do_machine_check rsp error_code mem = halts (
    header "do_machine_check(18), ERROR_CODE: %#018lx, RSP: %#018lx, RIP: %#018lx\n" rsp error_code
      mem
    ∷ [])

unfoldable pub do_simd_exception : (rsp error_code : ℕ) → Memory → Handled
do_simd_exception rsp error_code mem = halts (
    header "do_SIMD_exception(19), ERROR_CODE: %#018lx, RSP: %#018lx, RIP: %#018lx\n" rsp error_code
      mem
    ∷ [])

unfoldable pub do_virtualization_exception : (rsp error_code : ℕ) → Memory → Handled
do_virtualization_exception rsp error_code mem = halts (
    header "do_virtualization_exception(20), ERROR_CODE: %#018lx, RSP: %#018lx, RIP: %#018lx\n" rsp
      error_code mem
    ∷ [])
