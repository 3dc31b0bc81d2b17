-- ===== src/Trap/Examples.antt =====
-- The vector table for handlers at one address, and one report.
use oslib.Prelude.{ℕ, ◌≡◌, true, arith}
use oslib.Gate.{IdtTable}
use oslib.Trap.Report.{Memory}
use oslib.Trap.Vectors.{Symbol}
use oslib.Trap.Selector.{
  do_invalid_tss, do_segment_not_present, do_stack_segment_fault, do_general_protection,
}
use oslib.Trap.Selector.Errors.{selector_error, selector_errors, ldt}

abbrev address : Symbol → ℕ
address s = 0xffff800000104000

abbrev empty_table : IdtTable
empty_table n = record { low = 0; high = 0 }

abbrev memory : Memory
memory a = 0xffff800000104000

selector_errors_example :
    (do_invalid_tss 0x7c00 85 memory
      ≡ selector_error "do_invalid_TSS(10), ERROR_CODE: %#018lx, RSP: %#018lx, RIP: %#018lx\n"
          0x7c00 memory true ldt 10)
    × (do_segment_not_present 0x7c00 85 memory
        ≡ selector_error
            "do_segment_not_present(11), ERROR_CODE: %#018lx, RSP: %#018lx, RIP: %#018lx\n" 0x7c00
            memory true ldt 10)
    × (do_stack_segment_fault 0x7c00 85 memory
        ≡ selector_error
            "do_stack_segment_fault(12), ERROR_CODE: %#018lx, RSP: %#018lx, RIP: %#018lx\n" 0x7c00
            memory true ldt 10)
    × (do_general_protection 0x7c00 85 memory
        ≡ selector_error
            "do_general_protection(13), ERROR_CODE: %#018lx, RSP: %#018lx, RIP: %#018lx\n" 0x7c00
            memory true ldt 10)
selector_errors_example = selector_errors 0x7c00 memory true ldt 10 (omega arith)
