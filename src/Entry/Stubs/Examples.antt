-- ===== src/Entry/Stubs/Examples.antt =====
-- A page fault of the code that a thread runs.
use oslib.Prelude.{◌+◌, ◌≡◌, refl, arith, some, [], ◌∷◌}
use oslib.Memory.Samples.{free_memory}
use oslib.Tasks.Types.{Kernel}
use oslib.Tasks.Samples.{layout, kernel}
use oslib.Entry.{Context, deliver}
use oslib.Entry.Stubs.{Handlers, stub, page_fault}
use oslib.Entry.Stubs.Handled.{handled, first_values}
use oslib.Entry.Stubs.Reports.{stub-values}

abbrev handlers : Handlers
handlers = record {
  do_divide_error = 0xffff800000105000 + 0;
  do_debug = 0xffff800000105000 + 64;
  do_nmi = 0xffff800000105000 + 128;
  do_int3 = 0xffff800000105000 + 192;
  do_overflow = 0xffff800000105000 + 256;
  do_bounds = 0xffff800000105000 + 320;
  do_undefined_opcode = 0xffff800000105000 + 384;
  do_dev_not_available = 0xffff800000105000 + 448;
  do_double_fault = 0xffff800000105000 + 512;
  do_coprocessor_segment_overrun = 0xffff800000105000 + 576;
  do_invalid_tss = 0xffff800000105000 + 640;
  do_segment_not_present = 0xffff800000105000 + 704;
  do_stack_segment_fault = 0xffff800000105000 + 768;
  do_general_protection = 0xffff800000105000 + 832;
  do_page_fault = 0xffff800000105000 + 896;
  do_x87_fpu_error = 0xffff800000105000 + 960;
  do_alignment_check = 0xffff800000105000 + 1024;
  do_machine_check = 0xffff800000105000 + 1088;
  do_simd_exception = 0xffff800000105000 + 1152;
  do_virtualization_exception = 0xffff800000105000 + 1216;
}

abbrev context : Context
context = record { cpu = (kernel free_memory).cpu; cs = 8; rflags = 0x202; ss = 0x10 }

abbrev called : Kernel
called =
    stub handlers layout.ret_from_intr page_fault
      (deliver 0xffff800000007c00 (some 2) context (kernel free_memory))

stub-values_example :
    (called.cpu.rip ≡ handlers.do_page_fault)
    × (first_values (handled 0x1000 page_fault called.cpu.rdi called.cpu.rsi called.words)
        ≡ 2 ∷ called.cpu.rdi ∷ context.cpu.rip ∷ [])
stub-values_example =
    stub-values handlers layout.ret_from_intr 0xffff800000007c00 0x1000 page_fault (some 2) context
      (kernel free_memory) (omega arith) refl
