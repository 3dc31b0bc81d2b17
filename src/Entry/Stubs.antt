-- ===== src/Entry/Stubs.antt =====
-- The stubs of cOS/kernel/src/entry.sx to which the exceptions' descriptors lead.
pub mod Called
pub mod Handled
pub mod Reports
mod Examples
use oslib.Prelude.{ℕ, ◌%◌, ◌^◌}
use oslib.Memory.Types.{update}
use oslib.Tasks.Types.{Kernel}
use oslib.Tasks.Thread.{pushq}
use oslib.Entry.{load_rax, save_registers, callq, error_code}

-- The addresses of the handlers of cOS/kernel/src/trap.c.
pub record Handlers : Type 0 where
  pub do_divide_error : ℕ
  pub do_debug : ℕ
  pub do_nmi : ℕ
  pub do_int3 : ℕ
  pub do_overflow : ℕ
  pub do_bounds : ℕ
  pub do_undefined_opcode : ℕ
  pub do_dev_not_available : ℕ
  pub do_double_fault : ℕ
  pub do_coprocessor_segment_overrun : ℕ
  pub do_invalid_tss : ℕ
  pub do_segment_not_present : ℕ
  pub do_stack_segment_fault : ℕ
  pub do_general_protection : ℕ
  pub do_page_fault : ℕ
  pub do_x87_fpu_error : ℕ
  pub do_alignment_check : ℕ
  pub do_machine_check : ℕ
  pub do_simd_exception : ℕ
  pub do_virtualization_exception : ℕ

-- `pushq %rax`, `leaq`, and `xchgq`: `rax` is as before, and the handler's address is on the stack.
abbrev pub push_handler : ℕ → Kernel → Kernel
push_handler handler k =
    let k = load_rax handler (pushq k.cpu.rax k) in
    let saved = k.words k.cpu.rsp in
    load_rax saved (record k { words = update k.words k.cpu.rsp k.cpu.rax })

-- A stub of an exception for which the processor pushes an error code.
pub plain_stub : (ret_from_exception handler : ℕ) → Kernel → Kernel
plain_stub ret_from_exception handler k = error_code ret_from_exception (push_handler handler k)

-- A stub that pushes a zero in the place of the error code.
pub place_holder_stub : (ret_from_exception handler : ℕ) → Kernel → Kernel
place_holder_stub ret_from_exception handler k =
    error_code ret_from_exception (push_handler handler (pushq 0 k))

-- `nmi`: the words of the error code and of the function hold `rax`, and the call is direct.
pub nmi_stub : (do_nmi ret : ℕ) → Kernel → Kernel
unfolding save_registers
nmi_stub do_nmi ret k =
    let k = save_registers (pushq k.cpu.rax (pushq k.cpu.rax k)) in
    let k = record k { cpu = record (k.cpu) { rdx = 0x10 } } in
    let k = record k {
      cpu = record (k.cpu) { ds = k.cpu.rdx % 2 ^ 16; es = k.cpu.rdx % 2 ^ 16 };
    } in
    let k = record k { cpu = record (k.cpu) { rsi = 0; rdi = k.cpu.rsp } } in callq ret do_nmi k

-- The labels.
pub data Label : Type 0 where
  divide_error debug nmi int3 overflow bounds undefined_opcode dev_not_available double_fault
        coprocessor_segment_overrun invalid_tss segment_not_present stack_segment_fault
        general_protection page_fault x87_fpu_error alignment_check machine_check simd_exception
        virtualization_exception :
      Label

-- Behind `divide_error` there is no jump: the stub of `debug` follows.
pub stub : Handlers → (ret_from_exception : ℕ) → Label → Kernel → Kernel
stub h ret divide_error k =
    place_holder_stub ret h.do_debug (push_handler h.do_divide_error (pushq 0 k))
stub h ret debug k = place_holder_stub ret h.do_debug k
stub h ret nmi k = nmi_stub h.do_nmi ret k
stub h ret int3 k = place_holder_stub ret h.do_int3 k
stub h ret overflow k = place_holder_stub ret h.do_overflow k
stub h ret bounds k = place_holder_stub ret h.do_bounds k
stub h ret undefined_opcode k = place_holder_stub ret h.do_undefined_opcode k
stub h ret dev_not_available k = place_holder_stub ret h.do_dev_not_available k
stub h ret double_fault k = plain_stub ret h.do_double_fault k
stub h ret coprocessor_segment_overrun k = place_holder_stub ret h.do_coprocessor_segment_overrun k
stub h ret invalid_tss k = plain_stub ret h.do_invalid_tss k
stub h ret segment_not_present k = plain_stub ret h.do_segment_not_present k
stub h ret stack_segment_fault k = plain_stub ret h.do_stack_segment_fault k
stub h ret general_protection k = plain_stub ret h.do_general_protection k
stub h ret page_fault k = plain_stub ret h.do_page_fault k
stub h ret x87_fpu_error k = place_holder_stub ret h.do_x87_fpu_error k
stub h ret alignment_check k = plain_stub ret h.do_alignment_check k
stub h ret machine_check k = place_holder_stub ret h.do_machine_check k
stub h ret simd_exception k = place_holder_stub ret h.do_simd_exception k
stub h ret virtualization_exception k = place_holder_stub ret h.do_virtualization_exception k
