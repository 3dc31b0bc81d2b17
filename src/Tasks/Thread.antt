-- ===== src/Tasks/Thread.antt =====
-- `kernel_thread_func` and `do_exit` of cOS/kernel/src/task.c: the first code that a new thread
-- runs.
pub mod Call
use oslib.Prelude.{ℕ, ◌+◌, ◌-◌, ◌*◌, ◌%◌, ◌^◌}
use oslib.Memory.Types.{update}
use oslib.Tasks.Types.{Cpu, Kernel, Layout}

-- A processor with the word that `popq` takes off the stack.
abbrev pub top : (ℕ → ℕ) → Cpu → ℕ
top words c = words c.rsp

abbrev pub pushq : ℕ → Kernel → Kernel
pushq v k = record k {
  words = update k.words (k.cpu.rsp - 8) v;
  cpu = record (k.cpu) { rsp = k.cpu.rsp - 8 };
}

-- The `popq` instructions up to the one that fills `es`, and the last one.
unfoldable pub pop_frame : (ℕ → ℕ) → Cpu → Cpu
pop_frame words c =
    let c = record c { r15 = top words c; rsp = c.rsp + 8 } in
    let c = record c { r14 = top words c; rsp = c.rsp + 8 } in
    let c = record c { r13 = top words c; rsp = c.rsp + 8 } in
    let c = record c { r12 = top words c; rsp = c.rsp + 8 } in
    let c = record c { r11 = top words c; rsp = c.rsp + 8 } in
    let c = record c { r10 = top words c; rsp = c.rsp + 8 } in
    let c = record c { r9 = top words c; rsp = c.rsp + 8 } in
    let c = record c { r8 = top words c; rsp = c.rsp + 8 } in
    let c = record c { rbx = top words c; rsp = c.rsp + 8 } in
    let c = record c { rcx = top words c; rsp = c.rsp + 8 } in
    let c = record c { rdx = top words c; rsp = c.rsp + 8 } in
    let c = record c { rsi = top words c; rsp = c.rsp + 8 } in
    let c = record c { rdi = top words c; rsp = c.rsp + 8 } in
    let c = record c { rbp = top words c; rsp = c.rsp + 8 } in
    let c = record c { rax = top words c; rsp = c.rsp + 8 } in
    let c = record c { ds = c.rax % 2 ^ 16 } in
    let c = record c { rax = top words c; rsp = c.rsp + 8 } in
    let c = record c { es = c.rax % 2 ^ 16 } in record c { rax = top words c; rsp = c.rsp + 8 }

-- Up to the call of the thread's function: its first instruction is the next to run. The return
-- address that the call pushes is a place in `kernel_thread_func`.
pub kernel_thread_func : (return_address : ℕ) → Kernel → Kernel
unfolding pop_frame
kernel_thread_func return_address k =
    let c = pop_frame k.words k.cpu in
    let c = record c { rsp = c.rsp + 0x38 } in
    let c = record c { rdi = c.rdx } in
    let k = pushq return_address (record k { cpu = c }) in
    record k { cpu = record (k.cpu) { rip = c.rbx } }

-- When the function has returned: its result is the argument of `do_exit`, which loops for ever.
pub exit_thread : Layout → (return_address : ℕ) → Kernel → Kernel
exit_thread l return_address k =
    let k = pushq return_address (record k { cpu = record (k.cpu) { rdi = k.cpu.rax } }) in
    record k { cpu = record (k.cpu) { rip = l.do_exit } }
