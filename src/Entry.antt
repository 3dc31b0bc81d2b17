-- ===== src/Entry.antt =====
-- The entry code of the kernel, cOS/kernel/src/entry.sx: what saves the registers at an exception
-- and what restores them at the end of every interrupt. The processor pushes what it interrupted on
-- the stack before the code runs, and `iretq` takes it back.
pub mod Stack
pub mod Stubs
pub mod Return
use oslib.Prelude.{ℕ, ◌+◌, ◌-◌, ◌%◌, ◌^◌, Option, none, some}
use oslib.Tasks.Types.{Cpu, Kernel}
use oslib.Tasks.Thread.{top, pushq, pop_frame}

-- What runs: the registers, with the ones that the assembly of the kernel never names.
pub record Context : Type 0 where
  pub cpu : Cpu
  pub cs : ℕ
  pub rflags : ℕ
  pub ss : ℕ

-- The processor puts an error code on the stack with some exceptions.
abbrev pub push_error : Option ℕ → Kernel → Kernel
push_error none k = k
push_error (some e) k = pushq e k

-- An interrupt or exception in the context `c`: the stack is the one that the descriptor selects.
unfoldable pub deliver : (stack : ℕ) → Option ℕ → Context → Kernel → Kernel
deliver stack error c k =
    let k = record k { cpu = record (c.cpu) { rsp = stack } } in
    let k = pushq c.ss k in
    let k = pushq c.cpu.rsp k in
    let k = pushq c.rflags k in let k = pushq c.cs k in push_error error (pushq c.cpu.rip k)

-- `iretq`
abbrev pub iretq : Kernel → Context
iretq k =
    let rsp = k.cpu.rsp in
    record {
      cpu = record (k.cpu) { rip = k.words rsp; rsp = k.words (rsp + 24) };
      cs = k.words (rsp + 8) % 2 ^ 16;
      rflags = k.words (rsp + 16);
      ss = k.words (rsp + 32) % 2 ^ 16;
    }

-- `RSETORE_ALL` and what it returns to. It skips the words of the function and the error code.
pub restore_all : Kernel → Context
unfolding pop_frame
restore_all k =
    let c = pop_frame k.words k.cpu in iretq (record k { cpu = record c { rsp = c.rsp + 0x10 } })

-- `movq` to `rax` from a segment register.
abbrev pub load_rax : ℕ → Kernel → Kernel
load_rax v k = record k { cpu = record (k.cpu) { rax = v } }

-- The `pushq` instructions that `error_code` and `nmi` have in common.
pub save_registers : Kernel → Kernel
save_registers k =
    let k = pushq k.cpu.rax k in
    let k = load_rax k.cpu.es k in
    let k = pushq k.cpu.rax k in
    let k = load_rax k.cpu.ds k in
    let k = pushq k.cpu.rax k in
    let k = load_rax 0 k in
    let k = pushq k.cpu.rbp k in
    let k = pushq k.cpu.rdi k in
    let k = pushq k.cpu.rsi k in
    let k = pushq k.cpu.rdx k in
    let k = pushq k.cpu.rcx k in
    let k = pushq k.cpu.rbx k in
    let k = pushq k.cpu.r8 k in
    let k = pushq k.cpu.r9 k in
    let k = pushq k.cpu.r10 k in
    let k = pushq k.cpu.r11 k in
    let k = pushq k.cpu.r12 k in
    let k = pushq k.cpu.r13 k in let k = pushq k.cpu.r14 k in pushq k.cpu.r15 k

-- `callq`, with the address of the next instruction.
abbrev pub callq : (next function : ℕ) → Kernel → Kernel
callq next function k = let k = pushq next k in record k { cpu = record (k.cpu) { rip = function } }

-- `error_code` up to the first instruction of the handler; the one behind the call leads to
-- `RSETORE_ALL`.
pub error_code : (ret_from_exception : ℕ) → Kernel → Kernel
unfolding save_registers
error_code ret_from_exception k =
    let k = save_registers k in
    let k = record k {
      cpu = record (k.cpu) {
        rsi = k.words (k.cpu.rsp + 0x90);
        rdx = k.words (k.cpu.rsp + 0x88);
        rdi = 0x10;
      };
    } in
    let k = record k {
      cpu = record (k.cpu) { ds = k.cpu.rdi % 2 ^ 16; es = k.cpu.rdi % 2 ^ 16 };
    } in
    let k = record k { cpu = record (k.cpu) { rdi = k.cpu.rsp } } in
    callq ret_from_exception k.cpu.rdx k
