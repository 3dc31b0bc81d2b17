-- ===== src/Tasks/Types.antt =====
-- The structures of cOS/kernel/include/task.h and cOS/kernel/include/ptrace.h, the processor's
-- registers, and the state that the functions of cOS/kernel/src/task.c share. Each kind of structure
-- has a store of its own by address, and so have the words on the stacks: an object of one kind
-- never overlaps one of another kind. A field that the code never reads as a number is left as the
-- address that it holds.
use oslib.Prelude.{ℕ, ◌+◌, ◌*◌, ◌^◌, List, [], ◌∷◌}
use oslib.Links.{Store}
use oslib.Memory.Types.{Memory, update}

abbrev pub kernel_cs : ℕ
kernel_cs = 0x08

abbrev pub kernel_ds : ℕ
kernel_ds = 0x10

abbrev pub clone_fs : ℕ
clone_fs = 2 ^ 0

abbrev pub clone_files : ℕ
clone_files = 2 ^ 1

abbrev pub clone_signal : ℕ
clone_signal = 2 ^ 2

abbrev pub stack_size : ℕ
stack_size = 32768

abbrev pub task_running : ℕ
task_running = 2 ^ 0

abbrev pub task_uninterruptible : ℕ
task_uninterruptible = 2 ^ 2

abbrev pub pf_kthread : ℕ
pf_kthread = 2 ^ 0

pub record PtRegs : Type 0 where
  pub r15 : ℕ
  pub r14 : ℕ
  pub r13 : ℕ
  pub r12 : ℕ
  pub r11 : ℕ
  pub r10 : ℕ
  pub r9 : ℕ
  pub r8 : ℕ
  pub rbx : ℕ
  pub rcx : ℕ
  pub rdx : ℕ
  pub rsi : ℕ
  pub rdi : ℕ
  pub rbp : ℕ
  pub ds : ℕ
  pub es : ℕ
  pub rax : ℕ
  pub func : ℕ
  pub errcode : ℕ
  pub rip : ℕ
  pub cs : ℕ
  pub rflags : ℕ
  pub rsp : ℕ
  pub ss : ℕ

-- The words of the structure, from its address up.
abbrev pub words_of : PtRegs → List ℕ
words_of r =
    r.r15 ∷ r.r14 ∷ r.r13 ∷ r.r12 ∷ r.r11 ∷ r.r10 ∷ r.r9 ∷ r.r8 ∷ r.rbx ∷ r.rcx ∷ r.rdx ∷ r.rsi
    ∷ r.rdi ∷ r.rbp ∷ r.ds ∷ r.es ∷ r.rax ∷ r.func ∷ r.errcode ∷ r.rip ∷ r.cs ∷ r.rflags ∷ r.rsp
    ∷ r.ss ∷ []

abbrev pub size_of_pt_regs : ℕ
size_of_pt_regs = 24 * 8

pub record MmStruct : Type 0 where
  pub pgd : ℕ
  pub start_code : ℕ
  pub end_code : ℕ
  pub start_data : ℕ
  pub end_data : ℕ
  pub start_rodata : ℕ
  pub end_rodata : ℕ
  pub start_brk : ℕ
  pub end_brk : ℕ
  pub start_stack : ℕ

pub record ThreadStruct : Type 0 where
  pub rsp0 : ℕ
  pub rip : ℕ
  pub rsp : ℕ
  pub fs : ℕ
  pub gs : ℕ
  pub cr2 : ℕ
  pub trap_nr : ℕ
  pub error_code : ℕ

-- The first member, the links of the list, is in a store of its own: it has the task's address.
pub record TaskStruct : Type 0 where
  pub state : ℕ
  pub flags : ℕ
  pub mm : ℕ
  pub thread : ℕ
  pub addr_limit : ℕ
  pub pid : ℕ
  pub counter : ℕ
  pub signal : ℕ
  pub priority : ℕ

abbrev pub size_of_task_struct : ℕ
size_of_task_struct = 88

pub record TssStruct : Type 0 where
  pub rsp0 : ℕ
  pub rsp1 : ℕ
  pub rsp2 : ℕ
  pub ist1 : ℕ
  pub ist2 : ℕ
  pub ist3 : ℕ
  pub ist4 : ℕ
  pub ist5 : ℕ
  pub ist6 : ℕ
  pub ist7 : ℕ

-- The registers that the assembly of task.c names.
pub record Cpu : Type 0 where
  pub rax : ℕ
  pub rbx : ℕ
  pub rcx : ℕ
  pub rdx : ℕ
  pub rsi : ℕ
  pub rdi : ℕ
  pub rbp : ℕ
  pub rsp : ℕ
  pub rip : ℕ
  pub r8 : ℕ
  pub r9 : ℕ
  pub r10 : ℕ
  pub r11 : ℕ
  pub r12 : ℕ
  pub r13 : ℕ
  pub r14 : ℕ
  pub r15 : ℕ
  pub ds : ℕ
  pub es : ℕ
  pub fs : ℕ
  pub gs : ℕ

-- The addresses that the linker gives: objects, functions, the label 1 of `switch_to`, and the ends
-- of sections. `stack_start` is the value of `_stack_start`.
pub record Layout : Type 0 where
  pub init_task_union : ℕ
  pub init_thread : ℕ
  pub init_mm : ℕ
  pub ret_from_intr : ℕ
  pub kernel_thread_func : ℕ
  pub init : ℕ
  pub do_exit : ℕ
  pub resumed : ℕ
  pub text_start : ℕ
  pub text_end : ℕ
  pub data_start : ℕ
  pub data_end : ℕ
  pub rodata_start : ℕ
  pub rodata_end : ℕ
  pub kernel_end : ℕ
  pub stack_start : ℕ

-- `tss` is `init_tss[0]`, and `tss_table` is `TSS64_Table`.
pub record Kernel : Type 0 where
  pub memory : Memory
  pub tasks : ℕ → TaskStruct
  pub threads : ℕ → ThreadStruct
  pub links : Store
  pub words : ℕ → ℕ
  pub tss : TssStruct
  pub tss_table : ℕ → ℕ
  pub mm : MmStruct
  pub cpu : Cpu

abbrev pub set_task : ℕ → TaskStruct → Kernel → Kernel
set_task a t k = record k { tasks = update k.tasks a t }

abbrev pub set_thread : ℕ → ThreadStruct → Kernel → Kernel
set_thread a t k = record k { threads = update k.threads a t }

-- A copy of words to an address and those above it.
unfoldable pub store_words : ℕ → List ℕ → (ℕ → ℕ) → ℕ → ℕ
store_words a [] words = words
store_words a (w ∷ ws) words = store_words (a + 8) ws (update words a w)
