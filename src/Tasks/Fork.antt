-- ===== src/Tasks/Fork.antt =====
-- `do_fork` and `kernel_thread` of cOS/kernel/src/task.c.
pub mod Child
pub mod Queue
pub mod Claimed
use oslib.Prelude.{ℕ, ◌+◌, ◌-◌, ◌*◌, ◌/◌, ◌^◌, ◌==◌, if◌then◌else◌, bit_and, bit_or, not}
use oslib.Prelude.Words.{add64, sub64, not64}
use oslib.Memory.Types.{
  Memory, update, page_offset, zone_normal, pg_ptable_maped, pg_active, pg_kernel,
}
use oslib.Memory.Alloc.{Allocation, alloc_pages, allocated, null, fault, diverges}
use oslib.Links.{list_init, list_add_to_before}
use oslib.Tasks.Types.{
  PtRegs, words_of, size_of_pt_regs, size_of_task_struct, stack_size, task_uninterruptible,
  task_running, pf_kthread, kernel_ds, kernel_cs, TaskStruct, ThreadStruct, Kernel, Layout,
  set_task, set_thread, store_words,
}

-- `rsp & ~32767`: the task whose stack the processor is on.
abbrev pub get_current : Kernel → ℕ
get_current k = bit_and k.cpu.rsp (not64 32767)

-- The registers that the caller passed, and the state; or a page fault, as the read of a page
-- structure at a null pointer is; or a search that does not end.
pub data Forked : Type 0 where
  forked : PtRegs → Kernel → Forked
  page_fault endless : Forked

abbrev pub zeroed_task : TaskStruct
zeroed_task = record {
  state = 0;
  flags = 0;
  mm = 0;
  thread = 0;
  addr_limit = 0;
  pid = 0;
  counter = 0;
  signal = 0;
  priority = 0;
}

abbrev pub phy_to_virt : ℕ → ℕ
phy_to_virt addr = add64 addr page_offset

-- The lines from `memset` to `tsk->thread = thd`.
pub new_task : Layout → (tsk : ℕ) → Kernel → Kernel
new_task l tsk k =
    let k = set_task tsk zeroed_task k in
    let k = record k { links = update k.links tsk (record { prev = 0; next = 0 }) } in
    let c = get_current k in
    let k = record (set_task tsk (k.tasks c) k) { links = update k.links tsk (k.links c) } in
    let k = record k { links = list_init tsk k.links } in
    let k = record k { links = list_add_to_before l.init_task_union tsk k.links } in
    let k = set_task tsk (record (k.tasks tsk) { pid = add64 (k.tasks tsk).pid 1 }) k in
    let k = set_task tsk (record (k.tasks tsk) { state = task_uninterruptible }) k in
    set_task tsk (record (k.tasks tsk) { thread = add64 tsk size_of_task_struct }) k

-- The copy of the registers, and the thread that they start.
pub new_thread : (tsk : ℕ) → PtRegs → Kernel → Kernel
new_thread tsk regs k =
    let thd = (k.tasks tsk).thread in
    let frame = sub64 (add64 tsk stack_size) size_of_pt_regs in
    let k = record k { words = store_words frame (words_of regs) k.words } in
    let k = set_thread thd (record (k.threads thd) { rsp0 = add64 tsk stack_size }) k in
    let k = set_thread thd (record (k.threads thd) { rip = regs.rip }) k in
    set_thread thd (record (k.threads thd) { rsp = frame }) k

-- The test of `PF_KTHREAD`, and the last store.
pub start_task : Layout → (tsk : ℕ) → PtRegs → Kernel → Forked
start_task l tsk regs k =
    let thd = (k.tasks tsk).thread in
    let user = bit_and (k.tasks tsk).flags pf_kthread == 0 in
    let k' =
      if user then set_thread thd (record (k.threads thd) { rip = l.ret_from_intr }) k else k in
    let regs' = if user then record regs { rip = l.ret_from_intr } else regs in
    forked regs' (set_task tsk (record (k'.tasks tsk) { state = task_running }) k')

-- What follows the allocation of page `p`.
pub fork_in_page : Layout → PtRegs → (p : ℕ) → Kernel → Forked
unfolding new_task new_thread start_task
fork_in_page l regs p k =
    let tsk = phy_to_virt (k.memory.pages p).phy_addr in
    start_task l tsk regs (new_thread tsk regs (new_task l tsk k))

-- What follows the call of `alloc_pages`, whose result is read at once: the null pointer is not
-- mapped once `init_memory` has run.
abbrev pub fork_after : Layout → PtRegs → Kernel → Allocation → Forked
fork_after l regs k (allocated p m) = fork_in_page l regs p (record k { memory = m })
fork_after l regs k null = page_fault
fork_after l regs k fault = page_fault
fork_after l regs k diverges = endless

abbrev pub task_page_flags : ℕ
task_page_flags = bit_or (bit_or pg_ptable_maped pg_active) pg_kernel

pub do_fork : Layout → PtRegs → (clone_flags stack_start size : ℕ) → Kernel → Forked
do_fork l regs clone_flags stack_start size k =
    fork_after l regs k (alloc_pages zone_normal 1 task_page_flags k.memory)

-- The registers of a new kernel thread.
pub thread_regs : Layout → (fn arg : ℕ) → PtRegs
thread_regs l fn arg = record {
  r15 = 0;
  r14 = 0;
  r13 = 0;
  r12 = 0;
  r11 = 0;
  r10 = 0;
  r9 = 0;
  r8 = 0;
  rbx = fn;
  rcx = 0;
  rdx = arg;
  rsi = 0;
  rdi = 0;
  rbp = 0;
  ds = kernel_ds;
  es = kernel_ds;
  rax = 0;
  func = 0;
  errcode = 0;
  rip = l.kernel_thread_func;
  cs = kernel_cs;
  rflags = 2 ^ 9;
  rsp = 0;
  ss = kernel_ds;
}

pub kernel_thread : Layout → (fn arg flags : ℕ) → Kernel → Forked
unfolding thread_regs do_fork
kernel_thread l fn arg flags k = do_fork l (thread_regs l fn arg) flags 0 0 k
