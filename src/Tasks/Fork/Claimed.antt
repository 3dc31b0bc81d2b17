-- ===== src/Tasks/Fork/Claimed.antt =====
-- The page that a new task takes, and what `do_fork` leaves of the memory manager.
use oslib.Prelude.{ℕ, ◌≡◌, sym, ap, ◌∙◌, arith}
use oslib.Memory.Types.{Memory, zone_normal}
use oslib.Memory.Alloc.{Allocation, alloc_pages, allocated, null, fault, diverges}
use oslib.Tasks.Types.{PtRegs, Kernel, Layout}
use oslib.Tasks.Fork.{
  Forked, forked, page_fault, endless, new_task, new_thread, start_task, fork_in_page, fork_after,
  task_page_flags, do_fork, thread_regs, kernel_thread, phy_to_virt,
}

abbrev memory_of : Memory → Forked → Memory
memory_of m (forked regs k) = k.memory
memory_of m page_fault = m
memory_of m endless = m

start_task-memory :
    (l : Layout) (tsk : ℕ) (regs : PtRegs) (m : Memory) (k : Kernel)
    → memory_of m (start_task l tsk regs k) ≡ k.memory
unfolding start_task
start_task-memory l tsk regs m k = ground arith

fork_in_page-memory :
    (l : Layout) (regs : PtRegs) (p : ℕ) (m : Memory) (k : Kernel)
    → memory_of m (fork_in_page l regs p k) ≡ k.memory
unfolding fork_in_page new_task new_thread
fork_in_page-memory l regs p m k =
    let tsk = phy_to_virt (k.memory.pages p).phy_addr in
    start_task-memory l tsk regs m (new_thread tsk regs (new_task l tsk k))

fork_after-memory :
    (l : Layout) (regs regs' : PtRegs) (k k' : Kernel) (a : Allocation)
    → fork_after l regs k a ≡ forked regs' k'
    → (p : ℕ) × (a ≡ allocated p k'.memory)
fork_after-memory l regs regs' k k' (allocated p m) e = (
  p,
  ap (allocated p)
      (sym (fork_in_page-memory l regs p m (record k { memory = m })) ∙ ap (memory_of m) e),
)
fork_after-memory l regs regs' k k' null e = absurd (ground (arith, e))
fork_after-memory l regs regs' k k' fault e = absurd (ground (arith, e))
fork_after-memory l regs regs' k k' diverges e = absurd (ground (arith, e))

-- A task is made in a page that `alloc_pages` found, and the memory is as it left it.
pub kernel_thread-memory :
    (l : Layout) (fn arg flags : ℕ) (regs' : PtRegs) (k k' : Kernel)
    → kernel_thread l fn arg flags k ≡ forked regs' k'
    → (p : ℕ) × (alloc_pages zone_normal 1 task_page_flags k.memory ≡ allocated p k'.memory)
unfolding kernel_thread do_fork
kernel_thread-memory l fn arg flags regs' k k' e =
    fork_after-memory l (thread_regs l fn arg) regs' k k'
      (alloc_pages zone_normal 1 task_page_flags k.memory) e
