-- ===== src/Start/First.antt =====
-- The kernel from its start to the first thread.
use oslib.Prelude.{ℕ, ◌+◌, ◌^◌, ◌≤◌, ◌<◌, ◌≡◌, ◌≢◌, ◌⊎◌, ap, ◌∙◌, ◌==◌, some, bit_and, false}
use oslib.Memory.Types.{Memory, zone_normal}
use oslib.Memory.Init.{init_memory}
use oslib.Memory.Alloc.{alloc_pages, allocated}
use oslib.Interrupt.{init_interrupt}
use oslib.Tasks.Types.{stack_size, size_of_task_struct, pf_kthread}
use oslib.Tasks.Fork.{get_current, phy_to_virt, task_page_flags}
use oslib.Tasks.Init.First.{IsCall, task_init-IsCall}
use oslib.Start.{
  System, Outside, running, after_tasks, after_memory, kernel_ends, before_memory, kernel_start,
}

-- If `init_memory` ends and a page is found behind it, then the kernel gets to the first
-- instruction of `kernel_thread_func`, which calls `init` with 10. The page is not at address 0 and
-- its stack fits 64 bits; it is apart from the first task, from that task's thread and from the
-- words below the stack pointer. The processor is on the stack of the first task, with room for
-- three words, and the first task is a kernel task.
pub kernel_start-IsCall :
    (o : Outside) (s : System) (m after : Memory) (p return_address : ℕ)
    → let tsk = phy_to_virt (after.pages p).phy_addr in
      let boot = o.layout.init_task_union in
      init_memory o.bios o.cr3 (kernel_ends o.layout s.kernel.memory) ≡ some m
      → alloc_pages zone_normal 1 task_page_flags m ≡ allocated p after
      → 0 < tsk
      → tsk + stack_size < 2 ^ 64
      → tsk ≢ boot
      → get_current s.kernel ≡ boot
      → (bit_and (s.kernel.tasks boot).flags pf_kthread == 0) ≡ false
      → (s.kernel.tasks boot).thread ≢ tsk + size_of_task_struct
      → 24 ≤ s.kernel.cpu.rsp
      → (s.kernel.cpu.rsp ≤ tsk) ⊎ (tsk + stack_size + 16 ≤ s.kernel.cpu.rsp)
      → (r : System) × (kernel_start o s ≡ running r)
        × IsCall o.layout return_address o.layout.init 10 r.kernel
unfolding kernel_start before_memory
kernel_start-IsCall o s m after p return_address mapped found some_address fits apart current
      kernel_only threads room stacks =
    let ready = before_memory o s in
    let ready' = record ready { machine = init_interrupt o.stub ready.machine } in
    let (k, run, call) =
      task_init-IsCall o.layout p after (record (ready.kernel) { memory = m }) return_address found
        some_address fits apart current kernel_only threads room stacks in
    (
      record ready' { kernel = k },
      ap (after_memory o ready) mapped ∙ ap (after_tasks ready') run,
      call,
    )
