-- ===== src/Tasks/Fork/Child.antt =====
-- What a new kernel thread looks like, and what happens when there is no page for it.
use oslib.Prelude.{ℕ, ◌+◌, ◌-◌, ◌*◌, ◌^◌, ◌<◌, ◌≡◌, ◌≢◌, refl, ap, ◌∙◌, arith, ◌==◌, bit_and, false}
use oslib.Prelude.Words.{add64, sub64}
use oslib.Memory.Types.{Memory, zone_normal}
use oslib.Memory.Alloc.{alloc_pages, allocated, zone_range}
use oslib.Memory.Alloc.Pages.{ForZones}
use oslib.Memory.Alloc.Exhausted.{Lacks, alloc_pages-Lacks}
use oslib.Links.{list_init, list_add_to_before}
use oslib.Links.Ring.{IsNext}
use oslib.Tasks.Types.{
  PtRegs, words_of, stack_size, size_of_pt_regs, size_of_task_struct, task_running, pf_kthread,
  Kernel, Layout, store_words, set_task,
}
use oslib.Tasks.Fork.{
  get_current, phy_to_virt, forked, page_fault, new_task, new_thread, start_task, fork_in_page,
  fork_after, task_page_flags, do_fork, thread_regs, kernel_thread,
}

-- The task at `tsk`, made from the current one with the function and the argument, where the page
-- held a thread structure before.
pub record IsChild (l : Layout) (before after : Kernel) (tsk fn arg : ℕ) : Type 0 where
  pub running : (after.tasks tsk).state ≡ task_running
  pub numbered : (after.tasks tsk).pid ≡ add64 (before.tasks (get_current before)).pid 1
  pub thread : (after.tasks tsk).thread ≡ tsk + size_of_task_struct
  pub entry : (after.threads (tsk + size_of_task_struct)).rip ≡ l.kernel_thread_func
  pub stack : (after.threads (tsk + size_of_task_struct)).rsp ≡ tsk + stack_size - size_of_pt_regs
  pub base : (after.threads (tsk + size_of_task_struct)).rsp0 ≡ tsk + stack_size
  pub function : after.words (tsk + stack_size - size_of_pt_regs + 8 * 8) ≡ fn
  pub argument : after.words (tsk + stack_size - size_of_pt_regs + 8 * 10) ≡ arg
  pub others : (t : ℕ) → t ≢ tsk → after.tasks t ≡ before.tasks t
  pub processor : after.cpu ≡ before.cpu
  pub queued : IsNext after.links tsk l.init_task_union
  pub queued_behind : IsNext after.links (before.links l.init_task_union).prev tsk
  pub segments :
      (after.threads (tsk + size_of_task_struct)).fs
      ≡ (before.threads (tsk + size_of_task_struct)).fs
  pub extra_segment :
      (after.threads (tsk + size_of_task_struct)).gs
      ≡ (before.threads (tsk + size_of_task_struct)).gs

-- A store of words is read back at its place.
frame_words :
    (l : Layout) (fn arg a : ℕ) (words : ℕ → ℕ)
    → (store_words a (words_of (thread_regs l fn arg)) words (a + 8 * 8) ≡ fn)
      × (store_words a (words_of (thread_regs l fn arg)) words (a + 8 * 10) ≡ arg)
unfolding store_words thread_regs
frame_words l fn arg a words = (ground arith, ground arith)

start_task_kernel :
    (l : Layout) (tsk : ℕ) (regs : PtRegs) (k : Kernel)
    → (bit_and (k.tasks tsk).flags pf_kthread == 0) ≡ false
    → start_task l tsk regs k
      ≡ forked regs (set_task tsk (record (k.tasks tsk) { state = task_running }) k)
unfolding start_task
start_task_kernel l tsk regs k kernel_only = rw kernel_only refl

module _ (l : Layout) (fn arg tsk : ℕ) (k : Kernel) (room : tsk + stack_size < 2 ^ 64)
    (apart : tsk ≢ l.init_task_union) (other : tsk ≢ get_current k)
    (free : (k.links l.init_task_union).prev ≢ tsk) where
  abbrev made : Kernel
  made = new_thread tsk (thread_regs l fn arg) (new_task l tsk k)

  abbrev pub final : Kernel
  final = set_task tsk (record (made.tasks tsk) { state = task_running }) made

  final-IsChild : IsChild l k final tsk fn arg
  unfolding new_task new_thread list_init list_add_to_before thread_regs
  final-IsChild = record {
    running = ground arith;
    numbered = ground (arith, other);
    thread = ground (arith, room);
    entry = ground (arith, room);
    stack = ground (arith, room);
    base = ground (arith, room);
    function =
        ap
          (λ a.
            store_words a (words_of (thread_regs l fn arg)) k.words
              (tsk + stack_size - size_of_pt_regs + 8 * 8))
          frame
        ∙ (frame_words l fn arg (tsk + stack_size - size_of_pt_regs) k.words).0;
    argument =
        ap
          (λ a.
            store_words a (words_of (thread_regs l fn arg)) k.words
              (tsk + stack_size - size_of_pt_regs + 8 * 10))
          frame
        ∙ (frame_words l fn arg (tsk + stack_size - size_of_pt_regs) k.words).1;
    others = λ t ne. ground (arith, ne);
    processor = refl;
    queued = record { forth = ground (arith, apart, free); back = ground (arith, apart, free) };
    queued_behind = record {
      forth = ground (arith, apart, free);
      back = ground (arith, apart, free);
    };
    segments = ground (arith, room);
    extra_segment = ground (arith, room);
  }
    where
      frame : sub64 (add64 tsk stack_size) size_of_pt_regs ≡ tsk + stack_size - size_of_pt_regs
      frame = omega (arith, room)

  made_flags : (made.tasks tsk).flags ≡ (k.tasks (get_current k)).flags
  unfolding new_task new_thread
  made_flags = ground (arith, other)

  pub start_task-final :
      (bit_and (k.tasks (get_current k)).flags pf_kthread == 0) ≡ false
      → start_task l tsk (thread_regs l fn arg) made ≡ forked (thread_regs l fn arg) final
  start_task-final kernel_only =
      start_task_kernel l tsk (thread_regs l fn arg) made
        (ap (λ f. bit_and f pf_kthread == 0) made_flags ∙ kernel_only)

-- If a page is found for it, whose stack fits 64 bits, `kernel_thread` in a kernel task makes a
-- running child with the next number, the function and the argument on its stack, behind the last
-- task in the list, and with the values of `fs` and `gs` that were in its page before. The page is
-- apart from the first task, the current one and the last one in the list.
pub kernel_thread-IsChild :
    (l : Layout) (fn arg flags p : ℕ) (m : Memory) (k : Kernel)
    → let tsk = phy_to_virt (m.pages p).phy_addr in
      alloc_pages zone_normal 1 task_page_flags k.memory ≡ allocated p m
      → tsk + stack_size < 2 ^ 64
      → tsk ≢ l.init_task_union
      → tsk ≢ get_current k
      → (k.links l.init_task_union).prev ≢ tsk
      → (bit_and (k.tasks (get_current k)).flags pf_kthread == 0) ≡ false
      → (k' : Kernel) × (kernel_thread l fn arg flags k ≡ forked (thread_regs l fn arg) k')
        × IsChild l (record k { memory = m }) k' tsk fn arg
unfolding kernel_thread do_fork fork_in_page
kernel_thread-IsChild l fn arg flags p m k found room apart other free kernel_only =
    let tsk = phy_to_virt (m.pages p).phy_addr in
    let k' = record k { memory = m } in
    (
      final l fn arg tsk k' room apart other free,
      ap (fork_after l (thread_regs l fn arg) k) found
          ∙ start_task-final l fn arg tsk k' room apart other free kernel_only,
      final-IsChild l fn arg tsk k' room apart other free,
    )

-- If no zone of the normal ones has a free page, and the last one has not the greatest number,
-- `kernel_thread` reads a page structure at the null pointer.
pub kernel_thread-Lacks :
    (l : Layout) (fn arg flags : ℕ) (k : Kernel)
    → ForZones zone_normal k.memory (Lacks 1 k.memory)
    → (zone_range zone_normal k.memory).1 + 1 < 2 ^ 64
    → kernel_thread l fn arg flags k ≡ page_fault
unfolding kernel_thread do_fork
kernel_thread-Lacks l fn arg flags k few w =
    ap (fork_after l (thread_regs l fn arg) k)
      (alloc_pages-Lacks zone_normal 1 task_page_flags k.memory few w)
