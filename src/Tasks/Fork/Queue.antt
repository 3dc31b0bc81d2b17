-- ===== src/Tasks/Fork/Queue.antt =====
-- The list of tasks after `kernel_thread`.
use oslib.Prelude.{
  ℕ, ◌+◌, ◌^◌, ◌<◌, ◌≡◌, ◌≢◌, sym, ap, ◌∙◌, arith, ◌==◌, bit_and, false, List, [], ◌∷◌, ◌++◌,
}
use oslib.Memory.Types.{Memory, update, zone_normal}
use oslib.Memory.Alloc.{alloc_pages, allocated}
use oslib.Links.{Store, list_init}
use oslib.Links.Queue.{Avoids, IsQueue, IsQueue-same, list_add_to_before-IsQueue}
use oslib.Tasks.Types.{Kernel, Layout, stack_size, pf_kthread}
use oslib.Tasks.Fork.{
  get_current, phy_to_virt, forked, new_task, new_thread, fork_in_page, fork_after, task_page_flags,
  do_fork, thread_regs, kernel_thread,
}
use oslib.Tasks.Fork.Child.{final, start_task-final}

-- The links that `do_fork` gives to the new task before it adds it.
abbrev copied_links : ℕ → Kernel → Store
copied_links tsk k =
    let zeroed = update k.links tsk (record { prev = 0; next = 0 }) in
    list_init tsk (update zeroed tsk (zeroed (get_current k)))

copied_links-same : (tsk : ℕ) (k : Kernel) (n : ℕ) → n ≢ tsk → copied_links tsk k n ≡ k.links n
unfolding list_init
copied_links-same tsk k n ne = ground (arith, ne)

final-IsQueue :
    (l : Layout) (fn arg tsk : ℕ) (k : Kernel) (xs : List ℕ) (room : tsk + stack_size < 2 ^ 64)
    (apart : tsk ≢ l.init_task_union) (other : tsk ≢ get_current k)
    (free : (k.links l.init_task_union).prev ≢ tsk)
    → IsQueue k.links l.init_task_union xs
    → Avoids tsk xs
    → IsQueue (final l fn arg tsk k room apart other free).links l.init_task_union (xs ++ tsk ∷ [])
unfolding new_task new_thread
final-IsQueue l fn arg tsk k xs room apart other free queue fresh =
    let boot = l.init_task_union in
    let ne : boot ≢ tsk = λ e. apart (sym e) in
    list_add_to_before-IsQueue (copied_links tsk k) boot tsk xs
      (IsQueue-same k.links (copied_links tsk k) boot tsk xs (copied_links-same tsk k) ne fresh
        queue)
      ne fresh

-- If a page is found for it, whose stack fits 64 bits, `kernel_thread` in a kernel task puts the
-- new task at the end of the list of tasks, which begins at the first task, and leaves the others
-- in their order. The page is apart from the current task and from all in the list.
pub kernel_thread-IsQueue :
    (l : Layout) (fn arg flags p : ℕ) (m : Memory) (k : Kernel) (xs : List ℕ)
    → let tsk = phy_to_virt (m.pages p).phy_addr in
      let boot = l.init_task_union in
      alloc_pages zone_normal 1 task_page_flags k.memory ≡ allocated p m
      → tsk + stack_size < 2 ^ 64
      → tsk ≢ boot
      → tsk ≢ get_current k
      → (k.links boot).prev ≢ tsk
      → (bit_and (k.tasks (get_current k)).flags pf_kthread == 0) ≡ false
      → IsQueue k.links boot xs
      → Avoids tsk xs
      → (k' : Kernel) × (kernel_thread l fn arg flags k ≡ forked (thread_regs l fn arg) k')
        × IsQueue k'.links boot (xs ++ tsk ∷ [])
unfolding kernel_thread do_fork fork_in_page
kernel_thread-IsQueue l fn arg flags p m k xs found room apart other free kernel_only queue fresh =
    let tsk = phy_to_virt (m.pages p).phy_addr in
    let k' = record k { memory = m } in
    (
      final l fn arg tsk k' room apart other free,
      ap (fork_after l (thread_regs l fn arg) k) found
          ∙ start_task-final l fn arg tsk k' room apart other free kernel_only,
      final-IsQueue l fn arg tsk k' xs room apart other free queue fresh,
    )
