-- ===== src/Start/Claimed.antt =====
-- The memory that the first thread finds.
use mathlib.Core.Path.{subst}
use oslib.Prelude.{ℕ, ◌+◌, ◌^◌, ◌<◌, ◌≡◌, sym, ap, ◌∙◌, arith, some}
use oslib.Memory.Types.{Memory, zone_normal}
use oslib.Memory.Page.History.{IsSound}
use oslib.Memory.Init.{copy_map, place_arrays, init_memory}
use oslib.Memory.Init.Total.{last_page, laid_out}
use oslib.Memory.Init.Owned.{page_zero}
use oslib.Memory.Init.Sound.{IsPartition, init_memory-IsSound}
use oslib.Memory.Alloc.{Allocation, alloc_pages, allocated, zone_range}
use oslib.Memory.Alloc.Sound.{alloc_pages-IsSound}
use oslib.Interrupt.{init_interrupt}
use oslib.Tasks.Types.{Kernel}
use oslib.Tasks.Fork.{task_page_flags}
use oslib.Tasks.Init.{Started, started, faulted, stuck, task_init}
use oslib.Tasks.Init.Claimed.{task_init-memory}
use oslib.Start.{
  System, Outside, Booted, running, after_tasks, after_memory, kernel_ends, before_memory,
  kernel_start,
}

abbrev kernel_of : Kernel → Booted → Kernel
kernel_of k (running r) = r.kernel
kernel_of k _ = k

after_tasks-started :
    (s r : System) (t : Started) → after_tasks s t ≡ running r → t ≡ started r.kernel
after_tasks-started s r (started k) e = ap started (ap (kernel_of k) e)
after_tasks-started s r faulted e = absurd (ground (arith, e))
after_tasks-started s r stuck e = absurd (ground (arith, e))

abbrev memory_of : Memory → Allocation → Memory
memory_of m (allocated p m') = m'
memory_of m _ = m

-- The page of the first thread is all that has been taken since `init_memory`.
kernel_start-memory :
    (o : Outside) (s r : System) (m after : Memory) (p : ℕ)
    → init_memory o.bios o.cr3 (kernel_ends o.layout s.kernel.memory) ≡ some m
    → alloc_pages zone_normal 1 task_page_flags m ≡ allocated p after
    → kernel_start o s ≡ running r
    → r.kernel.memory ≡ after
unfolding kernel_start before_memory
kernel_start-memory o s r m after p mapped found run =
    let ready = before_memory o s in
    let ready' = record ready { machine = init_interrupt o.stub ready.machine } in
    let begun = task_init o.layout (record (ready.kernel) { memory = m }) in
    let tasks = after_tasks-started ready' r begun (sym (ap (after_memory o ready) mapped) ∙ run) in
    let (q, same) =
      task_init-memory o.layout (record (ready.kernel) { memory = m }) r.kernel tasks in
    ap (memory_of m) (sym same ∙ found)

-- If `init_memory` ends and a page of the array is found behind it, the usable regions of the memory
-- map cover no page twice, none beyond the array and not page 0, the kernel and the structures
-- behind it end within the array, in a page whose number is less than 2 ^ 64 - 2, and the last zone
-- to search has not the greatest number, then the first thread finds every page of the array unused
-- with no reference, used once, or shared with at least one reference, every zone's counters of used
-- pages and of references right, and its counter of free pages equal to the number of its unused
-- pages, and one less in zone 0.
pub kernel_start-IsSound :
    (o : Outside) (s r : System) (m after : Memory) (p : ℕ)
    → let before = kernel_ends o.layout s.kernel.memory in
      let size = (place_arrays (copy_map 32 0 o.bios before)).pages_size in
      init_memory o.bios o.cr3 before ≡ some m
      → alloc_pages zone_normal 1 task_page_flags m ≡ allocated p after
      → kernel_start o s ≡ running r
      → IsPartition o.bios before
      → last_page o.bios before + 2 < 2 ^ 64
      → last_page o.bios before < size
      → p < size
      → (zone_range zone_normal m).1 + 1 < 2 ^ 64
      → IsSound size
          (laid_out o.bios before).zones_size
          page_zero
          (last_page o.bios before + 1 + 1)
          r.kernel.memory
kernel_start-IsSound o s r m after p mapped found run map small fits inside last =
    let before = kernel_ends o.layout s.kernel.memory in
    let size = (place_arrays (copy_map 32 0 o.bios before)).pages_size in
    let zones = (laid_out o.bios before).zones_size in
    let most = last_page o.bios before + 1 in
    let sound = init_memory-IsSound o.bios o.cr3 before m mapped map fits in
    subst (IsSound size zones page_zero (most + 1))
      (sym (kernel_start-memory o s r m after p mapped found run))
      (alloc_pages-IsSound zone_normal 1 task_page_flags size zones most p page_zero m after found
        (omega arith) last (λ e. ground (arith, e)) (omega (arith, inside)) map.word
        (omega (arith, small)) sound)
