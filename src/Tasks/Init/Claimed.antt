-- ===== src/Tasks/Init/Claimed.antt =====
-- What `task_init` leaves of the memory manager.
use oslib.Prelude.{ℕ, ◌≡◌, refl, ap, sym, ◌∙◌, arith, bit_or}
use oslib.Memory.Types.{Memory, zone_normal}
use oslib.Memory.Alloc.{alloc_pages, allocated}
use oslib.Tasks.Types.{PtRegs, Kernel, Layout, clone_fs, clone_files, clone_signal}
use oslib.Tasks.Fork.{Forked, forked, page_fault, endless, kernel_thread, task_page_flags}
use oslib.Tasks.Fork.Claimed.{kernel_thread-memory}
use oslib.Tasks.Switch.{switch_to}
use oslib.Tasks.Init.{
  Started, started, faulted, stuck, start_after, prepare, switch_to_second, task_init,
}

switch_to_second-memory : (l : Layout) (k : Kernel) → (switch_to_second l k).memory ≡ k.memory
unfolding switch_to_second switch_to
switch_to_second-memory l k = refl

prepare-memory : (l : Layout) (k : Kernel) → (prepare l k).memory ≡ k.memory
unfolding prepare
prepare-memory l k = refl

abbrev memory_of : Memory → Started → Memory
memory_of m (started k) = k.memory
memory_of m faulted = m
memory_of m stuck = m

start_after-memory :
    (l : Layout) (k k' : Kernel) (f : Forked)
    → ((regs : PtRegs) (made : Kernel)
        → f ≡ forked regs made
        → (p : ℕ) × (alloc_pages zone_normal 1 task_page_flags k.memory ≡ allocated p made.memory))
    → start_after l f ≡ started k'
    → (p : ℕ) × (alloc_pages zone_normal 1 task_page_flags k.memory ≡ allocated p k'.memory)
start_after-memory l k k' (forked regs made) claimed e =
    let (p, found) = claimed regs made refl in
    (
      p,
      found
          ∙ ap (allocated p) (sym (switch_to_second-memory l made) ∙ ap (memory_of made.memory) e),
    )
start_after-memory l k k' page_fault claimed e = absurd (ground (arith, e))
start_after-memory l k k' endless claimed e = absurd (ground (arith, e))

-- `task_init` takes one page, and the memory is as `alloc_pages` left it.
pub task_init-memory :
    (l : Layout) (k k' : Kernel)
    → task_init l k ≡ started k'
    → (p : ℕ) × (alloc_pages zone_normal 1 task_page_flags k.memory ≡ allocated p k'.memory)
unfolding task_init prepare
task_init-memory l k k' e =
    start_after-memory l k k'
      (kernel_thread l l.init 10 (bit_or (bit_or clone_fs clone_files) clone_signal) (prepare l k))
      (λ regs made f.
        kernel_thread-memory l l.init 10 (bit_or (bit_or clone_fs clone_files) clone_signal) regs
          (prepare l k) made f)
      e
