-- ===== src/Tasks/Examples.antt =====
-- Runs of the functions on tasks.
use oslib.Prelude.{[], ◌∷◌, ℕ, ◌+◌, ◌≡◌, refl, arith, ◌==◌, if◌then◌else◌, inr}
use oslib.Memory.Types.{Memory, zone_normal}
use oslib.Memory.Samples.{page, memory, free_memory}
use oslib.Memory.Page.{page_init}
use oslib.Memory.Alloc.{Allocation, alloc_pages, allocated, zone_range}
use oslib.Memory.Alloc.Pages.{ForZones}
use oslib.Memory.Alloc.Exhausted.{Lacks}
use oslib.Tasks.Types.{Kernel}
use oslib.Tasks.Static.{init_task}
use oslib.Tasks.Fork.{forked, page_fault, task_page_flags, thread_regs, kernel_thread}
use oslib.Tasks.Fork.Child.{IsChild, kernel_thread-IsChild, kernel_thread-Lacks}
use oslib.Links.Queue.{Chain, Avoids, IsQueue}
use oslib.Tasks.Fork.Queue.{kernel_thread-IsQueue}
use oslib.Tasks.Switch.{switch_to, resume}
use oslib.Tasks.Switch.Back.{IsKept, IsRestored, switch_to-IsRestored}
use oslib.Tasks.Samples.{boot, layout, cpu, thread, task, kernel}

abbrev memory_of : Allocation → Memory
memory_of (allocated p m) = m
memory_of _ = free_memory

abbrev after : Memory
after = memory_of (alloc_pages zone_normal 1 task_page_flags free_memory)

-- The task in page 65.
abbrev child : ℕ
child = 0xffff800008200000

found : alloc_pages zone_normal 1 task_page_flags free_memory ≡ allocated 65 after
unfolding alloc_pages page_init
found = refl

kernel_thread-IsChild_example :
    (k : Kernel) × (kernel_thread layout 3 4 0 (kernel free_memory)
      ≡ forked (thread_regs layout 3 4) k)
    × IsChild layout (kernel after) k child 3 4
unfolding alloc_pages page_init init_task
kernel_thread-IsChild_example =
    kernel_thread-IsChild layout 3 4 0 65 after (kernel free_memory) found (omega arith)
      (omega arith) (omega arith) (omega arith) refl

alone : IsQueue (kernel free_memory).links boot []
unfolding Chain Avoids
alone = record { chain = record { forth = refl; back = refl }; apart = tt }

kernel_thread-IsQueue_example :
    (k : Kernel) × (kernel_thread layout 3 4 0 (kernel free_memory)
      ≡ forked (thread_regs layout 3 4) k)
    × IsQueue k.links boot (child ∷ [])
unfolding alloc_pages page_init init_task Avoids
kernel_thread-IsQueue_example =
    kernel_thread-IsQueue layout 3 4 0 65 after (kernel free_memory) [] found (omega arith)
      (omega arith) (omega arith) (omega arith) refl alone tt

abbrev full_memory : Memory
full_memory = memory 65 (page 0x80 1) 2 0 2

full : ForZones zone_normal full_memory (Lacks 1 full_memory)
unfolding zone_range
full z lo hi = omega arith

kernel_thread-Lacks_example : kernel_thread layout 3 4 0 (kernel full_memory) ≡ page_fault
unfolding zone_range
kernel_thread-Lacks_example =
    kernel_thread-Lacks layout 3 4 0 (kernel full_memory) full (omega arith)

-- Two tasks on stacks of their own.
abbrev two : Kernel
two = record (kernel free_memory) {
  tasks = λ a. task (a + 1);
  threads = λ a. if a == 0x20001 then thread 0x27f40 0x500 else thread 0 0;
  cpu = cpu 0x17000;
}

abbrev later : Kernel
later = switch_to layout 0x10000 0x20000 two

two-IsKept : IsKept layout 0x10000 0x20000 two later
unfolding switch_to
two-IsKept = record {
  thread = refl;
  saved = refl;
  words = λ i at. refl;
  threads = omega arith;
  room = omega arith;
  next_room = omega arith;
  apart = inr (omega arith);
  other_room = omega arith;
  selectors = (omega arith, omega arith);
  other_apart = inr (omega arith);
}

switch_to-IsRestored_example :
    ((switch_to layout 0x20000 0x10000 later).cpu.rip ≡ layout.resumed)
    × IsRestored two (resume (switch_to layout 0x20000 0x10000 later))
unfolding switch_to
switch_to-IsRestored_example =
    switch_to-IsRestored layout 0x10000 0x20000 0x20000 two later two-IsKept (omega arith)
