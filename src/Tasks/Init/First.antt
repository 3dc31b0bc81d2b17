-- ===== src/Tasks/Init/First.antt =====
-- What runs first after `task_init`: the thread that calls `init` with 10.
use mathlib.Core.Path.{subst}
use oslib.Prelude.{
  ℕ, ◌+◌, ◌-◌, ◌*◌, ◌^◌, ◌≤◌, ◌<◌, ◌≡◌, ◌≢◌, ◌⊎◌, sym, ap, ◌∙◌, arith, ◌==◌, bit_and, bit_or, false,
}
use oslib.Prelude.Words.{not64}
use oslib.Memory.Types.{Memory, zone_normal}
use oslib.Memory.Alloc.{alloc_pages, allocated}
use oslib.Links.{list_init, list_next}
use oslib.Tasks.Types.{
  Cpu, ThreadStruct, Kernel, Layout, stack_size, size_of_pt_regs, size_of_task_struct, task_running,
  pf_kthread, set_task, clone_fs, clone_files, clone_signal,
}
use oslib.Tasks.Thread.{kernel_thread_func}
use oslib.Tasks.Thread.Call.{kernel_thread_func-call}
use oslib.Tasks.Fork.{get_current, phy_to_virt, task_page_flags}
use oslib.Tasks.Fork.Child.{IsChild, kernel_thread-IsChild}
use oslib.Tasks.Switch.{switch_to}
use oslib.Tasks.Switch.Back.{switch_to-rip, switch_to-rsp, switch_to-words}
use oslib.Tasks.Init.{started, start_after, prepare, switch_to_second, task_init}

-- The processor is about to run `kernel_thread_func` on a stack from which that calls `fn` with
-- `arg`.
pub record IsCall (l : Layout) (return_address fn arg : ℕ) (k : Kernel) : Type 0 where
  pub first : k.cpu.rip ≡ l.kernel_thread_func
  pub function : (kernel_thread_func return_address k).cpu.rip ≡ fn
  pub argument : (kernel_thread_func return_address k).cpu.rdi ≡ arg

-- A switch from the first task to the child that it has made.
module _ (l : Layout) (tsk fn arg : ℕ) (before k : Kernel) (made : IsChild l before k tsk fn arg)
    (current : get_current before ≡ l.init_task_union)
    (alone : (before.links l.init_task_union).prev ≡ l.init_task_union) (some_address : 0 < tsk)
    (apart : tsk ≢ l.init_task_union)
    (threads : (before.tasks l.init_task_union).thread ≢ tsk + size_of_task_struct)
    (room : 24 ≤ before.cpu.rsp)
    (stacks : (before.cpu.rsp ≤ tsk) ⊎ (tsk + stack_size + 16 ≤ before.cpu.rsp)) where
  abbrev ready : Kernel
  ready = set_task l.init_task_union (record (k.tasks l.init_task_union) { state = task_running }) k

  child_thread : (ready.tasks tsk).thread ≡ tsk + size_of_task_struct
  child_thread = ground (arith, apart, made.thread)

  boot_thread : (ready.tasks l.init_task_union).thread ≡ (before.tasks l.init_task_union).thread
  boot_thread = ground (arith, made.others l.init_task_union, apart)

  other : (ready.tasks l.init_task_union).thread ≢ (ready.tasks tsk).thread
  other e = threads (sym boot_thread ∙ e ∙ child_thread)

  next_task : list_next l.init_task_union k.links ≡ tsk
  unfolding list_next
  next_task =
      ground (arith, ap (λ b. (k.links b).next) alone, made.queued_behind.forth, some_address)

  switch_to_second-switch_to : switch_to_second l k ≡ switch_to l l.init_task_union tsk ready
  unfolding switch_to_second
  switch_to_second-switch_to =
      let c : get_current ready ≡ l.init_task_union =
        ap (λ (c : Cpu). bit_and c.rsp (not64 32767)) made.processor ∙ current in
      ap (λ c. switch_to l c (list_next c k.links) ready) c
      ∙ ap (λ n. switch_to l l.init_task_union n ready) next_task

  thread_of :
      (f : ThreadStruct → ℕ)
      → f (ready.threads (ready.tasks tsk).thread) ≡ f (k.threads (tsk + size_of_task_struct))
  thread_of f = ap (λ a. f (k.threads a)) child_thread

  frame_word :
      (i : ℕ)
      → i < 24
      → (switch_to l l.init_task_union tsk ready).words (tsk + stack_size - size_of_pt_regs + 8 * i)
        ≡ k.words (tsk + stack_size - size_of_pt_regs + 8 * i)
  frame_word i h =
      let depth = thread_of (λ (t : ThreadStruct). t.rsp) ∙ made.stack in
      let at = ap (λ (c : Cpu). c.rsp) made.processor in
      switch_to-words l l.init_task_union tsk ready other _ (omega (arith, depth, at, stacks, room))
        (omega (arith, depth, at, stacks, room)) (omega (arith, depth, at, stacks, room))

  switch_to_second-IsCall :
      (return_address : ℕ) → IsCall l return_address fn arg (switch_to_second l k)
  switch_to_second-IsCall return_address =
      let after = switch_to l l.init_task_union tsk ready in
      let call = kernel_thread_func-call return_address after in
      let depth = thread_of (λ (t : ThreadStruct). t.rsp) ∙ made.stack in
      let sp : after.cpu.rsp ≡ tsk + stack_size - size_of_pt_regs =
        omega (arith, switch_to-rsp l l.init_task_union tsk ready other, depth) in
      subst (IsCall l return_address fn arg) (sym switch_to_second-switch_to) (record {
        first =
            switch_to-rip l l.init_task_union tsk ready other
            ∙ thread_of (λ (t : ThreadStruct). t.rip)
            ∙ made.entry;
        function =
            call.0
            ∙ ap (λ a. after.words (a + 8 * 8)) sp
            ∙ frame_word 8 (omega arith)
            ∙ made.function;
        argument =
            call.1
            ∙ ap (λ a. after.words (a + 8 * 10)) sp
            ∙ frame_word 10 (omega arith)
            ∙ made.argument;
      })

-- If a page is found for the first thread, `task_init` ends at the first instruction of
-- `kernel_thread_func`, which calls `init` with 10. The page is not at address 0 and its stack fits
-- 64 bits; it is apart from the first task, from that task's thread and from the words below the
-- stack pointer. The processor is on the stack of the first task, with room for three words, and
-- the first task is a kernel task.
pub task_init-IsCall :
    (l : Layout) (p : ℕ) (m : Memory) (k : Kernel) (return_address : ℕ)
    → let tsk = phy_to_virt (m.pages p).phy_addr in
      alloc_pages zone_normal 1 task_page_flags k.memory ≡ allocated p m
      → 0 < tsk
      → tsk + stack_size < 2 ^ 64
      → tsk ≢ l.init_task_union
      → get_current k ≡ l.init_task_union
      → (bit_and (k.tasks l.init_task_union).flags pf_kthread == 0) ≡ false
      → (k.tasks l.init_task_union).thread ≢ tsk + size_of_task_struct
      → 24 ≤ k.cpu.rsp
      → (k.cpu.rsp ≤ tsk) ⊎ (tsk + stack_size + 16 ≤ k.cpu.rsp)
      → (r : Kernel) × (task_init l k ≡ started r) × IsCall l return_address l.init 10 r
unfolding task_init prepare list_init
task_init-IsCall l p m k return_address found some_address fits apart current kernel_only threads
      room stacks =
    let tsk = phy_to_virt (m.pages p).phy_addr in
    let boot = l.init_task_union in
    let ready = prepare l k in
    let flags = bit_or (bit_or clone_fs clone_files) clone_signal in
    let alone : (ready.links boot).prev ≡ boot = ground arith in
    let (k', run, made) =
      kernel_thread-IsChild l l.init 10 flags p m ready found fits apart (λ e. apart (e ∙ current))
        (λ e. apart (sym e ∙ alone))
        (ap (λ t. bit_and (k.tasks t).flags pf_kthread == 0) current ∙ kernel_only) in
    (
      switch_to_second l k',
      ap (start_after l) run,
      switch_to_second-IsCall l tsk l.init 10 _ k' made current alone some_address apart threads
          room stacks return_address,
    )
