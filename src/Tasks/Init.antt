-- ===== src/Tasks/Init.antt =====
-- `task_init` of cOS/kernel/src/task.c.
pub mod First
pub mod Claimed
use oslib.Prelude.{ℕ, ◌+◌, ◌-◌, bit_or}
use oslib.Prelude.Words.{sub64}
use oslib.Gate.{set_tss64}
use oslib.Links.{list_init, list_next}
use oslib.Tasks.Types.{
  MmStruct, Kernel, Layout, set_task, task_running, clone_fs, clone_files, clone_signal,
}
use oslib.Tasks.Fork.{get_current, Forked, forked, page_fault, endless, kernel_thread}
use oslib.Tasks.Switch.{switch_to}

pub fill_mm : Layout → Kernel → Kernel
fill_mm l k = record k {
  mm = record {
    pgd = k.memory.g_cr3;
    start_code = k.memory.start_code;
    end_code = k.memory.end_code;
    start_data = l.data_start;
    end_data = k.memory.end_data;
    start_rodata = l.rodata_start;
    end_rodata = l.rodata_end;
    start_brk = 0;
    end_brk = k.memory.end_brk;
    start_stack = l.stack_start;
  };
}

pub fill_tss : Layout → Kernel → Kernel
fill_tss l k =
    let rsp0 = (k.threads l.init_thread).rsp0 in
    record k {
      tss_table =
          set_tss64 rsp0 k.tss.rsp1 k.tss.rsp2 k.tss.ist1 k.tss.ist2 k.tss.ist3 k.tss.ist4
            k.tss.ist5 k.tss.ist6 k.tss.ist7 k.tss_table;
      tss = record (k.tss) { rsp0 = rsp0 };
    }

-- The processor at the first instruction of the task that follows the current one; or a page fault;
-- or a search for a page that does not end.
pub data Started : Type 0 where
  started : Kernel → Started
  faulted stuck : Started

-- `container_of` of a member at the start of the structure is the member's address.
pub switch_to_second : Layout → Kernel → Kernel
switch_to_second l k =
    let boot = l.init_task_union in
    let k = set_task boot (record (k.tasks boot) { state = task_running }) k in
    let c = get_current k in switch_to l c (list_next c k.links) k

abbrev pub start_after : Layout → Forked → Started
start_after l (forked regs k) = started (switch_to_second l k)
start_after l page_fault = faulted
start_after l endless = stuck

-- The state behind `list_init`.
pub prepare : Layout → Kernel → Kernel
unfolding fill_mm fill_tss
prepare l k =
    let k = fill_tss l (fill_mm l k) in record k { links = list_init l.init_task_union k.links }

pub task_init : Layout → Kernel → Started
unfolding prepare switch_to_second
task_init l k =
    start_after l
      (kernel_thread l l.init 10 (bit_or (bit_or clone_fs clone_files) clone_signal) (prepare l k))
