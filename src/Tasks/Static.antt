-- ===== src/Tasks/Static.antt =====
-- What the first task and the task state segment hold before the kernel runs: the initialisers of
-- cOS/kernel/src/task.c.
use oslib.Prelude.{ℕ, ◌+◌}
use oslib.Tasks.Types.{
  TaskStruct, ThreadStruct, TssStruct, Layout, kernel_ds, stack_size, task_uninterruptible,
  pf_kthread,
}

-- `INIT_TASK`
unfoldable pub init_task : Layout → TaskStruct
init_task l = record {
  state = task_uninterruptible;
  flags = pf_kthread;
  mm = l.init_mm;
  thread = l.init_thread;
  addr_limit = 0xffff800000000000;
  pid = 0;
  counter = 1;
  signal = 0;
  priority = 0;
}

abbrev init_stack : Layout → ℕ
init_stack l = l.init_task_union + stack_size

pub init_thread : Layout → ThreadStruct
init_thread l = record {
  rsp0 = init_stack l;
  rip = 0;
  rsp = init_stack l;
  fs = kernel_ds;
  gs = kernel_ds;
  cr2 = 0;
  trap_nr = 0;
  error_code = 0;
}

-- `INIT_TSS`
pub init_tss : Layout → TssStruct
init_tss l = record {
  rsp0 = init_stack l;
  rsp1 = init_stack l;
  rsp2 = init_stack l;
  ist1 = 0xffff800000007c00;
  ist2 = 0xffff800000007c00;
  ist3 = 0xffff800000007c00;
  ist4 = 0xffff800000007c00;
  ist5 = 0xffff800000007c00;
  ist6 = 0xffff800000007c00;
  ist7 = 0xffff800000007c00;
}
