-- ===== src/Tasks/Samples.antt =====
-- A kernel task on its stack, and the kernel before it has another one.
use oslib.Prelude.{ℕ, ◌+◌, ◌==◌, if◌then◌else◌}
use oslib.Memory.Types.{Memory}
use oslib.Tasks.Types.{Cpu, Kernel, Layout, TaskStruct, ThreadStruct}
use oslib.Tasks.Static.{init_task, init_thread, init_tss}

abbrev pub boot : ℕ
boot = 0xffff800000108000

abbrev pub layout : Layout
layout = record {
  init_task_union = boot;
  init_thread = 0xffff800000104000;
  init_mm = 0xffff800000104100;
  ret_from_intr = 0xffff800000100100;
  kernel_thread_func = 0xffff800000100200;
  init = 0xffff800000100300;
  do_exit = 0xffff800000100400;
  resumed = 0xffff800000100500;
  text_start = 0xffff800000100000;
  text_end = 0xffff800000102000;
  data_start = 0xffff800000102000;
  data_end = 0xffff800000106000;
  rodata_start = 0xffff800000106000;
  rodata_end = 0xffff800000107000;
  kernel_end = 0xffff800000112000;
  stack_start = 0xffff800000110000;
}

-- The registers, apart from the stack pointer, of no importance.
abbrev pub cpu : (rsp : ℕ) → Cpu
cpu rsp = record {
  rax = 1;
  rbx = 2;
  rcx = 3;
  rdx = 4;
  rsi = 5;
  rdi = 6;
  rbp = 7;
  rsp = rsp;
  rip = 8;
  r8 = 9;
  r9 = 10;
  r10 = 11;
  r11 = 12;
  r12 = 13;
  r13 = 14;
  r14 = 15;
  r15 = 16;
  ds = 17;
  es = 18;
  fs = 19;
  gs = 20;
}

abbrev pub thread : (rsp rip : ℕ) → ThreadStruct
thread rsp rip = record {
  rsp0 = rsp;
  rip = rip;
  rsp = rsp;
  fs = 0;
  gs = 0;
  cr2 = 0;
  trap_nr = 0;
  error_code = 0;
}

abbrev pub task : (thread : ℕ) → TaskStruct
task thread = record {
  state = 0;
  flags = 1;
  mm = 0;
  thread = thread;
  addr_limit = 0;
  pid = 0;
  counter = 1;
  signal = 0;
  priority = 0;
}

-- The first task alone, which the processor runs, with the memory.
abbrev pub kernel : Memory → Kernel
kernel m = record {
  memory = m;
  tasks = λ a. if a == boot then init_task layout else task 0;
  threads = λ a. if a == layout.init_thread then init_thread layout else thread 0 0;
  links = λ a. record { prev = a; next = a };
  words = λ a. 0;
  tss = init_tss layout;
  tss_table = λ i. 0;
  mm = record {
    pgd = 0;
    start_code = 0;
    end_code = 0;
    start_data = 0;
    end_data = 0;
    start_rodata = 0;
    end_rodata = 0;
    start_brk = 0;
    end_brk = 0;
    start_stack = 0;
  };
  cpu = cpu (boot + 0x7000);
}
