-- ===== src/Start.antt =====
-- The start of the kernel: cOS/kernel/src/main.c.
pub mod Vectors
pub mod First
pub mod Claimed
pub mod Interrupts
pub mod Boots
mod Samples
mod Examples
use oslib.Prelude.{ℕ, ◌+◌, ◌-◌, ◌*◌, ◌%◌, ◌^◌, Option, none, some, bit_and}
use oslib.Prelude.Words.{add64, sub64, not64, ◌<<<◌}
use oslib.Gate.{set_tss64}
use oslib.Trap.Vectors.{Symbol, init_sys_vector}
use oslib.Memory.Types.{E820, Memory, page_4k_size}
use oslib.Memory.Init.{init_memory}
use oslib.Interrupt.{Machine, init_interrupt}
use oslib.Printk.Screen.{Screen, set_pos}
use oslib.Tasks.Types.{Kernel, Layout}
use oslib.Tasks.Init.{Started, started, faulted, stuck, task_init}

-- `task_register` holds the selector that `load_TR` loads.
pub record System : Type 0 where
  pub screen : Screen
  pub machine : Machine
  pub kernel : Kernel
  pub task_register : ℕ

-- What is outside the kernel's C code: the linker's addresses, the stubs of the interrupts, the
-- memory map of the boot loader, and the register with the page table.
pub record Outside : Type 0 where
  pub layout : Layout
  pub address : Symbol → ℕ
  pub stub : ℕ → ℕ
  pub bios : ℕ → E820
  pub cr3 : ℕ

pub resolution_init : Screen → Screen
resolution_init s =
    set_pos
      (record {
        x_resolution = 1440;
        y_resolution = 900;
        x_position = 0;
        y_position = 0;
        x_char_size = 8;
        y_char_size = 16;
        fb_addr = 0xffff800000a00000;
        fb_length =
            bit_and (sub64 (add64 (1440 * 900 * 4) page_4k_size) 1) (not64 (page_4k_size - 1));
      })
      s

pub load_tr : ℕ → System → System
load_tr n s = record s { task_register = (n <<< 3) % 2 ^ 16 }

pub first_tss : Layout → Kernel → Kernel
first_tss l k =
    let top : ℕ = 0xffff800000007c00 in
    record k {
      tss_table =
          set_tss64 l.stack_start l.stack_start l.stack_start top top top top top top top
            k.tss_table;
    }

unfoldable pub kernel_ends : Layout → Memory → Memory
kernel_ends l m = record m {
  start_code = l.text_start;
  end_code = l.text_end;
  end_data = l.data_end;
  end_brk = l.kernel_end;
}

-- The processor at the first instruction of the first thread; or a page fault; or a search for a
-- page that does not end.
pub data Booted : Type 0 where
  running : System → Booted
  broken endless : Booted

abbrev pub after_tasks : System → Started → Booted
after_tasks s (started k) = running (record s { kernel = k })
after_tasks s faulted = broken
after_tasks s stuck = endless

-- What follows `init_memory`.
abbrev pub after_memory : Outside → System → Option Memory → Booted
after_memory o s none = broken
after_memory o s (some m) =
    let s = record s { machine = init_interrupt o.stub s.machine } in
    after_tasks s (task_init o.layout (record (s.kernel) { memory = m }))

-- The lines before `init_memory`.
pub before_memory : Outside → System → System
unfolding resolution_init load_tr first_tss kernel_ends
before_memory o s =
    let s = record s { screen = resolution_init s.screen } in
    let s = load_tr 8 s in
    let s = record s { kernel = first_tss o.layout s.kernel } in
    let s = record s {
      machine = record (s.machine) { idt = init_sys_vector o.address s.machine.idt };
    } in
    record s { kernel = record (s.kernel) { memory = kernel_ends o.layout s.kernel.memory } }

pub kernel_start : Outside → System → Booted
unfolding before_memory
kernel_start o s =
    let s = before_memory o s in after_memory o s (init_memory o.bios o.cr3 s.kernel.memory)
