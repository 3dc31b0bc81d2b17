-- ===== src/Start/Samples.antt =====
-- A machine that starts, and what it does not choose.
use oslib.Prelude.{◌+◌, ◌*◌, ◌%◌, Option, none, some, [], false}
use oslib.Memory.Types.{Memory}
use oslib.Memory.Samples.{free_memory}
use oslib.Memory.Init.Samples.{two_regions}
use oslib.Tasks.Samples.{layout, kernel}
use oslib.Start.{System, Outside, kernel_ends}

abbrev pub outside : Outside
outside = record {
  layout = layout;
  address = λ s. 0xffff800000101000;
  stub = λ n. 0xffff800000110000 + n % 64 * 64;
  bios = two_regions;
  cr3 = 0x101000;
}

-- The memory description before anything is known.
abbrev pub blank : Memory
blank = record free_memory { e820 = λ i. record { addr = 0; len = 0; type = 0 }; zones_size = 0 }

abbrev pub ends : Memory
ends = kernel_ends layout blank

abbrev pub mapped : Option Memory → Memory
mapped none = free_memory
mapped (some m) = m

abbrev pub system : System
system = record {
  screen = record {
    pos = record {
      x_resolution = 0;
      y_resolution = 0;
      x_position = 0;
      y_position = 0;
      x_char_size = 0;
      y_char_size = 0;
      fb_addr = 0;
      fb_length = 0;
    };
    fb = λ a. 0;
  };
  machine = record {
    idt = λ n. record { low = 0; high = 0 };
    sent = [];
    read = [];
    interrupts = false;
  };
  kernel = kernel blank;
  task_register = 0;
}
