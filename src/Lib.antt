-- ===== src/Lib.antt =====
-- The kernel of cOS, in C: its start, its physical memory, its output on the frame buffer, its
-- descriptors of exceptions and interrupts, its handlers, its tasks, its linked lists and its memory
-- and string functions. All paths are from the repository's root.
--
-- The parts. `kernel_start` sets up the screen position, the exception vectors, the physical
-- memory, the interrupts and the tasks, in that order; `task_init` makes the first thread and switches
-- to it. The memory manager keeps one descriptor with three arrays: the bitmap of pages, the page
-- structures and the zones. `init_memory` builds them from the memory map and takes the kernel's own
-- pages, and `alloc_pages` searches the bitmap and takes a run of pages, both through `page_init`. The
-- handlers of exceptions, which the stubs of the entry code call with the saved registers, print what
-- happened through `color_printk` and halt, and `do_IRQ` acknowledges an interrupt.
--
-- The files.
--   Memory.Types, Memory.Page, Memory.Alloc, Memory.Init: cOS/kernel/include/memory.h and
--     cOS/kernel/src/memory.c. The state is the record `Memory`; a pointer into an array is an
--     index, a dereferenced null pointer is `none`, and words of 64 bits wrap around.
--   Memory.Paging: the macros and attributes of page table entries in cOS/kernel/include/memory.h;
--     Memory.Paging.Walk has the processor's walk through the tables, as its manual describes it.
--   Printk.Font: the table of cOS/kernel/include/font.h, and what can be read from the pixels.
--   Printk.Number, Printk.Format, Printk.Screen: `__skip_atoi` and `__number`, `__vsprintf`, and
--     the rest of cOS/kernel/src/printk.c. Text is a list of bytes, and the frame buffer a function
--     of the pixel. An argument of another type than the conversion reads, and a null string, are one
--     fault; a text that fills `__buf` and digits behind the end of `tmp` are results of their own.
--   Links: the doubly linked lists of cOS/kernel/include/lib.h, on a store of nodes by address.
--   Strings: the memory, string and bit functions of cOS/kernel/include/lib.h, on a memory of bytes.
--   Gate: cOS/kernel/include/gate.h. The assembly of `_set_gate` is kept instruction by
--     instruction.
--   Trap: cOS/kernel/src/trap.c. A handler is the list of what it prints before it halts.
--   Entry: cOS/kernel/src/entry.sx. Each instruction is a step on the registers and the stack's words;
--     Entry.Stubs has the stubs of the exceptions, Entry.Return how a C function is called from there
--     and what goes on behind it. The processor pushes what it interrupted, and `iretq` takes it
--     back, as its manual describes.
--   Interrupt: cOS/kernel/src/interrupt.c. The bytes sent to ports are part of the state;
--     Interrupt.Controller has the 8259A as its data sheet describes it, as the other side;
--     Interrupt.Stub has the entry stubs, on the state of the tasks.
--   Tasks: cOS/kernel/include/task.h, cOS/kernel/include/ptrace.h and cOS/kernel/src/task.c. The state is
--     the record `Kernel`: a store for each kind of object, the words on the stacks, and the registers
--     that the assembly names. A switch ends at the first instruction of the next task.
--   Start: cOS/kernel/src/main.c, on the state of all parts; Start.Boots follows it
--     from the memory map to the first thread, and Start.Interrupts an interrupt of the kernel that is
--     running through the descriptor, the stub, `do_IRQ` and the way back.
--   Prelude: tests, arrays, machine words, binary digits and sums.
-- The children of a module hold its proofs, and Examples runs.
--
-- Fuel. The loops of `alloc_pages` take fuel, one more than the pages of a zone and the zones of the
-- range have rounds; the loop over a format takes one more than the format's length; a number of 64
-- bits has at most 64 digits; the string functions take more fuel than the text has bytes. A result
-- of its own says that fuel ran out. A loop with a fixed number of rounds is a recursion on the rounds
-- that are left.
--
-- Parameters: the table of pictures where any will do, the memory map that the boot loader left, the
-- value of CR3, the memory that a handler reads the saved instruction pointer from, the addresses
-- that the linker gives, the flags that `memcmp` finds.
--
-- Not modelled: the output of debug builds, the flush of the TLB, the overflow of the int32 sizes
-- in `__number`, what is behind a buffer that is overrun, the registers that a compiler chooses,
-- objects of different kinds that overlap in memory, the boot loaders and cOS/kernel/src/head.sx,
-- and rustOS, which is a program of its own.
pub mod Prelude
pub mod Memory
pub mod Printk
pub mod Links
pub mod Strings
pub mod Gate
pub mod Trap
pub mod Entry
pub mod Interrupt
pub mod Tasks
pub mod Start
