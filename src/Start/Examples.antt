-- ===== src/Start/Examples.antt =====
-- Runs of the start of the kernel.
use oslib.Prelude.{
  ℕ, zero, suc, ◌+◌, ◌-◌, ◌/◌, ◌^◌, ◌<◌, ◌≡◌, refl, ap, arith, some, inl, [], ◌∷◌, List, get_elem?,
  Bool, true, ◌&&◌, ltb, ◌==◌, if◌then◌else◌,
}
use oslib.Memory.Types.{Memory, zone_normal}
use oslib.Memory.Samples.{free_memory}
use oslib.Memory.Page.{page_init}
use oslib.Memory.Init.{copy_map, place_arrays, init_memory}
use oslib.Memory.Init.Total.{last_page, laid_out}
use oslib.Memory.Init.Owned.{page_zero}
use oslib.Memory.Init.Sound.{IsPartition}
use oslib.Memory.Init.Samples.{
  two_regions, two_regions-IsPartition, two_regions-size, two_regions-last,
}
use oslib.Memory.Page.History.{IsSound}
use oslib.Memory.Alloc.{Allocation, alloc_pages, allocated, zone_range}
use oslib.Tasks.Static.{init_task}
use oslib.Tasks.Fork.{task_page_flags}
use oslib.Tasks.Init.First.{IsCall}
use oslib.Tasks.Types.{Kernel}
use oslib.Tasks.Samples.{layout, kernel}
use oslib.Start.{System, running, kernel_ends, kernel_start}
use oslib.Start.Samples.{outside, ends, mapped, system}
use oslib.Start.First.{kernel_start-IsCall}
use oslib.Start.Claimed.{kernel_start-IsSound}
use oslib.Start.Vectors.{IsVector, kernel_start-IsVector}
use oslib.Interrupt.{do_irq}
use oslib.Interrupt.Controller.{Controller, after}
use oslib.Interrupt.Stub.{built_stubs, irq_interrupt}
use oslib.Entry.{Context, restore_all}
use oslib.Entry.Return.{Continues}
use oslib.Start.Interrupts.{entered, AreBuilt, interrupt-Continues}

abbrev ready : Memory
ready = mapped (init_memory two_regions 0x101000 ends)

initialised : init_memory two_regions 0x101000 ends ≡ some ready
unfolding init_memory page_init kernel_ends
initialised = refl

abbrev memory_of : Allocation → Memory
memory_of (allocated p m) = m
memory_of _ = free_memory

abbrev after_boot : Memory
after_boot = memory_of (alloc_pages zone_normal 1 task_page_flags ready)

found : alloc_pages zone_normal 1 task_page_flags ready ≡ allocated 1 after_boot
unfolding init_memory alloc_pages page_init kernel_ends
found = refl

booting :
    (r : System) × (kernel_start outside system ≡ running r)
    × IsCall layout 0 layout.init 10 r.kernel
unfolding init_memory alloc_pages page_init kernel_ends init_task
booting =
    kernel_start-IsCall outside system ready after_boot 1 0 initialised found (omega arith)
      (omega arith) (omega arith) refl refl (omega arith) (omega arith) (inl (omega arith))

-- The vector of the timer.
kernel_start-IsVector_example : IsVector outside system.machine.idt booting.0.machine.idt 0x20
kernel_start-IsVector_example =
    kernel_start-IsVector outside system booting.0 0x20 (λ a. omega arith) (λ k. omega arith)
      booting.1

last_zone : (zone_range zone_normal ready).1 + 1 < 2 ^ 64
unfolding init_memory page_init kernel_ends zone_range
last_zone = omega arith

-- What the kernel is when it starts the first thread.
size : (place_arrays (copy_map 32 0 two_regions ends)).pages_size ≡ 64
unfolding kernel_ends
size = two_regions-size layout.text_start layout.text_end layout.data_end layout.kernel_end

last : last_page two_regions ends ≡ 0
unfolding kernel_ends
last = (two_regions-last layout.text_start layout.text_end layout.data_end).0

regions : IsPartition two_regions ends
unfolding kernel_ends
regions =
    two_regions-IsPartition layout.text_start layout.text_end layout.data_end layout.kernel_end

kernel_start-IsSound_example :
    IsSound
      (place_arrays (copy_map 32 0 two_regions ends)).pages_size
      (laid_out two_regions ends).zones_size
      page_zero
      (last_page two_regions ends + 1 + 1)
      booting.0.kernel.memory
kernel_start-IsSound_example =
    kernel_start-IsSound outside system booting.0 ready after_boot 1 initialised found booting.1
      regions (omega (arith, last)) (omega (arith, last, size)) (omega (arith, size)) last_zone

-- Stubs of 64 bytes, one behind the other.
abbrev code : ℕ → Kernel → Kernel
code a = irq_interrupt layout.ret_from_intr 0xffff800000100600 ((a - 0xffff800000110000) / 64)

abbrev are_small : List ℕ → Bool
are_small [] = true
are_small (n ∷ ns) = ltb n 64 && are_small ns

get_elem?-small : (ns : List ℕ) (i n : ℕ) → are_small ns ≡ true → get_elem? ns i ≡ some n → n < 64
get_elem?-small [] i n small e = absurd (ground (arith, e))
get_elem?-small (m ∷ ns) zero n small e = ground (arith, small, e)
get_elem?-small (m ∷ ns) (suc i) n small e = get_elem?-small ns i n (ground (arith, small)) e

built : AreBuilt outside layout.ret_from_intr 0xffff800000100600 code
built i n e =
    let small = get_elem?-small built_stubs i n refl e in
    ap (irq_interrupt layout.ret_from_intr 0xffff800000100600) (omega (arith, small))

-- A task is interrupted, and the second interrupt stack starts at 0x7c00.
abbrev interrupted : Kernel
interrupted = record (kernel free_memory) { tss_table = λ i. if i == 11 then 0x7c00 else 0 }

abbrev context : Context
context = record { cpu = interrupted.cpu; cs = 8; rflags = 0x202; ss = 0x10 }

abbrev call : Kernel
call = entered code (booting.0.machine.idt 0x21) context interrupted

-- `do_IRQ` has returned, and has left its own number in `rax`.
abbrev back : Kernel
back = record call {
  cpu = record (call.cpu) { rax = 0x21; rip = call.words call.cpu.rsp; rsp = call.cpu.rsp + 8 };
}

abbrev controller : Controller
controller = record { awaited = 0; base = 8; mask = 0; ended = 0 }

interrupt-Continues_example :
    (call.cpu.rip ≡ 0xffff800000100600)
    × (call.cpu.rsi ≡ 0x21)
    × (after 0x20 (do_irq call.cpu.rdi call.cpu.rsi booting.0.machine).sent controller
        ≡ record { awaited = 0; base = 0x20; mask = 0xfd; ended = 1 })
    × (after 0xa0 (do_irq call.cpu.rdi call.cpu.rsi booting.0.machine).sent controller
        ≡ record { awaited = 0; base = 0x28; mask = 0xff; ended = 0 })
    × (back.cpu.rip ≡ layout.ret_from_intr)
    × Continues context (restore_all back)
interrupt-Continues_example =
    interrupt-Continues outside system booting.0 0x21 layout.ret_from_intr 0xffff800000100600 code
      context interrupted back controller (λ a. omega arith) (λ k. omega arith) booting.1
      (omega arith) (omega arith) built
      (record { ds = omega arith; es = omega arith; cs = omega arith; ss = omega arith })
      (omega arith) (record { rip = refl; rsp = refl; words = λ a le. refl })
