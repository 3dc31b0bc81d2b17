-- ===== src/Memory/Init/Examples.antt =====
-- A memory map of two regions, and the bitmap that it leads to.
use oslib.Prelude.{
  ℕ, zero, suc, ◌+◌, ◌-◌, ◌/◌, ◌%◌, ◌≤◌, ◌<◌, ◌≡◌, ◌≢◌, refl, ap, arith, Option, none, some,
}
use oslib.Memory.Types.{Memory, page_bit}
use oslib.Memory.Samples.{free_memory}
use oslib.Memory.Page.{page_init}
use oslib.Memory.Page.History.{IsSound}
use oslib.Memory.Init.{
  copy_map, place_arrays, add_zones, region_start, region_end, is_usable, init_memory,
}
use oslib.Memory.Init.Total.{laid_out, last_page, init_memory_ends}
use oslib.Memory.Init.Owned.{page_zero}
use oslib.Memory.Init.Unmapped.{init_memory-translate}
use oslib.Memory.Paging.Walk.{translate}
use oslib.Memory.Init.Sound.{init_memory-IsSound}
use oslib.Memory.Init.Samples.{
  two_regions, unknown_memory, two_regions-IsPartition, two_regions-size, two_regions-last,
}
use oslib.Memory.Init.Map.{IsCopy, copy_map-IsCopy}
use oslib.Memory.Init.Marks.{covers, within, cover_count, zones_marks}

abbrev bios_memory : Memory
bios_memory = record free_memory { e820 = two_regions; e820_len = 2 }

copy_map-IsCopy_example :
    IsCopy 32 0 two_regions free_memory (copy_map 32 0 two_regions free_memory)
copy_map-IsCopy_example = copy_map-IsCopy 31 0 two_regions free_memory

zones_marks_example :
    page_bit (add_zones (place_arrays bios_memory).e820_len 0 (place_arrays bios_memory)).bits 3
    ≡ (1 + cover_count 2 0 two_regions 3) % 2
zones_marks_example = zones_marks bios_memory 3 (unfold place_arrays in omega arith)

-- The pages that the kernel reaches into, behind page 0.
covered :
    (n : ℕ)
    → 0 < n
    → n ≤ 2
    → 0
      < cover_count
          (place_arrays (copy_map 32 0 two_regions unknown_memory)).e820_len
          0
          (place_arrays (copy_map 32 0 two_regions unknown_memory)).e820
          n
unfolding copy_map place_arrays is_usable region_start region_end covers within cover_count
covered zero lo hi = absurd (omega arith)
covered (suc zero) lo hi = omega arith
covered (suc (suc zero)) lo hi = omega arith
covered (suc (suc (suc n))) lo hi = absurd (omega arith)

init_memory_ends_example :
    (m : Memory) × (init_memory two_regions 0x101000 unknown_memory ≡ some m)
    × ((n : ℕ) → n ≤ last_page two_regions unknown_memory → (m.pages n).attribute ≢ 0)
init_memory_ends_example =
    init_memory_ends two_regions 0x101000 unknown_memory
      (λ n lo hi. covered n lo (omega (arith, hi, (two_regions-last 0 0 0).1)))

abbrev booted : Option Memory → Memory
booted none = free_memory
booted (some m) = m

abbrev ready : Memory
ready = booted (init_memory two_regions 0x101000 unknown_memory)

initialised : init_memory two_regions 0x101000 unknown_memory ≡ some ready
unfolding init_memory page_init
initialised = refl

abbrev size : ℕ
size = (place_arrays (copy_map 32 0 two_regions unknown_memory)).pages_size

init_memory-IsSound_example :
    IsSound size
      (laid_out two_regions unknown_memory).zones_size
      page_zero
      (last_page two_regions unknown_memory + 1)
      ready
init_memory-IsSound_example =
    init_memory-IsSound two_regions 0x101000 unknown_memory ready initialised
      (two_regions-IsPartition 0 0 0 0xffff800000500000)
      (omega (arith, (two_regions-last 0 0 0).1, two_regions-size 0 0 0 0xffff800000500000))

-- The table of the processor, eight bytes for each entry from 0x101000 on.
abbrev table : ℕ → ℕ
table a = ready.pml4 ((a - 0x101000) / 8)

-- The null pointer.
init_memory-translate_example : translate table 0x101000 0 ≡ none
init_memory-translate_example =
    init_memory-translate two_regions 0x101000 0 table unknown_memory ready initialised
      (λ i lt. ap ready.pml4 (omega arith)) (omega arith)
