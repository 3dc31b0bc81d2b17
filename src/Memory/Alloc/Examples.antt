-- ===== src/Memory/Alloc/Examples.antt =====
-- Runs of `alloc_pages` on small memories.
use oslib.Prelude.{ℕ, ◌<◌, ◌+◌, ◌≡◌, ◌^◌, refl, arith, Option, none, some, ◌%◌}
use oslib.Prelude.Bits.{bit-zero}
use oslib.Memory.Types.{Memory, page_bit}
use oslib.Memory.Samples.{page, memory, free_memory, sound_memory, sound_memory-IsSound}
use oslib.Memory.Page.{page_init}
use oslib.Memory.Alloc.{Allocation, zone_range, alloc_pages, allocated, null}
use oslib.Memory.Page.History.{IsSound}
use oslib.Memory.Init.{init_memory}
use oslib.Memory.Init.Samples.{narrow_map, unknown_memory}
use oslib.Memory.Alloc.Sound.{alloc_pages-IsSound}
use oslib.Memory.Alloc.Pages.{
  alloc_pages_free, alloc_pages_shifted, ForZones, SecondInWord, FirstInWord,
}
use oslib.Memory.Alloc.Complete.{HasRun}
use oslib.Memory.Alloc.Finds.{alloc_pages_finds}
use oslib.Memory.Alloc.Late.{LateInWord, alloc_pages-LateInWord}

abbrev memory_of : Allocation → Memory
memory_of (allocated p m) = m
memory_of _ = free_memory

-- The zone begins with the first page of a word, and page 63 belongs to it as well as 64 and 65.
abbrev aligned_memory : Memory
aligned_memory = memory 64 (page 0 0) 0 2 0

abbrev allocation : Allocation
allocation = alloc_pages 1 2 0x80 free_memory

second_in_word : ForZones 1 free_memory (SecondInWord free_memory)
unfolding zone_range
second_in_word z lo hi = (refl, refl, omega arith)

first_in_word : ForZones 1 aligned_memory (FirstInWord aligned_memory)
unfolding zone_range
first_in_word z lo hi = (refl, omega arith, omega arith)

free_run : alloc_pages 1 2 0x80 free_memory ≡ allocated 65 (memory_of allocation)
unfolding alloc_pages page_init
free_run = refl

aligned_run :
    alloc_pages 1 2 0x80 aligned_memory
    ≡ allocated 63 (memory_of (alloc_pages 1 2 0x80 aligned_memory))
unfolding alloc_pages page_init
aligned_run = refl

last_zone : (zone_range 1 free_memory).1 + 1 < 2 ^ 64
unfolding zone_range
last_zone = omega arith

alloc_pages_free_example : page_bit free_memory.bits (65 + 1) ≡ 0
alloc_pages_free_example =
    alloc_pages_free 1 2 0x80 free_memory free_run (omega arith) last_zone second_in_word 1
      (omega arith)

alloc_pages_shifted_example : page_bit aligned_memory.bits (63 + 1 + 1) ≡ 0
unfolding zone_range
alloc_pages_shifted_example =
    alloc_pages_shifted 1 2 0x80 aligned_memory aligned_run (omega arith) last_zone first_in_word 1
      (omega arith)

sound_run :
    alloc_pages 1 2 0x80 sound_memory ≡ allocated 65 (memory_of (alloc_pages 1 2 0x80 sound_memory))
unfolding alloc_pages page_init
sound_run = refl

alloc_pages-IsSound_example :
    IsSound 67 1 (λ z. 0) 2 (memory_of (alloc_pages 1 2 0x80 sound_memory))
unfolding zone_range
alloc_pages-IsSound_example =
    alloc_pages-IsSound 1 2 0x80 67 1 0 65 (λ z. 0) sound_memory _ sound_run (omega arith)
      (omega arith) (omega arith) (omega arith) (omega arith) (omega arith) sound_memory-IsSound

abbrev mapped : Option Memory → Memory
mapped none = free_memory
mapped (some m) = m

abbrev ready : Memory
ready = mapped (init_memory narrow_map 0x101000 unknown_memory)

-- The two pages of the zone, which are free.
free_pages : HasRun 2 free_memory 0 65
free_pages = record {
  enough = omega arith;
  from_start = omega arith;
  to_end = omega arith;
  looked_at = (omega arith, λ same. omega arith);
  free = λ l h. bit-zero ((65 + l) % 64);
}

alloc_pages_finds_example :
    (page : ℕ) × (m' : Memory) × (alloc_pages 1 2 0x80 free_memory ≡ allocated page m')
unfolding zone_range
alloc_pages_finds_example =
    alloc_pages_finds 1 2 0x80 free_memory 0 65 (omega arith) last_zone second_in_word
      (λ z lo hi i at before e. ground arith) (omega arith) (omega arith) (omega arith) free_pages

-- Both pages of the zone, the 37th and the 38th of a word, are free.
abbrev late_memory : Memory
late_memory = memory 100 (page 0 0) 0 2 0

late : ForZones 1 late_memory (LateInWord late_memory)
unfolding zone_range
late z lo hi = (omega arith, refl)

alloc_pages-LateInWord_example : alloc_pages 1 2 0x80 late_memory ≡ null
unfolding zone_range
alloc_pages-LateInWord_example = alloc_pages-LateInWord 1 2 0x80 late_memory late (omega arith)
