-- ===== src/Memory/Examples.antt =====
-- A small memory, and runs of the page functions on it.
use oslib.Prelude.{ℕ, ◌≡◌, ◌≢◌, refl, arith, Option, none, some, ◌>>=◌}
use oslib.Prelude.Sums.{total}
use oslib.Memory.Types.{Memory, page_bit, mark_used}
use oslib.Memory.Samples.{page, memory, free_memory, sound_memory, sound_memory-IsSound}
use oslib.Memory.Page.{is_shared, page_init, page_clean}
use oslib.Memory.Page.Counts.{IsCounted}
use oslib.Memory.Page.Accounts.{IsAccounted, in_zone, unused_in, used_in, links_in}
use oslib.Memory.Page.History.{History, no_call, taken, given_back, calls, IsSound, History-IsSound}
use oslib.Memory.Page.Restore.{IsFree, page_clean-page_init, page_clean-page_init_shared}
use oslib.Memory.Alloc.{zone_range, alloc_pages, diverges}
use oslib.Memory.Alloc.Fuel.{alloc_pages_ends}

free_page : (n : ℕ) → IsCounted (page 0 0 n)
free_page n = record {
  unused = λ h. refl;
  in_use = λ h. omega (arith, h);
  exclusive = λ h e. omega (arith, h);
  fits = omega arith;
}

kernel_page : (n : ℕ) → IsCounted (page 0x80 1 n)
unfolding is_shared
kernel_page n = record {
  unused = λ h. omega (arith, h);
  in_use = λ h. omega arith;
  exclusive = λ h e. refl;
  fits = omega arith;
}

-- The memory that an operation leaves, or else the free one.
abbrev memory_with : Option Memory → Memory
memory_with none = free_memory
memory_with (some m) = m

abbrev used_memory : Memory
used_memory = memory 65 (page 0x80 1) 2 0 2

-- The zone of two free pages counts them right.
free_memory-IsAccounted : IsAccounted 2 0 0 free_memory
unfolding total in_zone unused_in used_in links_in
free_memory-IsAccounted = record { free = refl; using = refl; links = refl }

-- So does the zone of two used pages.
used_memory-IsAccounted : IsAccounted 2 0 0 used_memory
unfolding total in_zone unused_in used_in links_in
used_memory-IsAccounted = record { free = refl; using = refl; links = refl }

page-IsFree : IsFree 1 0 free_memory
page-IsFree = record {
  unused = refl;
  unreferenced = refl;
  zone = refl;
  word = omega arith;
  clear = refl;
  using = omega arith;
  free = omega arith;
  links = omega arith;
}

page_clean-page_init_example : (page_init 1 0x80 free_memory >>= page_clean 1) ≡ some free_memory
unfolding is_shared
page_clean-page_init_example =
    page_clean-page_init 1 0x80 0 free_memory page-IsFree (omega arith) refl

page_clean-page_init_shared_example :
    ((page_init 1 0x180 free_memory >>= page_clean 1)
      ≡ some (record free_memory { bits = mark_used free_memory.bits 1 }))
    × (page_bit (mark_used free_memory.bits 1) 1 ≡ 1)
unfolding is_shared
page_clean-page_init_shared_example =
    page_clean-page_init_shared 1 0x180 0 free_memory page-IsFree (omega arith) refl

alloc_pages_ends_example : alloc_pages 1 2 0x80 free_memory ≢ diverges
unfolding zone_range
alloc_pages_ends_example = alloc_pages_ends 1 2 0x80 free_memory (omega arith)

abbrev taken_memory : Memory
taken_memory = memory_with (page_init 65 0x80 sound_memory)

abbrev cleaned_memory : Memory
cleaned_memory = memory_with (page_clean 65 taken_memory)

-- Page 65 is taken and given back.
history : History 67 sound_memory cleaned_memory
unfolding page_init page_clean is_shared
history = given_back 65 (taken 65 0x80 no_call (omega arith) (omega arith) refl) (omega arith) refl

History-IsSound_example : IsSound 67 1 (λ z. 0) (calls history) cleaned_memory
unfolding history calls
History-IsSound_example =
    History-IsSound 67 1 0 (λ z. 0) sound_memory cleaned_memory history (omega arith) (omega arith)
      sound_memory-IsSound
