-- ===== src/Start/Boots.antt =====
-- The kernel from its start to the first thread, with the page that `alloc_pages` finds.
mod Examples
use mathlib.Core.Path.{subst}
use mathlib.Core.Option.{get_or}
use native.Mathlib.Decide.{dec_lt}
use oslib.Prelude.{
  ℕ, zero, suc, ◌+◌, ◌*◌, ◌/◌, ◌%◌, ◌^◌, ◌≤◌, ◌<◌, ◌≡◌, ◌≢◌, refl, sym, ap, ◌∙◌, arith, ◌==◌, some,
  bit_and, false, inl, Option-cases,
}
use oslib.Memory.Types.{Memory, page_offset, page_2m_size, page_bit, zone_normal}
use oslib.Memory.Page.Marked.{IsMarked}
use oslib.Memory.Init.{copy_map, place_arrays, init_memory}
use oslib.Memory.Init.Marks.{cover_count}
use oslib.Memory.Init.Total.{last_page, init_memory_ends}
use oslib.Memory.Init.Placed.{init_memory-IsMarked}
use oslib.Memory.Alloc.{alloc_pages, allocated, zone_range, start_page}
use oslib.Memory.Alloc.Single.{one_page, in_word}
use oslib.Memory.Alloc.Pages.{ForZones, SecondInWord, alloc_pages_free}
use oslib.Memory.Alloc.Complete.{HasRun}
use oslib.Memory.Alloc.Finds.{HasZones, alloc_pages_finds}
use oslib.Tasks.Types.{stack_size, size_of_task_struct, pf_kthread}
use oslib.Tasks.Fork.{get_current, phy_to_virt, task_page_flags}
use oslib.Tasks.Init.First.{IsCall}
use oslib.Start.{System, Outside, running, kernel_ends, kernel_start}
use oslib.Start.First.{kernel_start-IsCall}

-- The kernel's pages are those up to the last one that it reaches into.
abbrev pub InKernel : (last a : ℕ) → Type 0
InKernel last a = a < page_offset + (last + 1) * page_2m_size

-- A page that `init_memory` has left free lies behind the kernel, at its place in memory.
free_page :
    (o : Outside) (before m : Memory) (p : ℕ)
    → let placed = place_arrays (copy_map 32 0 o.bios before) in
      init_memory o.bios o.cr3 before ≡ some m
      → ((n : ℕ)
          → 0 < n
          → n ≤ last_page o.bios before
          → 0 < cover_count placed.e820_len 0 placed.e820 n)
      → last_page o.bios before < placed.pages_size
      → p < placed.pages_size
      → page_bit m.bits p ≡ 0
      → last_page o.bios before < p
free_page o before m p mapped covered fits inside clear =
    elim (dec_lt (last_page o.bios before) p) [
      | yes behind ↦ behind
      | no kernel ↦
          let (m', run, used) = init_memory_ends o.bios o.cr3 before covered in
          let same : m' ≡ m = ap (λ o. get_or o m) (sym run ∙ mapped) in
          let at = init_memory-IsMarked o.bios o.cr3 before m p mapped fits inside in
          let taken : (m.pages p).attribute ≢ 0 =
            subst (λ (m : Memory). (m.pages p).attribute ≢ 0) same
              (used p (omega (arith, kernel))) in
          absurd (omega (arith, at.marked taken, clear))
    ]

-- The memory map covers the pages of the kernel and of the structures behind it, which end within
-- the array of pages, and the array stands for less than 128 TB; every normal zone starts at the
-- second page of a word of the bitmap and ends in it, and that word's pages are in the array; those
-- that are free have zones, and one of them is free at a place at which the search looks, in a zone
-- that has free pages. The processor is on the stack of the first task, a kernel task, and this
-- task, its thread and the stack pointer are within the kernel's pages, with room for three words.
-- Then the kernel gets to the first instruction of `kernel_thread_func`, which calls `init` with 10.
pub kernel_start-boots :
    (o : Outside) (s : System) (m : Memory) (z p return_address : ℕ)
    → let before = kernel_ends o.layout s.kernel.memory in
      let placed = place_arrays (copy_map 32 0 o.bios before) in
      let last = last_page o.bios before in
      let boot = o.layout.init_task_union in
      init_memory o.bios o.cr3 before ≡ some m
      → ((n : ℕ) → 0 < n → n ≤ last → 0 < cover_count placed.e820_len 0 placed.e820 n)
      → last < placed.pages_size
      → placed.pages_size < 2 ^ 26
      → (zone_range zone_normal m).1 + 1 < 2 ^ 64
      → ForZones zone_normal m (SecondInWord m)
      → ForZones zone_normal m (HasZones 1 m)
      → ForZones zone_normal m (λ z. 64 * (start_page m z / 64) + 63 ≤ placed.pages_size)
      → (zone_range zone_normal m).0 ≤ z
      → z ≤ (zone_range zone_normal m).1
      → m.bits (p / 64) < 2 ^ 64
      → HasRun 1 m z p
      → get_current s.kernel ≡ boot
      → (bit_and (s.kernel.tasks boot).flags pf_kthread == 0) ≡ false
      → InKernel last boot
      → InKernel last (s.kernel.tasks boot).thread
      → InKernel last s.kernel.cpu.rsp
      → 24 ≤ s.kernel.cpu.rsp
      → (r : System) × (kernel_start o s ≡ running r)
        × IsCall o.layout return_address o.layout.init 10 r.kernel
kernel_start-boots o s m z p return_address mapped covered fits small w second zoned words lo hi
      word run current kernel_only task_in thread_in stack_in room =
    let before = kernel_ends o.layout s.kernel.memory in
    let (page, after, found) =
      alloc_pages_finds zone_normal 1 task_page_flags m z p (omega arith) w second zoned lo hi word
        run in
    let (z', from_zone, to_zone, from_start, to_end) =
      in_word zone_normal task_page_flags page m found w second in
    let inside : page < (place_arrays (copy_map 32 0 o.bios before)).pages_size =
      omega (arith, to_end, words z' from_zone to_zone) in
    let here : page + 0 ≡ page = omega arith in
    let clear : page_bit m.bits page ≡ 0 =
      sym (ap (page_bit m.bits) here)
      ∙ alloc_pages_free zone_normal 1 task_page_flags m found (omega arith) w second 0
          (omega arith) in
    let has_zone = zoned z' from_zone to_zone page from_start (omega (arith, to_end)) clear in
    let behind = free_page o before m page mapped covered fits inside clear in
    let at = init_memory-IsMarked o.bios o.cr3 before m page mapped fits inside in
    let place : (after.pages page).phy_addr ≡ page * page_2m_size =
      one_page zone_normal task_page_flags page m found w ∙ at.placed has_zone in
    let tsk : phy_to_virt (after.pages page).phy_addr ≡ page_offset + page * page_2m_size =
      omega (arith, place, inside, small) in
    kernel_start-IsCall o s m after page return_address mapped found (omega (arith, tsk))
      (omega (arith, tsk, inside, small)) (omega (arith, tsk, behind, task_in)) current kernel_only
      (omega (arith, tsk, behind, thread_in)) room (inl (omega (arith, tsk, behind, stack_in)))
