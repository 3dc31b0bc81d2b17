-- ===== src/Start/Boots/Examples.antt =====
-- A kernel of one page, in a memory of one region, that starts its first thread.
use oslib.Prelude.{
  ℕ, zero, suc, ◌+◌, ◌*◌, ◌/◌, ◌^◌, ◌≤◌, ◌<◌, ◌≡◌, ◌≢◌, refl, arith, Bool, true, false, Option,
  none, some, ◌||◌, ◌==◌, not, all_below, all_below_lem,
}
use oslib.Memory.Types.{Memory, page_bit, zone_normal}
use oslib.Memory.Page.{page_init}
use oslib.Memory.Init.{copy_map, place_arrays, init_memory}
use oslib.Memory.Init.Total.{last_page}
use oslib.Memory.Init.Samples.{narrow_map, narrow_map-size, narrow_map-last}
use oslib.Memory.Alloc.{zone_range, start_page}
use oslib.Memory.Alloc.Pages.{ForZones, SecondInWord}
use oslib.Memory.Alloc.Complete.{HasRun}
use oslib.Memory.Alloc.Finds.{HasZones}
use oslib.Tasks.Static.{init_task}
use oslib.Tasks.Init.First.{IsCall}
use oslib.Tasks.Samples.{layout}
use oslib.Start.{System, Outside, running, kernel_ends, kernel_start}
use oslib.Start.Samples.{outside, ends, mapped, system}
use oslib.Start.Boots.{kernel_start-boots}

abbrev narrow : Outside
narrow = record outside { bios = narrow_map }

abbrev ready : Memory
ready = mapped (init_memory narrow_map 0x101000 ends)

initialised : init_memory narrow_map 0x101000 ends ≡ some ready
unfolding init_memory page_init kernel_ends
initialised = refl

size : (place_arrays (copy_map 32 0 narrow_map ends)).pages_size ≡ 63
unfolding kernel_ends
size = narrow_map-size layout.text_start layout.text_end layout.data_end layout.kernel_end

last : last_page narrow_map ends ≡ 0
unfolding kernel_ends
last = narrow_map-last layout.text_start layout.text_end layout.data_end

last_zone : (zone_range zone_normal ready).1 + 1 < 2 ^ 64
unfolding init_memory page_init kernel_ends zone_range
last_zone = omega arith

second : ForZones zone_normal ready (SecondInWord ready)
unfolding init_memory page_init kernel_ends zone_range
second z lo hi = ground (arith, lo, hi)

-- The pages of the first word that are free have a zone.
abbrev is_in_zone : Option ℕ → Bool
is_in_zone none = false
is_in_zone (some z) = true

abbrev has_zone : Memory → ℕ → Bool
has_zone m i = not (page_bit m.bits i == 0) || is_in_zone (m.pages i).zone_struct

zones_computed : all_below 64 (has_zone ready) ≡ true
unfolding init_memory page_init kernel_ends
zones_computed = refl

zone_of :
    (m : Memory) (i : ℕ)
    → has_zone m i ≡ true
    → page_bit m.bits i ≡ 0
    → (m.pages i).zone_struct ≢ none
zone_of m i e clear = ground (arith, e, clear)

zoned : ForZones zone_normal ready (HasZones 1 ready)
unfolding init_memory page_init kernel_ends zone_range
zoned zero lo hi i at before clear =
    zone_of ready i (all_below_lem 64 (has_zone ready) i zones_computed (omega (arith, before)))
      clear
zoned (suc z) lo hi i at before clear = absurd (omega (arith, hi))

first_free : (l : ℕ) → l < 1 → page_bit ready.bits (1 + l) ≡ 0
unfolding init_memory page_init kernel_ends
first_free zero h = refl
first_free (suc l) h = absurd (omega (arith, h))

free_page : HasRun 1 ready 0 1
unfolding init_memory page_init kernel_ends
free_page = record {
  enough = omega arith;
  from_start = omega arith;
  to_end = omega arith;
  looked_at = (omega arith, λ same. omega arith);
  free = first_free;
}

word : ready.bits (1 / 64) < 2 ^ 64
unfolding init_memory page_init kernel_ends
word = omega arith

words : ForZones zone_normal ready (λ z.
    64 * (start_page ready z / 64) + 63 ≤ (place_arrays (copy_map 32 0 narrow_map ends)).pages_size)
unfolding init_memory page_init kernel_ends zone_range
words zero lo hi = omega (arith, size)
words (suc z) lo hi = absurd (omega (arith, hi))

kernel_start-boots_example :
    (r : System) × (kernel_start narrow system ≡ running r)
    × IsCall layout 0xffff800000100220 layout.init 10 r.kernel
unfolding init_memory page_init kernel_ends init_task zone_range
kernel_start-boots_example =
    kernel_start-boots narrow system ready 0 1 0xffff800000100220 initialised
      (λ n lo hi. absurd (omega (arith, lo, hi, last))) (omega (arith, size, last))
      (omega (arith, size)) last_zone second zoned words (omega arith) (omega arith) word free_page
      refl refl (omega arith) (omega arith) (omega arith) (omega arith)
