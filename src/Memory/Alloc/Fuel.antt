-- ===== src/Memory/Alloc/Fuel.antt =====
-- The fuel that `alloc_pages` gives its searches is enough.
use oslib.Prelude.{ℕ, zero, suc, ◌+◌, ◌-◌, ◌^◌, ◌<◌, ◌≢◌, arith}
use oslib.Prelude.Words.{add64}
use oslib.Memory.Types.{Memory}
use oslib.Memory.Alloc.{
  no_fuel, next_block, scan_zone, search_zone, start_page, end_page, scan_zones, diverges,
  zone_range, alloc_pages,
}

scan_zone_ends :
    (fuel start end j number : ℕ) (bits : ℕ → ℕ)
    → 0 < fuel
    → end + 1 < fuel + j
    → scan_zone fuel start end j number bits ≢ no_fuel
unfolding scan_zone
scan_zone_ends zero start end j number bits some_fuel h = absurd (omega arith)
scan_zone_ends (suc fuel) start end j number bits some_fuel h =
    ground (arith, scan_zone_ends fuel start end (next_block start j) number bits)

search_zone_ends : (i number : ℕ) (m : Memory) → search_zone i number m ≢ no_fuel
unfolding search_zone
search_zone_ends i number m =
    let start = start_page m i in
    let end = end_page m i in
    scan_zone_ends (suc (end + 1 - start)) start end start number m.bits (omega arith) (omega arith)

pub scan_zones_ends :
    (fuel i zone_end number : ℕ) (m : Memory)
    → 0 < fuel
    → zone_end + 1 < fuel + i
    → zone_end + 1 < 2 ^ 64
    → scan_zones fuel i zone_end number m ≢ no_fuel
unfolding scan_zones
scan_zones_ends zero i zone_end number m some_fuel h w = absurd (omega arith)
scan_zones_ends (suc fuel) i zone_end number m some_fuel h w =
    ground (arith, scan_zones_ends fuel (add64 i 1) zone_end number m, search_zone_ends i number m)

-- `alloc_pages` ends, unless the last zone to search has the greatest number of all (which it has
-- if there is no zone at all and the selector is `ZONE_UNMAPPED`).
pub alloc_pages_ends :
    (zone_select number flags : ℕ) (m : Memory)
    → (zone_range zone_select m).1 + 1 < 2 ^ 64
    → alloc_pages zone_select number flags m ≢ diverges
unfolding alloc_pages
alloc_pages_ends zone_select number flags m w =
    ground (arith, scan_zones_ends (suc (zone_end + 1 - zone_start)) zone_start zone_end number m)
  where
    zone_start : ℕ
    zone_start = (zone_range zone_select m).0

    zone_end : ℕ
    zone_end = (zone_range zone_select m).1
