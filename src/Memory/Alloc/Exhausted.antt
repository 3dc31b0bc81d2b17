-- ===== src/Memory/Alloc/Exhausted.antt =====
-- What `alloc_pages` returns when no zone has the pages.
use oslib.Prelude.{
  ℕ, zero, suc, ◌+◌, ◌-◌, ◌^◌, ◌≤◌, ◌<◌, ◌≡◌, ◌⊎◌, arith, ap, Bool-cases, inl, inr, leb,
}
use oslib.Prelude.Words.{add64}
use oslib.Memory.Types.{Memory}
use oslib.Memory.Alloc.{miss, search_zone, scan_zones, zone_range, finish, null, alloc_pages}
use oslib.Memory.Alloc.Pages.{ForZones}

-- The zone has fewer free pages than are asked for.
abbrev pub Lacks : (number : ℕ) → Memory → ℕ → Type 0
Lacks number m z = (m.zones z).page_free_cnt < number

scan_zones_miss :
    (fuel i zone_end number : ℕ) (m : Memory)
    → 0 < fuel
    → zone_end + 1 < fuel + i
    → zone_end + 1 < 2 ^ 64
    → ((z : ℕ) → i ≤ z → z ≤ zone_end → Lacks number m z ⊎ (search_zone z number m ≡ miss))
    → scan_zones fuel i zone_end number m ≡ miss
unfolding scan_zones
scan_zones_miss zero i zone_end number m some_fuel h w few = absurd (omega arith)
scan_zones_miss (suc fuel) i zone_end number m some_fuel h w few =
    elim (Bool-cases (leb i zone_end)) [
      | inl inside ↦
          let le : i ≤ zone_end = ground (arith, inside) in
          let rest =
            scan_zones_miss fuel (add64 i 1) zone_end number m (omega arith) (omega arith) w
              (λ z lo hi. few z (omega arith) hi) in
          ground (arith, few i, rest, le)
      | inr outside ↦ ground (arith, outside)
    ]

-- A selection of which every zone has too few free pages or is searched in vain.
pub alloc_pages_misses :
    (zone_select number flags : ℕ) (m : Memory)
    → ForZones zone_select m (λ z. Lacks number m z ⊎ (search_zone z number m ≡ miss))
    → (zone_range zone_select m).1 + 1 < 2 ^ 64
    → alloc_pages zone_select number flags m ≡ null
unfolding alloc_pages
alloc_pages_misses zone_select number flags m few w = ap (finish number flags m) (
    scan_zones_miss (suc ((zone_range zone_select m).1 + 1 - (zone_range zone_select m).0))
      (zone_range zone_select m).0 (zone_range zone_select m).1 number m (omega arith) (omega arith)
      w few)

-- `alloc_pages` returns the null pointer if every zone of the selection has fewer free pages than
-- are asked for, and the last one has not the greatest number.
pub alloc_pages-Lacks :
    (zone_select number flags : ℕ) (m : Memory)
    → ForZones zone_select m (Lacks number m)
    → (zone_range zone_select m).1 + 1 < 2 ^ 64
    → alloc_pages zone_select number flags m ≡ null
alloc_pages-Lacks zone_select number flags m few w =
    alloc_pages_misses zone_select number flags m (λ z lo hi. inl (few z lo hi)) w
