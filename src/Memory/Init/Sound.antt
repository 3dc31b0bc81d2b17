-- ===== src/Memory/Init/Sound.antt =====
-- The memory that `init_memory` leaves has right counters.
use mathlib.Core.Path.{subst}
use oslib.Prelude.{
  ℕ, ◌+◌, ◌^◌, ◌≤◌, ◌<◌, ◌≡◌, refl, sym, ap, ◌∙◌, arith, none, some, if◌then◌else◌, ltb,
}
use oslib.Prelude.Sums.{total}
use oslib.Memory.Types.{E820, Memory, Page, Zone}
use oslib.Memory.Page.Accounts.{IsAccounted, in_zone}
use oslib.Memory.Page.History.{IsSound, History-IsSound}
use oslib.Memory.Init.{
  copy_map, place_arrays, add_zones, claim_page_zero, close_struct, drop_low_mappings, init_memory,
}
use oslib.Memory.Init.Marks.{cover_count}
use oslib.Memory.Init.Total.{laid_out, last_page, find_unmapped_pages}
use oslib.Memory.Init.Placed.{laid_out-IsClear, init_memory-History}
use oslib.Memory.Init.Counters.{owned, IsZoned, add_zones-IsZoned, add_zones-uncovered}
use oslib.Memory.Init.Owned.{
  page_zero, find_unmapped_zones, unused-owned, used-none, links-none, claim-owned, owned-le,
}

-- The regions of the copied memory map cover no page twice, none beyond the array, and not page 0.
pub record IsPartition (bios : ℕ → E820) (m : Memory) : Type 0 where
  pub word : (place_arrays (copy_map 32 0 bios m)).pages_size < 2 ^ 64
  pub short : (place_arrays (copy_map 32 0 bios m)).e820_len < 2 ^ 64
  pub single :
      (i : ℕ)
      → let placed = place_arrays (copy_map 32 0 bios m) in
        cover_count placed.e820_len 0 placed.e820 i ≤ (if ltb i placed.pages_size then 1 else 0)
  pub bare :
      let placed = place_arrays (copy_map 32 0 bios m) in
      cover_count placed.e820_len 0 placed.e820 0 ≡ 0
  pub some_page : 0 < (place_arrays (copy_map 32 0 bios m)).pages_size

module _ (bios : ℕ → E820) (m : Memory) (map : IsPartition bios m) where
  abbrev placed : Memory
  placed = place_arrays (copy_map 32 0 bios m)

  abbrev zoned : Memory
  zoned = add_zones placed.e820_len 0 placed

  no_zone : (i : ℕ) → i < placed.pages_size → (placed.pages i).zone_struct ≡ none
  unfolding place_arrays
  no_zone i h = ground (arith, h)

  no_zones : placed.zones_size ≡ 0
  unfolding place_arrays
  no_zones = refl

  zoned-IsZoned : IsZoned placed.pages_size 0 (0 + placed.e820_len) zoned
  zoned-IsZoned =
      add_zones-IsZoned placed.e820_len placed.pages_size 0 placed (omega (arith, map.short))
        (record {
          few = omega (arith, no_zones);
          known = λ i z at h. ground (arith, at, no_zone i h);
          free = λ z lt. absurd (omega (arith, lt, no_zones));
          using = λ z lt. absurd (omega (arith, lt, no_zones));
          links = λ z lt. absurd (omega (arith, lt, no_zones));
          apart = λ i h zone. absurd (zone (no_zone i h));
          single = map.single;
        })

  bare_zero : (zoned.pages 0).zone_struct ≡ none
  bare_zero = add_zones-uncovered placed.e820_len 0 0 placed map.bare ∙ no_zone 0 map.some_page

  same_pages : (laid_out bios m).pages ≡ (claim_page_zero zoned).pages
  unfolding close_struct
  same_pages = find_unmapped_pages (claim_page_zero zoned).zones_size 0 (claim_page_zero zoned)

  same_zones :
      ((laid_out bios m).zones ≡ zoned.zones) × ((laid_out bios m).zones_size ≡ zoned.zones_size)
  unfolding close_struct claim_page_zero
  same_zones = find_unmapped_zones (claim_page_zero zoned).zones_size 0 (claim_page_zero zoned)

  laid_out-owned :
      (z : ℕ)
      → owned placed.pages_size z (laid_out bios m) ≡ owned placed.pages_size z zoned + page_zero z
  unfolding owned
  laid_out-owned z =
      ap
        (λ (pages : ℕ → Page).
          total placed.pages_size (λ i. if in_zone z (pages i).zone_struct then 1 else 0))
        same_pages
      ∙ claim-owned placed.pages_size z zoned map.some_page bare_zero

  laid_out-IsAccounted :
      (z : ℕ)
      → z < (laid_out bios m).zones_size
      → IsAccounted placed.pages_size (page_zero z) z (laid_out bios m)
  laid_out-IsAccounted z lt =
      let size = placed.pages_size in
      let clear = laid_out-IsClear bios m in
      let made : z < zoned.zones_size = omega (arith, lt, same_zones.1) in
      let zone = ap (λ (zones : ℕ → Zone). zones z) same_zones.0 in
      let free : ((laid_out bios m).zones z).page_free_cnt ≡ owned size z zoned =
        ap (λ (z : Zone). z.page_free_cnt) zone ∙ zoned-IsZoned.free z made in
      record {
        free = omega (
          arith,
          free,
          unused-owned size z (laid_out bios m) map.word clear,
          laid_out-owned z,
          owned-le size z (laid_out bios m),
          map.word,
        );
        using =
            ap (λ (z : Zone). z.page_using_cnt) zone
            ∙ zoned-IsZoned.using z made
            ∙ sym (used-none size z (laid_out bios m) map.word clear);
        links =
            ap (λ (z : Zone). z.total_page_lnk) zone
            ∙ zoned-IsZoned.links z made
            ∙ sym (links-none size z (laid_out bios m) map.word clear);
      }

  laid_out-IsSound :
      IsSound placed.pages_size (laid_out bios m).zones_size page_zero 0 (laid_out bios m)
  laid_out-IsSound = record {
    counted = λ i h.
        let c = laid_out-IsClear bios m i h in
        record {
          unused = λ e. c.unreferenced;
          in_use = λ used. absurd (used c.unused);
          exclusive = λ used e. absurd (used c.unused);
          fits = omega (arith, c.unreferenced);
        };
    references = λ i h. omega (arith, (laid_out-IsClear bios m i h).unreferenced);
    accounted = laid_out-IsAccounted;
    links = λ z lt. omega (
      arith,
      ap (λ (zones : ℕ → Zone). (zones z).total_page_lnk) same_zones.0,
      zoned-IsZoned.links z (omega (arith, lt, same_zones.1)),
    );
  }

drop_low_mappings-IsSound :
    (size zones most cr3 : ℕ) (t : Memory)
    → IsSound size zones page_zero most t
    → IsSound size zones page_zero most (drop_low_mappings cr3 t)
unfolding drop_low_mappings
drop_low_mappings-IsSound size zones most cr3 t s = record {
  counted = s.counted;
  references = s.references;
  accounted = λ z lt.
      let a = s.accounted z lt in record { free = a.free; using = a.using; links = a.links };
  links = s.links;
}

-- If the usable regions of the memory map cover no page twice, none beyond the array and not page 0,
-- and the kernel and the structures behind it end within the array, then `init_memory` leaves every
-- page of the array unused with no reference, used once, or shared with at least one reference, and
-- every zone's counters of used pages and of references are the numbers of its pages in use and of
-- their references; its counter of free pages is the number of its unused pages, and one less in
-- zone 0.
pub init_memory-IsSound :
    (bios : ℕ → E820) (cr3 : ℕ) (m m' : Memory)
    → let size = (place_arrays (copy_map 32 0 bios m)).pages_size in
      init_memory bios cr3 m ≡ some m'
      → IsPartition bios m
      → last_page bios m < size
      → IsSound size (laid_out bios m).zones_size page_zero (last_page bios m + 1) m'
unfolding drop_low_mappings
init_memory-IsSound bios cr3 m m' run map fits =
    let size = (place_arrays (copy_map 32 0 bios m)).pages_size in
    let zones = (laid_out bios m).zones_size in
    let (t, h, n, same) = init_memory-History bios cr3 size m m' run fits in
    let word = map.word in
    let sound =
      History-IsSound size zones 0 page_zero (laid_out bios m) t h word
        (omega (arith, n, fits, word)) (laid_out-IsSound bios m map) in
    subst (IsSound size zones page_zero (last_page bios m + 1)) (sym same) (
      drop_low_mappings-IsSound size zones (last_page bios m + 1) cr3 t
        (subst (λ b. IsSound size zones page_zero b t) (omega (arith, n)) sound))
