-- ===== src/Memory/Init/Total.antt =====
-- `init_memory` ends, and the kernel's pages are in use then.
use mathlib.Core.Path.{subst}
use native.Mathlib.Decide.{ℕ_discrete}
use oslib.Prelude.{
  ℕ, zero, suc, ◌+◌, ◌*◌, ◌≤◌, ◌<◌, ◌≡◌, ◌≢◌, ◌⊎◌, refl, ap, ◌∙◌, arith, Bool-cases, inl, inr, none,
  some, Option-cases, sym, if◌then◌else◌, ◌>>=◌,
}
use oslib.Prelude.Words.{add64, sub64, ◌>>>◌}
use oslib.Memory.Types.{
  E820, Memory, Page, update, page_offset, page_2m_shift, page_2m_size, toggle_mark,
}
use oslib.Memory.Page.{page_init}
use oslib.Memory.Page.Effect.{page_init_used}
use oslib.Memory.Init.{
  copy_map, place_arrays, add_pages, new_zone, add_zone, add_zones, is_usable, region_start,
  region_pages, claim_page_zero, find_unmapped, close_struct, kernel_page_flags, take_pages,
  drop_low_mappings, init_memory,
}
use oslib.Memory.Init.Marks.{covers, covers-pages, covers-skipped, cover_count, add_zone_map}

abbrev HasZone : Page → Type 0
HasZone p = p.zone_struct ≢ none

add_pages-HasZone :
    (left j z start group n : ℕ) (m : Memory)
    → HasZone (m.pages n) ⊎ ((group + j ≤ n) × (n < group + j + left))
    → HasZone ((add_pages left j z start group m).pages n)
unfolding add_pages
add_pages-HasZone zero j z start group n m h = ground (arith, h)
add_pages-HasZone (suc left) j z start group n m h =
    let addr = add64 start (page_2m_size * j) in
    let m' = record m {
      pages =
          update m.pages (group + j)
            (record { zone_struct = some z; phy_addr = addr; attribute = 0; ref_cnt = 0; age = 0 });
      bits = toggle_mark m.bits (addr >>> page_2m_shift);
    } in
    add_pages-HasZone left (j + 1) z start group n m' (ground (arith, h))

-- A zone's pages keep theirs, and those of the region get one.
add_zone-HasZone :
    (e : E820) (n : ℕ) (m : Memory)
    → HasZone (m.pages n) ⊎ (0 < covers e n)
    → HasZone ((add_zone e m).pages n)
unfolding add_zone new_zone
add_zone-HasZone e n m h =
    add_pages-HasZone (region_pages e) 0 m.zones_size (region_start e)
      (region_start e >>> page_2m_shift) n (new_zone e m) (ground (arith, h, covers-pages e n))

add_zones-HasZone :
    (left i n : ℕ) (m : Memory)
    → HasZone (m.pages n) ⊎ (0 < cover_count left i m.e820 n)
    → HasZone ((add_zones left i m).pages n)
unfolding add_zones cover_count
add_zones-HasZone zero i n m h = ground (arith, h)
add_zones-HasZone (suc left) i n m h = elim (Bool-cases (is_usable (m.e820 i))) [
  | inl usable ↦
      let m' = add_zone (m.e820 i) m in
      let map = ap (λ map. cover_count left (i + 1) map n) (add_zone_map (m.e820 i) m) in
      subst (λ b. HasZone ((add_zones left (i + 1) (if b then m' else m)).pages n)) (sym usable)
        (add_zones-HasZone left (i + 1) n m'
          (ground (arith, h, map, add_zone-HasZone (m.e820 i) n m)))
  | inr skipped ↦
      let m' = add_zone (m.e820 i) m in
      subst (λ b. HasZone ((add_zones left (i + 1) (if b then m' else m)).pages n)) (sym skipped)
        (add_zones-HasZone left (i + 1) n m
          (ground (arith, h, covers-skipped (m.e820 i) n skipped)))
]

pub find_unmapped_pages : (left i : ℕ) (m : Memory) → (find_unmapped left i m).pages ≡ m.pages
unfolding find_unmapped
find_unmapped_pages zero i m = refl
find_unmapped_pages (suc left) i m = find_unmapped_pages left (i + 1) _ ∙ ground arith

page_init_total :
    (n flags : ℕ) (m : Memory)
    → HasZone (m.pages n)
    → (m' : Memory) × (page_init n flags m ≡ some m')
unfolding page_init
page_init_total n flags m h = elim (Option-cases (page_init n flags m)) [
  | inl fault ↦ absurd (ground (arith, fault, h))
  | inr done ↦ done
]

page_init_zone :
    (n flags i : ℕ) (m : Memory) {m' : Memory}
    → page_init n flags m ≡ some m'
    → (m'.pages i).zone_struct ≡ (m.pages i).zone_struct
unfolding page_init
page_init_zone n flags i m run = ground arith

last_or_before {ℓ} : {A : Type ℓ} (n j : ℕ) → n < j + 1 → (n < j → A) → (n ≡ j) ⊎ A
last_or_before n j h before = elim (ℕ_discrete n j) [
  | yes e ↦ inl e
  | no ne ↦ inr (before (omega (arith, h, ne)))
]

first_or_later {ℓ} :
    {A : Type ℓ} (n last : ℕ) → n < 0 + (last + 1) → (0 < n → n ≤ last → A) → (n ≡ 0) ⊎ A
first_or_later n last h later = elim (ℕ_discrete n 0) [
  | yes e ↦ inl e
  | no ne ↦ inr (later (omega (arith, ne)) (omega (arith, h)))
]

-- The pages from `j` on, if they have zones, are taken, and the pages before them stay in use.
take_pages-used :
    (left j : ℕ) (m : Memory)
    → ((n : ℕ) → j ≤ n → n < j + left → HasZone (m.pages n))
    → ((n : ℕ) → n < j → (m.pages n).attribute ≢ 0)
    → (m' : Memory) × (take_pages left j m ≡ some m')
      × ((n : ℕ) → n < j + left → (m'.pages n).attribute ≢ 0)
unfolding take_pages
take_pages-used zero j m zones used = (m, refl, λ n h. used n (omega (arith, h)))
take_pages-used (suc left) j m zones used =
    let (mid, first) =
      page_init_total j kernel_page_flags m (zones j (omega arith) (omega arith)) in
    let (m', rest, all) =
      take_pages-used left (j + 1) mid
        (λ n lo hi e.
          zones n (omega (arith, lo)) (omega (arith, hi))
            (sym (page_init_zone j kernel_page_flags n m first) ∙ e))
        (λ n h.
          page_init_used j kernel_page_flags m n first (omega arith)
            (last_or_before n j h (used n))) in
    (m', ground (arith, first, rest), λ n h. all n (omega (arith, h)))

-- The memory before the kernel's pages are taken.
abbrev pub laid_out : (ℕ → E820) → Memory → Memory
laid_out bios m =
    let placed = place_arrays (copy_map 32 0 bios m) in
    let zoned = claim_page_zero (add_zones placed.e820_len 0 placed) in
    close_struct (find_unmapped zoned.zones_size 0 zoned)

-- The last page that the kernel and the structures behind it reach into.
abbrev pub last_page : (ℕ → E820) → Memory → ℕ
last_page bios m = sub64 (laid_out bios m).end_of_struct page_offset >>> page_2m_shift

laid_out-HasZone :
    (bios : ℕ → E820) (m : Memory) (n : ℕ)
    → let placed = place_arrays (copy_map 32 0 bios m) in
      (n ≡ 0) ⊎ (0 < cover_count placed.e820_len 0 placed.e820 n)
      → HasZone ((laid_out bios m).pages n)
unfolding claim_page_zero close_struct
laid_out-HasZone bios m n h =
    let placed = place_arrays (copy_map 32 0 bios m) in
    let zoned = claim_page_zero (add_zones placed.e820_len 0 placed) in
    let same = ap (λ pages. pages n) (find_unmapped_pages zoned.zones_size 0 zoned) in
    ground (arith, h, same, add_zones-HasZone placed.e820_len 0 n placed)

-- If a usable region of the copied memory map covers every page after page 0 that the kernel and the
-- structures behind it reach into, `init_memory` ends, and all these pages and page 0 are in use.
pub init_memory_ends :
    (bios : ℕ → E820) (cr3 : ℕ) (m : Memory)
    → let placed = place_arrays (copy_map 32 0 bios m) in
      ((n : ℕ) → 0 < n → n ≤ last_page bios m → 0 < cover_count placed.e820_len 0 placed.e820 n)
      → (m' : Memory) × (init_memory bios cr3 m ≡ some m')
        × ((n : ℕ) → n ≤ last_page bios m → (m'.pages n).attribute ≢ 0)
unfolding init_memory drop_low_mappings
init_memory_ends bios cr3 m covered =
    let placed = place_arrays (copy_map 32 0 bios m) in
    let (taken, run, used) =
      take_pages-used (last_page bios m + 1) 0 (laid_out bios m)
        (λ n lo hi. laid_out-HasZone bios m n (first_or_later n (last_page bios m) hi (covered n)))
        (λ n h. absurd (omega arith)) in
    (
      drop_low_mappings cr3 taken,
      ap (λ t. t >>= (λ taken. some (drop_low_mappings cr3 taken))) run,
      λ n h. used n (omega (arith, h)),
    )
