-- ===== src/Memory/Init.antt =====
-- `init_memory` of cOS/kernel/src/memory.c without its debug output. `bios` is the memory map that
-- the boot loader left at 0xffff800000007e00, and `cr3` the register that `get_gdt` reads.
pub mod Map
pub mod Marks
pub mod Total
pub mod Placed
pub mod Added
pub mod Counters
pub mod Owned
pub mod Sound
pub mod Unmapped
pub mod Samples
mod Examples
use oslib.Prelude.{
  ℕ, zero, suc, ◌+◌, ◌-◌, ◌*◌, ◌/◌, ◌%◌, ◌^◌, Option, none, some, Bool, false, not, ◌||◌, ◌==◌, ltb,
  leb, if◌then◌else◌, ◌>>=◌, bit_and, bit_or,
}
use oslib.Prelude.Words.{add64, sub64, not64, ◌>>>◌, ◌<<<◌}
use oslib.Memory.Types.{
  E820, Zone, Page, Memory, update, toggle_mark, ram, acpi_nvs, page_offset, page_2m_shift,
  page_2m_size, page_4k_size, page_2m_mask, page_4k_mask, virt_to_phy, pg_ptable_maped,
  pg_kernel_init, pg_active, pg_kernel,
}
use oslib.Memory.Page.{page_init}

-- `p->type > ACPI_NVS || 0 == p->len || p->type < RAM`
abbrev pub ends_map : E820 → Bool
ends_map p = ltb acpi_nvs p.type || (p.len == 0) || ltb p.type ram

abbrev pub copy_entry : E820 → E820 → E820
copy_entry old p = record { addr = add64 old.addr p.addr; len = add64 old.len p.len; type = p.type }

-- The loop over the map, with the rounds that are left.
pub copy_map : ℕ → ℕ → (ℕ → E820) → Memory → Memory
copy_map zero i bios m = m
copy_map (suc left) i bios m =
    let m' = record m {
      e820 = update m.e820 i (copy_entry (m.e820 i) (bios i));
      e820_len = i + 1;
    } in
    let rest = copy_map left (i + 1) bios m' in if ends_map (bios (i + 1)) then m' else rest

-- `(addr + PAGE_4K_SIZE - 1) & PAGE_4K_MASK`
abbrev pub page_4k_align : ℕ → ℕ
page_4k_align addr = bit_and (sub64 (add64 addr page_4k_size) 1) page_4k_mask

abbrev pub page_2m_align : ℕ → ℕ
page_2m_align addr = bit_and (sub64 (add64 addr page_2m_size) 1) page_2m_mask

-- `bytes & ~(sizeof(uint64) - 1)`
abbrev pub word_align : ℕ → ℕ
word_align bytes = bit_and bytes (not64 7)

abbrev pub size_of_page : ℕ
size_of_page = 40

abbrev pub size_of_zone : ℕ
size_of_zone = 80

abbrev pub zeroed_page : Page
zeroed_page = record { zone_struct = none; phy_addr = 0; attribute = 0; ref_cnt = 0; age = 0 }

-- The places and sizes of the three arrays, the bitmap set to ones and the pages to zero.
pub place_arrays : Memory → Memory
place_arrays m =
    let last = m.e820 (sub64 m.e820_len 1) in
    let page_count = add64 last.addr last.len >>> page_2m_shift in
    let bits_map = page_4k_align m.end_brk in
    let bits_len = word_align (sub64 (add64 page_count 64) 1 / 8) in
    let pages_struct = page_4k_align (add64 bits_map bits_len) in
    let pages_len = word_align (sub64 (add64 (page_count * size_of_page) 8) 1) in
    record m {
      bits_map = bits_map;
      bits_size = page_count;
      bits_len = bits_len;
      bits = λ i. if ltb i (bits_len / 8) then 2 ^ 64 - 1 else m.bits i;
      pages_struct = pages_struct;
      pages_size = page_count;
      pages_len = pages_len;
      pages = λ i. if ltb i page_count then zeroed_page else m.pages i;
      zones_struct = page_4k_align (add64 pages_struct pages_len);
      zones_size = 0;
    }

-- The loop over the pages of a new zone, with the rounds that are left: `j` is the next page.
pub add_pages : ℕ → (j z start group : ℕ) → Memory → Memory
add_pages zero j z start group m = m
add_pages (suc left) j z start group m =
    let addr = add64 start (page_2m_size * j) in
    add_pages left (j + 1) z start group (record m {
      pages =
          update m.pages (group + j)
            (record { zone_struct = some z; phy_addr = addr; attribute = 0; ref_cnt = 0; age = 0 });
      bits = toggle_mark m.bits (addr >>> page_2m_shift);
    })

pub region_start : E820 → ℕ
region_start e = page_2m_align e.addr

pub region_end : E820 → ℕ
region_end e = (add64 e.addr e.len >>> page_2m_shift) <<< page_2m_shift

-- A memory region that becomes a zone.
pub is_usable : E820 → Bool
is_usable e = if not (ram == e.type) then false else not (leb (region_end e) (region_start e))

abbrev pub region_pages : E820 → ℕ
region_pages e = (region_end e - region_start e) >>> page_2m_shift

-- The zone of a region, put at the end of the zone array.
pub new_zone : E820 → Memory → Memory
new_zone e m = record m {
  zones_size = add64 m.zones_size 1;
  zones_len = add64 m.zones_len size_of_zone;
  zones = update m.zones m.zones_size (record {
    page_group = region_start e >>> page_2m_shift;
    page_len = region_pages e;
    zone_start_addr = region_start e;
    zone_end_addr = region_end e;
    zone_len = region_end e - region_start e;
    attribute = 0;
    page_using_cnt = 0;
    page_free_cnt = region_pages e;
    total_page_lnk = 0;
  });
}

-- The body of the loop over the regions, for one that becomes a zone.
pub add_zone : E820 → Memory → Memory
add_zone e m =
    add_pages (region_pages e) 0 m.zones_size (region_start e) (region_start e >>> page_2m_shift)
      (new_zone e m)

pub add_zones : ℕ → ℕ → Memory → Memory
add_zones zero i m = m
add_zones (suc left) i m =
    add_zones left (i + 1) (if is_usable (m.e820 i) then add_zone (m.e820 i) m else m)

-- Page 0 belongs to the first zone.
pub claim_page_zero : Memory → Memory
claim_page_zero m = record m {
  pages =
      update m.pages 0
        (record { zone_struct = some 0; phy_addr = 0; attribute = 0; ref_cnt = 0; age = 0 });
}

-- The zone that starts at 4 GB is the first that the page tables do not map.
pub find_unmapped : ℕ → ℕ → Memory → Memory
find_unmapped zero i m = m
find_unmapped (suc left) i m =
    find_unmapped left (i + 1)
      (if (m.zones i).zone_start_addr == 0x100000000 then record m { g_zone_unmapped = i } else m)

pub close_struct : Memory → Memory
close_struct m = record m {
  end_of_struct = bit_and (add64 (add64 m.zones_struct m.zones_len) (8 * 32)) (not64 7);
}

abbrev pub kernel_page_flags : ℕ
kernel_page_flags = bit_or (bit_or (bit_or pg_ptable_maped pg_kernel_init) pg_active) pg_kernel

-- The loop that takes the pages of the kernel, with the rounds that are left.
pub take_pages : ℕ → ℕ → Memory → Option Memory
take_pages zero j m = some m
take_pages (suc left) j m = elim (page_init j kernel_page_flags m) [
  | none ↦ none
  | some m' ↦ take_pages left (j + 1) m'
]

pub drop_low_mappings : ℕ → Memory → Memory
drop_low_mappings cr3 m = record m { g_cr3 = cr3; pml4 = λ i. if ltb i 10 then 0 else m.pml4 i }

unfoldable pub init_memory : (ℕ → E820) → ℕ → Memory → Option Memory
unfolding copy_map place_arrays add_zones add_pages new_zone region_start region_end add_zone
    is_usable claim_page_zero find_unmapped close_struct take_pages drop_low_mappings
init_memory bios cr3 m =
    let placed = place_arrays (copy_map 32 0 bios m) in
    let zoned = claim_page_zero (add_zones placed.e820_len 0 placed) in
    let closed = close_struct (find_unmapped zoned.zones_size 0 zoned) in
    let last = virt_to_phy closed.end_of_struct >>> page_2m_shift in
    (do taken ← take_pages (last + 1) 0 closed; some (drop_low_mappings cr3 taken))
