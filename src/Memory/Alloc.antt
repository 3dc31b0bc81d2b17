-- ===== src/Memory/Alloc.antt =====
-- `alloc_pages` of cOS/kernel/src/memory.c. The searches only read the bitmap, so they are
-- functions of their own that `alloc_pages` runs before it initialises the pages found; each
-- takes fuel. A shift count is taken modulo 64, as the x86 instruction does: the code shifts
-- `*(p + 1)` by 64 when `k` is 0.
pub mod Scan
pub mod Complete
pub mod Finds
pub mod Single
pub mod Late
pub mod Fuel
pub mod Result
pub mod Sound
pub mod Unused
pub mod Pages
pub mod Exhausted
mod Examples
use oslib.Prelude.{
  ℕ, zero, suc, ◌+◌, ◌-◌, ◌%◌, ◌^◌, Option, none, some, Bool, true, false, ◌==◌, ltb, leb,
  if◌then◌else◌, bit_and, bit_or,
}
use oslib.Prelude.Words.{add64, sub64, ◌>>>◌, ◌<<<◌}
use oslib.Memory.Types.{Memory, page_2m_shift, zone_dma, zone_normal, zone_unmapped}
use oslib.Memory.Page.{page_init}

-- `number == 64 ? (uint64)-1 : (1UL << number) - 1`
abbrev pub run_mask : ℕ → ℕ
run_mask number = if number == 64 then 2 ^ 64 - 1 else sub64 (1 <<< number) 1

-- `!((*p >> k | *(p + 1) << (64 - k)) & run_mask)` for the words `w` and `next`.
pub run_is_free : ℕ → ℕ → ℕ → ℕ → Bool
run_is_free w next k number = bit_and (bit_or (w >>> k) (next <<< (64 - k))) (run_mask number) == 0

-- The loop over `k`, with the rounds that are left.
pub find_shift : ℕ → ℕ → ℕ → ℕ → ℕ → Option ℕ
unfolding run_is_free
find_shift zero k w next number = none
find_shift (suc left) k w next number =
    let rest = find_shift left (k + 1) w next number in
    if run_is_free w next k number then some k else rest

-- The `j` and `k` at which the code leaves the loops.
pub data Found : Type 0 where
  hit : ℕ → ℕ → Found
  miss : Found
  no_fuel : Found

-- `j += j % 64 ? tmp : 64`
abbrev pub next_block : ℕ → ℕ → ℕ
next_block start j = j + (if j % 64 == 0 then 64 else 64 - start % 64)

-- The loop over the words of a zone's part of the bitmap.
pub scan_zone : ℕ → (start end j number : ℕ) → (ℕ → ℕ) → Found
unfolding find_shift
scan_zone zero start end j number bits = no_fuel
scan_zone (suc fuel) start end j number bits =
    if leb j end
    then (let shift = j % 64 in
        elim (find_shift (64 - shift - shift) shift (bits (j >>> 6)) (bits ((j >>> 6) + 1))
          number) [
            | some k ↦ hit j k
            | none ↦ scan_zone fuel start end (next_block start j) number bits
          ])
    else miss

abbrev pub start_page : Memory → ℕ → ℕ
start_page m z = (m.zones z).zone_start_addr >>> page_2m_shift

abbrev pub end_page : Memory → ℕ → ℕ
end_page m z = (m.zones z).zone_end_addr >>> page_2m_shift

-- The body of the loop over the zones, behind its test of `page_free_cnt`.
pub search_zone : ℕ → ℕ → Memory → Found
unfolding scan_zone
search_zone i number m =
    let start = start_page m i in
    let end = end_page m i in scan_zone (suc (end + 1 - start)) start end start number m.bits

-- The loop over the zones from `i` to `zone_end`.
pub scan_zones : ℕ → (i zone_end number : ℕ) → Memory → Found
scan_zones zero i zone_end number m = no_fuel
scan_zones (suc fuel) i zone_end number m =
    let rest = scan_zones fuel (add64 i 1) zone_end number m in
    if leb i zone_end
    then (if ltb (m.zones i).page_free_cnt number
        then rest
        else elim (search_zone i number m) [ hit j k ↦ hit j k | miss ↦ rest | no_fuel ↦ no_fuel ])
    else miss

-- The `switch`: the first and the last zone to search. An unknown selector is reported, and the
-- search goes on in zone 0.
unfoldable pub zone_range : ℕ → Memory → ℕ × ℕ
zone_range zone_select m =
    if zone_select == zone_dma
    then (0, m.g_zone_dma)
    else if zone_select == zone_normal
    then (m.g_zone_dma, m.g_zone_normal)
    else if zone_select == zone_unmapped
    then (m.g_zone_unmapped, sub64 m.zones_size 1)
    else (0, 0)

-- The loop that initialises the pages from `page` on.
pub init_pages : ℕ → (page flags : ℕ) → Memory → Option Memory
init_pages zero page flags m = some m
init_pages (suc left) page flags m = elim (page_init page flags m) [
  | none ↦ none
  | some m' ↦ init_pages left (add64 page 1) flags m'
]

-- `allocated` is the index of the first page; `fault` is a null `zone_struct`.
pub data Allocation : Type 0 where
  allocated : ℕ → Memory → Allocation
  null fault diverges : Allocation

-- `page = j + k - 1`
abbrev pub first_page : ℕ → ℕ → ℕ
first_page j k = sub64 (j + k) 1

-- What follows the search.
abbrev pub finish : (number flags : ℕ) → Memory → Found → Allocation
finish number flags m (hit j k) = elim (init_pages number (first_page j k) flags m) [
  | none ↦ fault
  | some m' ↦ allocated (first_page j k) m'
]
finish number flags m miss = null
finish number flags m no_fuel = diverges

unfoldable pub alloc_pages : (zone_select number flags : ℕ) → Memory → Allocation
unfolding search_zone scan_zones zone_range init_pages
alloc_pages zone_select number flags m =
    let (zone_start, zone_end) = zone_range zone_select m in
    finish number flags m
      (scan_zones (suc (zone_end + 1 - zone_start)) zone_start zone_end number m)
