-- ===== src/Memory/Types.antt =====
-- The data of cOS/kernel/include/memory.h: the structures that describe physical memory, and the
-- constants of pages. A pointer into one of the kernel's arrays is an index of that array.
use oslib.Prelude.{ℕ, ◌-◌, ◌%◌, ◌^◌, Option, ◌==◌, if◌then◌else◌, bit_and, bit_or, bit_xor}
use oslib.Prelude.Words.{not64, sub64, ◌>>>◌}
use oslib.Prelude.Bits.{bit}

abbrev pub ram : ℕ
ram = 1

abbrev pub acpi_nvs : ℕ
acpi_nvs = 4

abbrev pub page_offset : ℕ
page_offset = 0xffff800000000000

abbrev pub page_2m_shift : ℕ
page_2m_shift = 21

abbrev pub page_2m_size : ℕ
page_2m_size = 2 ^ page_2m_shift

abbrev pub page_4k_shift : ℕ
page_4k_shift = 12

abbrev pub page_4k_size : ℕ
page_4k_size = 2 ^ page_4k_shift

abbrev pub page_2m_mask : ℕ
page_2m_mask = not64 (page_2m_size - 1)

abbrev pub page_4k_mask : ℕ
page_4k_mask = not64 (page_4k_size - 1)

abbrev pub virt_to_phy : ℕ → ℕ
virt_to_phy addr = sub64 addr page_offset

-- Attributes of a page structure.
abbrev pub pg_ptable_maped : ℕ
pg_ptable_maped = 0x1

abbrev pub pg_kernel_init : ℕ
pg_kernel_init = 0x2

abbrev pub pg_referenced : ℕ
pg_referenced = 0x4

abbrev pub pg_active : ℕ
pg_active = 0x10

abbrev pub pg_kernel : ℕ
pg_kernel = 0x80

abbrev pub pg_k_share_to_u : ℕ
pg_k_share_to_u = 0x100

abbrev pub zone_dma : ℕ
zone_dma = 0x1

abbrev pub zone_normal : ℕ
zone_normal = 0x2

abbrev pub zone_unmapped : ℕ
zone_unmapped = 0x4

pub record E820 : Type 0 where
  pub addr : ℕ
  pub len : ℕ
  pub type : ℕ

-- `page_group` is an index of the page array. The pointer back to the one global descriptor is
-- left out.
pub record Zone : Type 0 where
  pub page_group : ℕ
  pub page_len : ℕ
  pub zone_start_addr : ℕ
  pub zone_end_addr : ℕ
  pub zone_len : ℕ
  pub attribute : ℕ
  pub page_using_cnt : ℕ
  pub page_free_cnt : ℕ
  pub total_page_lnk : ℕ

-- `zone_struct` is an index of the zone array, or `none` for a null pointer.
pub record Page : Type 0 where
  pub zone_struct : Option ℕ
  pub phy_addr : ℕ
  pub attribute : ℕ
  pub ref_cnt : ℕ
  pub age : ℕ

-- `memory_management_struct` with the arrays that it points to, and the globals of memory.c.
-- `bits`, `pages` and `zones` are the contents of the arrays at the addresses `bits_map`,
-- `pages_struct` and `zones_struct`, at each index from there on, and `pml4` the page table that
-- `g_cr3` points to.
pub record Memory : Type 0 where
  pub e820 : ℕ → E820
  pub e820_len : ℕ
  pub bits_map : ℕ
  pub bits : ℕ → ℕ
  pub bits_size : ℕ
  pub bits_len : ℕ
  pub pages_struct : ℕ
  pub pages : ℕ → Page
  pub pages_size : ℕ
  pub pages_len : ℕ
  pub zones_struct : ℕ
  pub zones : ℕ → Zone
  pub zones_size : ℕ
  pub zones_len : ℕ
  pub start_code : ℕ
  pub end_code : ℕ
  pub end_data : ℕ
  pub end_brk : ℕ
  pub end_of_struct : ℕ
  pub g_zone_dma : ℕ
  pub g_zone_normal : ℕ
  pub g_zone_unmapped : ℕ
  pub g_cr3 : ℕ
  pub pml4 : ℕ → ℕ

-- An array with one element changed.
abbrev pub update {ℓ} : {A : Type ℓ} → (ℕ → A) → ℕ → A → ℕ → A
update f i v j = if i == j then v else f j

-- The bit of page number `n`: `*(bits_map + (n >> 6))` at `1UL << n % 64`.
abbrev pub page_bit : (ℕ → ℕ) → ℕ → ℕ
page_bit bits n = bit (n % 64) (bits (n >>> 6))

abbrev pub mark_used : (ℕ → ℕ) → ℕ → ℕ → ℕ
mark_used bits n = update bits (n >>> 6) (bit_or (bits (n >>> 6)) (2 ^ (n % 64)))

abbrev pub mark_free : (ℕ → ℕ) → ℕ → ℕ → ℕ
mark_free bits n = update bits (n >>> 6) (bit_and (bits (n >>> 6)) (not64 (2 ^ (n % 64))))

abbrev pub toggle_mark : (ℕ → ℕ) → ℕ → ℕ → ℕ
toggle_mark bits n = update bits (n >>> 6) (bit_xor (bits (n >>> 6)) (2 ^ (n % 64)))
