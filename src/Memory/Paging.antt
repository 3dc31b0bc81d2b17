-- ===== src/Memory/Paging.antt =====
-- The page tables of cOS/kernel/include/memory.h: the attributes of an entry, the macros that make
-- and store one, and those that convert and align addresses. A table is eight bytes for each entry
-- in the words by address.
pub mod Walk
mod Examples
use oslib.Prelude.{ℕ, ◌+◌, ◌-◌, ◌*◌, ◌^◌, bit_and, bit_or}
use oslib.Prelude.Words.{add64, sub64, not64}
use oslib.Memory.Types.{update, page_offset}

abbrev pub page_xd : ℕ
page_xd = 0x1000000000000000

abbrev pub page_pat : ℕ
page_pat = 0x1000

abbrev pub page_global : ℕ
page_global = 0x0100

abbrev pub page_ps : ℕ
page_ps = 0x0080

abbrev pub page_dirty : ℕ
page_dirty = 0x0040

abbrev pub page_accessed : ℕ
page_accessed = 0x0020

abbrev pub page_pcd : ℕ
page_pcd = 0x0010

abbrev pub page_pwt : ℕ
page_pwt = 0x0008

abbrev pub page_u_s : ℕ
page_u_s = 0x0004

abbrev pub page_r_w : ℕ
page_r_w = 0x0002

abbrev pub page_present : ℕ
page_present = 0x0001

abbrev pub page_kernel_gdt : ℕ
page_kernel_gdt = bit_or page_r_w page_present

abbrev pub page_kernel_dir : ℕ
page_kernel_dir = bit_or page_r_w page_present

abbrev pub page_kernel_page : ℕ
page_kernel_page = bit_or (bit_or page_ps page_r_w) page_present

abbrev pub page_user_dir : ℕ
page_user_dir = bit_or (bit_or page_u_s page_r_w) page_present

abbrev pub page_user_page : ℕ
page_user_page = bit_or (bit_or (bit_or page_ps page_u_s) page_r_w) page_present

abbrev pub ptrs_per_page : ℕ
ptrs_per_page = 512

abbrev pub page_gdt_shift : ℕ
page_gdt_shift = 39

abbrev pub page_1g_shift : ℕ
page_1g_shift = 30

abbrev pub page_1g_size : ℕ
page_1g_size = 2 ^ page_1g_shift

abbrev pub page_1g_mask : ℕ
page_1g_mask = not64 (page_1g_size - 1)

abbrev pub page_1g_align : ℕ → ℕ
page_1g_align addr = bit_and (sub64 (add64 addr page_1g_size) 1) page_1g_mask

-- An entry of each of the four tables, and its store through a pointer.
abbrev pub mk_mpl4t : (addr attr : ℕ) → ℕ
mk_mpl4t addr attr = bit_or addr attr

abbrev pub set_mpl4t : (mpl4tptr mpl4tval : ℕ) → (ℕ → ℕ) → ℕ → ℕ
set_mpl4t mpl4tptr mpl4tval words = update words mpl4tptr mpl4tval

abbrev pub mk_pdpt : (addr attr : ℕ) → ℕ
mk_pdpt addr attr = bit_or addr attr

abbrev pub set_pdpt : (pdptptr pdptval : ℕ) → (ℕ → ℕ) → ℕ → ℕ
set_pdpt pdptptr pdptval words = update words pdptptr pdptval

abbrev pub mk_pdt : (addr attr : ℕ) → ℕ
mk_pdt addr attr = bit_or addr attr

abbrev pub set_pdt : (pdtptr pdtval : ℕ) → (ℕ → ℕ) → ℕ → ℕ
set_pdt pdtptr pdtval words = update words pdtptr pdtval

abbrev pub mk_pt : (addr attr : ℕ) → ℕ
mk_pt addr attr = bit_or addr attr

abbrev pub set_pt : (ptptr ptval : ℕ) → (ℕ → ℕ) → ℕ → ℕ
set_pt ptptr ptval words = update words ptptr ptval
