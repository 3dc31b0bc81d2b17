-- ===== src/Memory/Samples.antt =====
-- Small memories for the examples.
use oslib.Prelude.{ℕ, zero, suc, ◌+◌, ◌*◌, none, some, refl, arith, ltb, ◌==◌, if◌then◌else◌}
use oslib.Prelude.Sums.{total}
use oslib.Memory.Types.{E820, Memory, Page, page_2m_size}
use oslib.Memory.Page.Accounts.{IsAccounted, in_zone, unused_in, used_in, links_in}
use oslib.Memory.Page.History.{IsSound}

-- Page `n` of zone 0.
abbrev pub page : (attribute ref_cnt n : ℕ) → Page
page attribute ref_cnt n = record {
  zone_struct = some 0;
  phy_addr = n * page_2m_size;
  attribute = attribute;
  ref_cnt = ref_cnt;
  age = 0;
}

abbrev pub region : E820
region = record { addr = 0x100000; len = 0x7f00000; type = 1 }

-- One zone of two pages from page `first` on.
abbrev pub memory : (first : ℕ) (pages : ℕ → Page) (using free links : ℕ) → Memory
memory first pages using free links = record {
  e820 = λ i. region;
  e820_len = 0;
  bits_map = 0;
  bits = λ i. 0;
  bits_size = 0;
  bits_len = 0;
  pages_struct = 0;
  pages = pages;
  pages_size = 2;
  pages_len = 0;
  zones_struct = 0;
  zones = λ z. record {
    page_group = 0;
    page_len = 2;
    zone_start_addr = first * page_2m_size;
    zone_end_addr = (first + 2) * page_2m_size;
    zone_len = 2 * page_2m_size;
    attribute = 0;
    page_using_cnt = using;
    page_free_cnt = free;
    total_page_lnk = links;
  };
  zones_size = 1;
  zones_len = 0;
  start_code = 0;
  end_code = 0;
  end_data = 0;
  end_brk = 0;
  end_of_struct = 0;
  g_zone_dma = 0;
  g_zone_normal = 0;
  g_zone_unmapped = 0;
  g_cr3 = 0;
  pml4 = λ i. 0;
}

-- Every page is free.
abbrev pub free_memory : Memory
free_memory = memory 65 (page 0 0) 0 2 0

-- The pages from 65 on are those of zone 0, and there is no other zone.
abbrev pub sound_memory : Memory
sound_memory = record free_memory {
  pages = λ i. record (page 0 0 i) { zone_struct = if ltb i 65 then none else some 0 };
  zones = λ z. record (free_memory.zones 0) { page_free_cnt = if z == 0 then 2 else 0 };
}

accounted : (z : ℕ) → IsAccounted 67 0 z sound_memory
unfolding total in_zone unused_in used_in links_in
accounted zero = record { free = refl; using = refl; links = refl }
accounted (suc z) = record { free = ground arith; using = ground arith; links = ground arith }

pub sound_memory-IsSound : IsSound 67 1 (λ z. 0) 0 sound_memory
sound_memory-IsSound = record {
  counted = λ i lt. record {
    unused = λ h. refl;
    in_use = λ h. omega (arith, h);
    exclusive = λ h e. omega (arith, h);
    fits = omega arith;
  };
  references = λ i lt. omega arith;
  accounted = λ z lz. accounted z;
  links = λ z lz. omega arith;
}
