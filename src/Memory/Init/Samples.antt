-- ===== src/Memory/Init/Samples.antt =====
-- Memory maps, and a memory before `init_memory` reads them.
use oslib.Prelude.{ℕ, zero, suc, ◌≡◌, refl, arith}
use oslib.Memory.Types.{E820, Memory}
use oslib.Memory.Samples.{free_memory}
use oslib.Memory.Init.{
  copy_map, place_arrays, add_zones, add_zone, add_pages, new_zone, region_start, region_end,
  is_usable, claim_page_zero, find_unmapped, close_struct,
}
use oslib.Memory.Init.Total.{last_page}
use oslib.Memory.Init.Sound.{IsPartition}
use oslib.Memory.Init.Marks.{covers, within, cover_count}

-- A region of the memory from page 1 to page 62, in which the zone ends in the first word of the
-- bitmap.
abbrev pub narrow_map : ℕ → E820
narrow_map zero = record { addr = 0x100000; len = 0x7d00000; type = 1 }
narrow_map (suc n) = record { addr = 0; len = 0; type = 0 }

-- 640 kB, the hole, and the rest of 128 MB.
abbrev pub two_regions : ℕ → E820
two_regions zero = record { addr = 0; len = 0x9fc00; type = 1 }
two_regions (suc zero) = record { addr = 0x100000; len = 0x7f00000; type = 1 }
two_regions (suc (suc n)) = record { addr = 0; len = 0; type = 0 }

abbrev pub unknown_memory : Memory
unknown_memory = record free_memory {
  e820 = λ i. record { addr = 0; len = 0; type = 0 };
  end_brk = 0xffff800000500000;
  zones_size = 0;
}

pub size_lem : (place_arrays (copy_map 32 0 narrow_map unknown_memory)).pages_size ≡ 63
unfolding copy_map place_arrays
size_lem = refl

pub last_lem : last_page narrow_map unknown_memory ≡ 2
unfolding copy_map place_arrays add_zones add_zone add_pages new_zone region_start region_end
    is_usable claim_page_zero find_unmapped close_struct
last_lem = refl

-- What is known of the kernel before `init_memory`.
abbrev pub known_memory : (start_code end_code end_data end_brk : ℕ) → Memory
known_memory start_code end_code end_data end_brk = record unknown_memory {
  start_code = start_code;
  end_code = end_code;
  end_data = end_data;
  end_brk = end_brk;
}

module _ (start_code end_code end_data : ℕ) where
  pub two_regions-IsPartition :
      (end_brk : ℕ) → IsPartition two_regions (known_memory start_code end_code end_data end_brk)
  unfolding copy_map place_arrays is_usable region_start region_end covers within cover_count
  two_regions-IsPartition end_brk = record {
    word = omega arith;
    short = omega arith;
    single = λ i. ground arith;
    bare = refl;
    some_page = omega arith;
  }

  pub two_regions-size :
      (end_brk : ℕ)
      → (place_arrays (
          copy_map 32 0 two_regions (known_memory start_code end_code end_data end_brk))).pages_size
        ≡ 64
  unfolding copy_map place_arrays
  two_regions-size end_brk = refl

  -- The kernel ends in the first page, or in the third.
  pub two_regions-last :
      (last_page two_regions (known_memory start_code end_code end_data 0xffff800000112000) ≡ 0)
      × (last_page two_regions (known_memory start_code end_code end_data 0xffff800000500000) ≡ 2)
  unfolding copy_map place_arrays add_zones add_zone add_pages new_zone region_start region_end
      is_usable claim_page_zero find_unmapped close_struct
  two_regions-last = (refl, refl)

  pub narrow_map-size :
      (end_brk : ℕ)
      → (place_arrays
          (copy_map 32 0 narrow_map (known_memory start_code end_code end_data end_brk))).pages_size
        ≡ 63
  unfolding copy_map place_arrays
  narrow_map-size end_brk = refl

  pub narrow_map-last :
      last_page narrow_map (known_memory start_code end_code end_data 0xffff800000112000) ≡ 0
  unfolding copy_map place_arrays add_zones add_zone add_pages new_zone region_start region_end
      is_usable claim_page_zero find_unmapped close_struct
  narrow_map-last = refl
