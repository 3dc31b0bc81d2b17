-- ===== src/Memory/Init/Marks.antt =====
-- The marks that `init_memory` leaves in the bitmap: each usable region flips the bits of its pages.
use oslib.Prelude.{
  ℕ, zero, suc, ◌+◌, ◌-◌, ◌*◌, ◌/◌, ◌%◌, ◌^◌, ◌≤◌, ◌<◌, ◌≡◌, refl, sym, ap, ◌∙◌, arith, true, false,
  ◌&&◌, Bool-cases, inl, inr, ◌==◌, ltb, leb, if◌then◌else◌, some,
}
use oslib.Prelude.Words.{add64, sub64, ◌>>>◌}
use oslib.Prelude.Bits.{bit-bit_xor, bit-pow, bit-le-one, bit-low_mask}
use oslib.Prelude.Bits.Align.{bit_and-align}
use oslib.Memory.Types.{E820, Memory, update, page_bit, toggle_mark, page_2m_shift, page_2m_size}
use oslib.Memory.Init.{
  add_pages, region_start, region_end, region_pages, is_usable, new_zone, add_zone, add_zones,
  place_arrays,
}

page_bit-toggle_mark :
    (bits : ℕ → ℕ) (a n : ℕ)
    → page_bit (toggle_mark bits a) n ≡ (page_bit bits n + (if n == a then 1 else 0)) % 2
page_bit-toggle_mark bits a n = ground (
  arith,
  bit-bit_xor (n % 64) (bits (a >>> 6)) (2 ^ (a % 64)),
  bit-pow (n % 64) (a % 64),
  bit-le-one (n % 64) (bits (n >>> 6)),
)

-- 1 if `lo ≤ n < hi`, else 0.
unfoldable pub within : (lo hi n : ℕ) → ℕ
within lo hi n = if leb lo n && ltb n hi then 1 else 0

add_pages_marks :
    (left j z s group n : ℕ) (m : Memory)
    → s + j + left < 2 ^ 43
    → page_bit (add_pages left j z (page_2m_size * s) group m).bits n
      ≡ (page_bit m.bits n + within (s + j) (s + j + left) n) % 2
unfolding add_pages within
add_pages_marks zero j z s group n m h = ground (arith, bit-le-one (n % 64) (m.bits (n >>> 6)))
add_pages_marks (suc left) j z s group n m h =
    let addr = add64 (page_2m_size * s) (page_2m_size * j) in
    let number : addr >>> page_2m_shift ≡ s + j = omega arith in
    let m' = record m {
      pages =
          update m.pages (group + j)
            (record { zone_struct = some z; phy_addr = addr; attribute = 0; ref_cnt = 0; age = 0 });
      bits = toggle_mark m.bits (addr >>> page_2m_shift);
    } in
    ground (
      arith,
      add_pages_marks left (j + 1) z s group n m' (omega arith),
      page_bit-toggle_mark m.bits (addr >>> page_2m_shift) n,
    )

-- Whether the region covers page `n`, as 0 or 1.
unfoldable pub covers : E820 → ℕ → ℕ
unfolding within
covers e n =
    if is_usable e
    then within (region_start e >>> page_2m_shift) (region_end e >>> page_2m_shift) n
    else 0

pub region_start_lem : (e : E820) → (s : ℕ) × (region_start e ≡ page_2m_size * s) × (s < 2 ^ 43)
unfolding region_start
region_start_lem e =
    let x = sub64 (add64 e.addr page_2m_size) 1 in
    (x / 2 ^ 21, omega (arith, bit_and-align 64 21 x (omega arith) (omega arith)), omega arith)

pub region_end_lem : (e : E820) → (t : ℕ) × (region_end e ≡ page_2m_size * t) × (t < 2 ^ 43)
unfolding region_end
region_end_lem e = (add64 e.addr e.len / 2 ^ 21, omega arith, omega arith)

pub is_usable-lt : (e : E820) → is_usable e ≡ true → region_start e < region_end e
unfolding is_usable
is_usable-lt e h = ground arith

module _ (e : E820) (n s t : ℕ) (s_at : region_start e ≡ page_2m_size * s)
    (t_at : region_end e ≡ page_2m_size * t) where
  first_page_of : region_start e >>> page_2m_shift ≡ s
  first_page_of = omega arith

  last_page_of : region_end e >>> page_2m_shift ≡ t
  last_page_of = omega arith

  pub pages_of : region_pages e ≡ t - s
  pages_of = omega arith

  pub covers-eq-within : is_usable e ≡ true → covers e n ≡ within s t n
  unfolding covers
  covers-eq-within usable = rw (usable, first_page_of, last_page_of)

  pub add_zone_as_pages :
      (m : Memory)
      → add_zone e m ≡ add_pages (t - s) 0 m.zones_size (page_2m_size * s) s (new_zone e m)
  unfolding add_zone
  add_zone_as_pages m =
      λ i. add_pages (pages_of i) 0 m.zones_size (s_at i) (first_page_of i) (new_zone e m)

  add_zone_marks_at :
      (m : Memory)
      → s < t
      → t < 2 ^ 43
      → is_usable e ≡ true
      → page_bit (add_zone e m).bits n ≡ (page_bit m.bits n + covers e n) % 2
  unfolding new_zone
  add_zone_marks_at m lt small usable =
      let lo : s + 0 ≡ s = omega arith in
      let hi : s + 0 + (t - s) ≡ t = omega arith in
      ap (λ r. page_bit r.bits n) (add_zone_as_pages m)
      ∙ add_pages_marks (t - s) 0 m.zones_size s s n (new_zone e m) (omega arith)
      ∙ ap (λ w. (page_bit m.bits n + w) % 2)
          (ap (λ t. within (s + 0) t n) hi
            ∙ ap (λ s. within s t n) lo
            ∙ sym (covers-eq-within usable))

add_zone_marks :
    (e : E820) (m : Memory) (n : ℕ)
    → is_usable e ≡ true
    → page_bit (add_zone e m).bits n ≡ (page_bit m.bits n + covers e n) % 2
add_zone_marks e m n usable =
    let (s, s_at, s_lt) = region_start_lem e in
    let (t, t_at, t_lt) = region_end_lem e in
    add_zone_marks_at e n s t s_at t_at m (omega (arith, is_usable-lt e usable)) t_lt usable

add_pages_map :
    (left j z start group : ℕ) (m : Memory) → (add_pages left j z start group m).e820 ≡ m.e820
unfolding add_pages
add_pages_map zero j z start group m = refl
add_pages_map (suc left) j z start group m = add_pages_map left (j + 1) z start group _

pub add_zone_map : (e : E820) (m : Memory) → (add_zone e m).e820 ≡ m.e820
unfolding add_zone new_zone
add_zone_map e m =
    add_pages_map (region_pages e) 0 m.zones_size (region_start e)
      (region_start e >>> page_2m_shift) (new_zone e m)

pub covers-skipped : (e : E820) (n : ℕ) → is_usable e ≡ false → covers e n ≡ 0
unfolding covers
covers-skipped e n skipped = rw skipped

-- The pages that a usable region covers are those that its zone gets.
pub covers-pages :
    (e : E820) (n : ℕ)
    → 0 < covers e n
    → (region_start e >>> page_2m_shift ≤ n)
      × (n < (region_start e >>> page_2m_shift) + region_pages e)
covers-pages e n h =
    let (s, s_at, s_lt) = region_start_lem e in
    let (t, t_at, t_lt) = region_end_lem e in
    elim (Bool-cases (is_usable e)) [
      | inl usable ↦
          let at : 0 < within s t n = omega (arith, h, covers-eq-within e n s t s_at t_at usable) in
          unfold within in
          ground (arith, at, first_page_of e n s t s_at t_at, pages_of e n s t s_at t_at)
      | inr skipped ↦ absurd (omega (arith, h, covers-skipped e n skipped))
    ]

-- How many of the usable regions from `i` on cover page `n`.
unfoldable pub cover_count : ℕ → ℕ → (ℕ → E820) → ℕ → ℕ
cover_count zero i map n = 0
cover_count (suc left) i map n = covers (map i) n + cover_count left (i + 1) map n

-- Adding zones for the regions from `i` on flips the bit of a page once for each usable region
-- that covers it.
add_zones_marks :
    (left i n : ℕ) (m : Memory)
    → page_bit (add_zones left i m).bits n ≡ (page_bit m.bits n + cover_count left i m.e820 n) % 2
unfolding add_zones cover_count
add_zones_marks zero i n m = ground (arith, bit-le-one (n % 64) (m.bits (n >>> 6)))
add_zones_marks (suc left) i n m = elim (Bool-cases (is_usable (m.e820 i))) [
  | inl usable ↦
      let m' = add_zone (m.e820 i) m in
      ap (λ b. page_bit (add_zones left (i + 1) (if b then m' else m)).bits n) usable
      ∙ ground (
        arith,
        add_zones_marks left (i + 1) n m',
        add_zone_marks (m.e820 i) m n usable,
        ap (λ map. cover_count left (i + 1) map n) (add_zone_map (m.e820 i) m),
      )
  | inr skipped ↦
      let m' = add_zone (m.e820 i) m in
      ap (λ b. page_bit (add_zones left (i + 1) (if b then m' else m)).bits n) skipped
      ∙ ground (arith, covers-skipped (m.e820 i) n skipped, add_zones_marks left (i + 1) n m)
]

-- After the zones are added, a page of the bitmap is marked free exactly when an odd number of
-- usable regions cover it: its bit is one more than their number, modulo 2.
pub zones_marks :
    (m : Memory) (n : ℕ)
    → n < 64 * ((place_arrays m).bits_len / 8)
    → page_bit (add_zones (place_arrays m).e820_len 0 (place_arrays m)).bits n
      ≡ (1 + cover_count m.e820_len 0 m.e820 n) % 2
unfolding place_arrays
zones_marks m n h =
    let in_map : n >>> 6 < (place_arrays m).bits_len / 8 = omega arith in
    add_zones_marks m.e820_len 0 n (place_arrays m)
    ∙ ap (λ b. (b + cover_count m.e820_len 0 m.e820 n) % 2)
        (ground (arith, in_map, bit-low_mask (n % 64) 64))
