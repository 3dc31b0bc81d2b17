-- ===== src/Memory/Init/Added.antt =====
-- What adding the zone of one usable region changes.
use oslib.Prelude.{
  ℕ, zero, suc, ◌+◌, ◌-◌, ◌*◌, ◌≤◌, ◌<◌, ◌≡◌, refl, sym, ap, ◌∙◌, arith, some, true, if◌then◌else◌,
  ◌==◌, leb,
}
use oslib.Prelude.Words.{add64, ◌>>>◌}
use oslib.Prelude.Sums.{total, total_congr}
use oslib.Memory.Types.{E820, Memory, update, page_2m_shift, page_2m_size, toggle_mark}
use oslib.Memory.Init.{add_pages, new_zone, add_zone, is_usable, region_pages}
use oslib.Memory.Init.Marks.{
  within, covers, region_start_lem, region_end_lem, is_usable-lt, add_zone_as_pages,
  covers-eq-within, pages_of,
}

total-within : (n s t : ℕ) → s ≤ t → total n (within s t) ≡ (if leb t n then t else n) - s
unfolding total within
total-within zero s t h = ground arith
total-within (suc n) s t h = ground (arith, total-within n s t h)

add_pages-zone_struct :
    (left j z start group i : ℕ) (m : Memory)
    → ((add_pages left j z start group m).pages i).zone_struct
      ≡ (if within (group + j) (group + j + left) i == 1 then some z else (m.pages i).zone_struct)
unfolding add_pages within
add_pages-zone_struct zero j z start group i m = ground arith
add_pages-zone_struct (suc left) j z start group i m =
    let addr = add64 start (page_2m_size * j) in
    let m' = record m {
      pages =
          update m.pages (group + j)
            (record { zone_struct = some z; phy_addr = addr; attribute = 0; ref_cnt = 0; age = 0 });
      bits = toggle_mark m.bits (addr >>> page_2m_shift);
    } in
    ground (arith, add_pages-zone_struct left (j + 1) z start group i m')

add_pages_zones :
    (left j z start group : ℕ) (m : Memory)
    → ((add_pages left j z start group m).zones ≡ m.zones)
      × ((add_pages left j z start group m).zones_size ≡ m.zones_size)
unfolding add_pages
add_pages_zones zero j z start group m = (refl, refl)
add_pages_zones (suc left) j z start group m = add_pages_zones left (j + 1) z start group _

module _ (e : E820) (m : Memory) (usable : is_usable e ≡ true) where
  pub add_zone-zone_struct :
      (i : ℕ)
      → ((add_zone e m).pages i).zone_struct
        ≡ (if covers e i == 1 then some m.zones_size else (m.pages i).zone_struct)
  unfolding new_zone
  add_zone-zone_struct i =
      let (s, s_at, s_lt) = region_start_lem e in
      let (t, t_at, t_lt) = region_end_lem e in
      ap (λ (r : Memory). (r.pages i).zone_struct) (add_zone_as_pages e i s t s_at t_at m)
      ∙ add_pages-zone_struct (t - s) 0 m.zones_size (page_2m_size * s) s i (new_zone e m)
      ∙ ap (λ w. if w == 1 then some m.zones_size else (m.pages i).zone_struct)
          (ap (λ a. within a (a + (t - s)) i) (omega arith)
            ∙ ap (λ b. within s b i) (omega (arith, is_usable-lt e usable, s_at, t_at))
            ∙ sym (covers-eq-within e i s t s_at t_at usable))

  -- The zone counts the pages that the region covers, if they are in the array.
  pub total-covers :
      (size : ℕ) → ((i : ℕ) → size ≤ i → covers e i ≡ 0) → total size (covers e) ≡ region_pages e
  total-covers size inside =
      let (s, s_at, s_lt) = region_start_lem e in
      let (t, t_at, t_lt) = region_end_lem e in
      let lt : s < t = omega (arith, is_usable-lt e usable, s_at, t_at) in
      let last : size ≤ t - 1 → within s t (t - 1) ≡ 0 =
        λ h. sym (covers-eq-within e (t - 1) s t s_at t_at usable) ∙ inside (t - 1) h in
      let one : within s t (t - 1) ≡ 1 = unfold within in ground (arith, lt) in
      total_congr size (covers e) (within s t) (λ i h. covers-eq-within e i s t s_at t_at usable)
      ∙ total-within size s t (omega (arith, lt))
      ∙ ground (arith, last, one, lt, pages_of e 0 s t s_at t_at)

  pub add_zone_zones :
      ((add_zone e m).zones ≡ (new_zone e m).zones)
      × ((add_zone e m).zones_size ≡ add64 m.zones_size 1)
  unfolding new_zone
  add_zone_zones =
      let (s, s_at, s_lt) = region_start_lem e in
      let (t, t_at, t_lt) = region_end_lem e in
      let same = add_zone_as_pages e 0 s t s_at t_at m in
      let (zones, size) =
        add_pages_zones (t - s) 0 m.zones_size (page_2m_size * s) s (new_zone e m) in
      (ap (λ (r : Memory). r.zones) same ∙ zones, ap (λ (r : Memory). r.zones_size) same ∙ size)
