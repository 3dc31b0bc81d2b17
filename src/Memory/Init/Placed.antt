-- ===== src/Memory/Init/Placed.antt =====
-- The pages that `init_memory` leaves in use have their bits set.
use mathlib.Core.Path.{subst}
use oslib.Prelude.{
  ℕ, zero, suc, ◌+◌, ◌-◌, ◌*◌, ◌^◌, ◌≤◌, ◌<◌, ◌≡◌, ◌≢◌, sym, arith, Bool-cases, inl, inr, none,
  some, Option-cases, true, if◌then◌else◌, >>=-eq-some,
}
use oslib.Prelude.Words.{add64, ◌>>>◌}
use oslib.Memory.Types.{E820, Memory, Page, update, page_2m_shift, page_2m_size, toggle_mark}
use oslib.Memory.Page.{page_init}
use oslib.Memory.Page.History.{History, no_call, taken, calls}
use oslib.Memory.Page.Marked.{IsMarked, History-IsMarked}
use oslib.Memory.Init.{
  copy_map, place_arrays, add_pages, new_zone, add_zone, add_zones, is_usable, claim_page_zero,
  close_struct, kernel_page_flags, take_pages, drop_low_mappings, init_memory,
}
use oslib.Memory.Init.Marks.{region_start_lem, region_end_lem, is_usable-lt, add_zone_as_pages}
use oslib.Memory.Init.Total.{laid_out, last_page, find_unmapped_pages}

-- An unused page structure in its place.
pub record IsClear (p : Page) (i : ℕ) : Type 0 where
  pub unused : p.attribute ≡ 0
  pub unreferenced : p.ref_cnt ≡ 0
  pub placed : p.zone_struct ≢ none → p.phy_addr ≡ i * page_2m_size

add_pages-IsClear :
    (left j z s i : ℕ) (m : Memory)
    → s + j + left < 2 ^ 43
    → IsClear (m.pages i) i
    → IsClear ((add_pages left j z (page_2m_size * s) s m).pages i) i
unfolding add_pages
add_pages-IsClear zero j z s i m h c = c
add_pages-IsClear (suc left) j z s i m h c =
    let addr = add64 (page_2m_size * s) (page_2m_size * j) in
    let m' = record m {
      pages =
          update m.pages (s + j)
            (record { zone_struct = some z; phy_addr = addr; attribute = 0; ref_cnt = 0; age = 0 });
      bits = toggle_mark m.bits (addr >>> page_2m_shift);
    } in
    add_pages-IsClear left (j + 1) z s i m' (omega arith) (record {
      unused = ground (arith, c.unused);
      unreferenced = ground (arith, c.unreferenced);
      placed = ground (arith, c.placed);
    })

add_zone-IsClear :
    (e : E820) (i : ℕ) (m : Memory)
    → is_usable e ≡ true
    → IsClear (m.pages i) i
    → IsClear ((add_zone e m).pages i) i
unfolding new_zone
add_zone-IsClear e i m usable c =
    let (s, s_at, s_lt) = region_start_lem e in
    let (t, t_at, t_lt) = region_end_lem e in
    subst (λ (r : Memory). IsClear (r.pages i) i) (sym (add_zone_as_pages e i s t s_at t_at m))
      (add_pages-IsClear (t - s) 0 m.zones_size s i (new_zone e m)
        (omega (arith, is_usable-lt e usable, s_at, t_at, t_lt, s_lt)) c)

-- What adding the zone of a usable region keeps, the loop over the regions keeps.
pub add_zones-keep :
    (P : Memory → Type 0)
    → ((e : E820) (m : Memory) → is_usable e ≡ true → P m → P (add_zone e m))
    → (left r : ℕ) (m : Memory) → P m
    → P (add_zones left r m)
unfolding add_zones
add_zones-keep P keep zero r m c = c
add_zones-keep P keep (suc left) r m c =
    let m' = add_zone (m.e820 r) m in
    add_zones-keep P keep left (r + 1) (if is_usable (m.e820 r) then m' else m)
      (elim (Bool-cases (is_usable (m.e820 r))) [
        | inl usable ↦
            subst (λ b. P (if b then m' else m)) (sym usable) (keep (m.e820 r) m usable c)
        | inr skipped ↦ subst (λ b. P (if b then m' else m)) (sym skipped) c
      ])

pub laid_out-IsClear :
    (bios : ℕ → E820) (m : Memory) (i : ℕ)
    → i < (place_arrays (copy_map 32 0 bios m)).pages_size
    → IsClear ((laid_out bios m).pages i) i
unfolding claim_page_zero close_struct place_arrays
laid_out-IsClear bios m i h =
    let placed = place_arrays (copy_map 32 0 bios m) in
    let zones = add_zones placed.e820_len 0 placed in
    let zoned = claim_page_zero zones in
    let cleared : IsClear (placed.pages i) i = record {
      unused = ground (arith, h);
      unreferenced = ground (arith, h);
      placed = ground (arith, h);
    } in
    let added : IsClear (zones.pages i) i =
      add_zones-keep (λ (r : Memory). IsClear (r.pages i) i) (λ e r. add_zone-IsClear e i r)
        placed.e820_len 0 placed cleared in
    subst (λ pages. IsClear (pages i) i) (sym (find_unmapped_pages zoned.zones_size 0 zoned))
      (record {
        unused = ground (arith, added.unused);
        unreferenced = ground (arith, added.unreferenced);
        placed = ground (arith, added.placed);
      })

-- The kernel's pages are taken by calls of `page_init`.
take_pages-History :
    (left j size : ℕ) (m s t : Memory) (h : History size m s)
    → take_pages left j s ≡ some t
    → j + left ≤ size
    → (h' : History size m t) × (calls h' ≡ calls h + left)
unfolding take_pages calls
take_pages-History zero j size m s t h e fits =
    let same : s ≡ t = ground (arith, e) in
    subst (λ t. (h' : History size m t) × (calls h' ≡ calls h + 0)) same (h, omega arith)
take_pages-History (suc left) j size m s t h e fits =
    elim (Option-cases (page_init j kernel_page_flags s)) [
      | inl fault ↦ absurd (ground (arith, e, fault))
      | inr (mid, first) ↦
          let (h', n) =
            take_pages-History left (j + 1) size m mid t
              (taken j kernel_page_flags h (omega (arith, fits)) (omega arith) first)
              (ground (arith, e, first)) (omega (arith, fits)) in
          (h', omega (arith, n))
    ]

-- `init_memory` lays the arrays out, takes the pages up to the last one, and unmaps the low
-- addresses.
pub init_memory-History :
    (bios : ℕ → E820) (cr3 size : ℕ) (m m' : Memory)
    → init_memory bios cr3 m ≡ some m'
    → last_page bios m < size
    → (t : Memory) × (h : History size (laid_out bios m) t) × (calls h ≡ last_page bios m + 1)
      × (m' ≡ drop_low_mappings cr3 t)
unfolding init_memory calls
init_memory-History bios cr3 size m m' e fits =
    let (t, run, rest) =
      >>=-eq-some (take_pages (last_page bios m + 1) 0 (laid_out bios m))
        (λ taken. some (drop_low_mappings cr3 taken)) e in
    let (h, n) =
      take_pages-History (last_page bios m + 1) 0 size (laid_out bios m) (laid_out bios m) t no_call
        run (omega (arith, fits)) in
    (t, h, omega (arith, n), cc)

-- If the kernel and the structures behind it end within the pages of the array, then of every page
-- of the array that `init_memory` leaves in use the bit in the bitmap is set, and the structure of
-- every page with a zone has the page's address.
pub init_memory-IsMarked :
    (bios : ℕ → E820) (cr3 : ℕ) (m m' : Memory) (i : ℕ)
    → let size = (place_arrays (copy_map 32 0 bios m)).pages_size in
      init_memory bios cr3 m ≡ some m' → last_page bios m < size → i < size → IsMarked m' i
unfolding drop_low_mappings
init_memory-IsMarked bios cr3 m m' i e fits h =
    let size = (place_arrays (copy_map 32 0 bios m)).pages_size in
    let (t, calls, n, same) = init_memory-History bios cr3 size m m' e fits in
    let clear : (i : ℕ) → i < size → IsMarked (laid_out bios m) i = λ i h.
      let c = laid_out-IsClear bios m i h in
      record {
        placed = c.placed;
        owned = λ used. absurd (used c.unused);
        marked = λ used. absurd (used c.unused);
      } in
    let kept = History-IsMarked size (laid_out bios m) t calls clear i h in
    subst (λ r. IsMarked r i) (sym same)
      (record { placed = kept.placed; owned = kept.owned; marked = kept.marked })
