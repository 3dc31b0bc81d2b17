-- ===== src/Memory/Init/Counters.antt =====
-- The counters that the zones have when `init_memory` has added them.
use mathlib.Core.Path.{subst}
use native.Mathlib.Decide.{ℕ_discrete}
use oslib.Prelude.{
  ℕ, zero, suc, ◌+◌, ◌^◌, ◌≤◌, ◌<◌, ◌≡◌, ◌≢◌, ◌⊎◌, refl, sym, ap, ◌∙◌, arith, Bool-cases, inl, inr,
  none, some, true, false, if◌then◌else◌, ltb,
}
use oslib.Prelude.Sums.{total, total_congr}
use oslib.Memory.Types.{E820, Memory, Zone}
use oslib.Memory.Page.Accounts.{in_zone}
use oslib.Memory.Init.{new_zone, add_zone, add_zones, is_usable, region_pages}
use oslib.Memory.Init.Added.{add_zone-zone_struct, total-covers, add_zone_zones}
use oslib.Memory.Init.Marks.{covers, cover_count, add_zone_map}

-- The pages of the array that belong to zone `z`.
unfoldable pub owned : (size z : ℕ) → Memory → ℕ
unfolding in_zone
owned size z m = total size (λ i. if in_zone z (m.pages i).zone_struct then 1 else 0)

-- The state of the loop over the regions with `left` of them from `r` on to come: the zones made so
-- far count their pages as free, and no page that has a zone will be covered again.
pub record IsZoned (size left r : ℕ) (m : Memory) : Type 0 where
  pub few : m.zones_size ≤ r
  pub known : (i z : ℕ) → (m.pages i).zone_struct ≡ some z → i < size → z < m.zones_size
  pub free : (z : ℕ) → z < m.zones_size → (m.zones z).page_free_cnt ≡ owned size z m
  pub using : (z : ℕ) → z < m.zones_size → (m.zones z).page_using_cnt ≡ 0
  pub links : (z : ℕ) → z < m.zones_size → (m.zones z).total_page_lnk ≡ 0
  pub apart : (i : ℕ) → i < size → (m.pages i).zone_struct ≢ none → cover_count left r m.e820 i ≡ 0
  pub single : (i : ℕ) → cover_count left r m.e820 i ≤ (if ltb i size then 1 else 0)

skip-IsZoned :
    (size left r : ℕ) (m : Memory)
    → IsZoned size (suc left) r m
    → is_usable (m.e820 r) ≡ false
    → IsZoned size left (r + 1) m
unfolding cover_count
skip-IsZoned size left r m z skipped = record {
  few = omega (arith, z.few);
  known = z.known;
  free = z.free;
  using = z.using;
  links = z.links;
  apart = λ i h zone. omega (arith, z.apart i h zone);
  single = λ i. omega (arith, z.single i);
}

module _ (size left r : ℕ) (m : Memory) (z : IsZoned size (suc left) r m)
    (usable : is_usable (m.e820 r) ≡ true) (short : r + 1 < 2 ^ 64) where
  abbrev e : E820
  e = m.e820 r

  abbrev m' : Memory
  m' = add_zone e m

  map : (i : ℕ) → cover_count left (r + 1) m'.e820 i ≡ cover_count left (r + 1) m.e820 i
  map i = ap (λ map. cover_count left (r + 1) map i) (add_zone_map e m)

  -- A page is covered by the new region, or by those behind it, or by none; if it has a zone, by
  -- none.
  one_cover :
      (i : ℕ) → covers e i + cover_count left (r + 1) m.e820 i ≤ (if ltb i size then 1 else 0)
  unfolding cover_count
  one_cover i = z.single i

  no_cover :
      (i : ℕ)
      → i < size
      → (m.pages i).zone_struct ≢ none
      → (covers e i ≡ 0) × (cover_count left (r + 1) m.e820 i ≡ 0)
  unfolding cover_count
  no_cover i h zone = (omega (arith, z.apart i h zone), omega (arith, z.apart i h zone))

  new_size : m'.zones_size ≡ m.zones_size + 1
  new_size = omega (arith, (add_zone_zones e m usable).1, z.few, short)

  owned_new : owned size m.zones_size m' ≡ region_pages e
  unfolding owned in_zone
  owned_new =
      total_congr size (λ i. if in_zone m.zones_size (m'.pages i).zone_struct then 1 else 0)
        (covers e)
        (λ i h.
          ground (arith, add_zone-zone_struct e m usable i, one_cover i, z.known i m.zones_size))
      ∙ total-covers e m usable size (λ i h. ground (arith, one_cover i, h))

  owned_old : (y : ℕ) → y < m.zones_size → owned size y m' ≡ owned size y m
  unfolding owned in_zone
  owned_old y lt =
      total_congr size (λ i. if in_zone y (m'.pages i).zone_struct then 1 else 0)
        (λ i. if in_zone y (m.pages i).zone_struct then 1 else 0)
        (λ i h. ground (arith, add_zone-zone_struct e m usable i, no_cover i h, lt))

  new_counters :
      (y : ℕ)
      → y ≡ m.zones_size
      → ((m'.zones y).page_free_cnt ≡ region_pages e)
        × ((m'.zones y).page_using_cnt ≡ 0)
        × ((m'.zones y).total_page_lnk ≡ 0)
  unfolding new_zone
  new_counters y at =
      let zones = (add_zone_zones e m usable).0 in
      let zone = ap (λ zones. zones y) zones in
      (
        ap (λ (z : Zone). z.page_free_cnt) zone ∙ ground (arith, at),
        ap (λ (z : Zone). z.page_using_cnt) zone ∙ ground (arith, at),
        ap (λ (z : Zone). z.total_page_lnk) zone ∙ ground (arith, at),
      )

  old_zone : (y : ℕ) → y < m.zones_size → m'.zones y ≡ m.zones y
  unfolding new_zone
  old_zone y lt = ap (λ zones. zones y) (add_zone_zones e m usable).0 ∙ ground (arith, lt)

  -- The last zone or an earlier one.
  new_or_old : (y : ℕ) → y < m'.zones_size → (y ≡ m.zones_size) ⊎ (y < m.zones_size)
  new_or_old y lt = elim (ℕ_discrete y m.zones_size) [
    | yes at ↦ inl at
    | no ne ↦ inr (omega (arith, lt, ne, new_size))
  ]

  add_zone-IsZoned : IsZoned size left (r + 1) m'
  add_zone-IsZoned = record {
    few = omega (arith, new_size, z.few);
    known =
        λ i y at h. ground (arith, add_zone-zone_struct e m usable i, at, z.known i y, h, new_size);
    free = λ y lt. elim (new_or_old y lt) [
      | inl at ↦ (new_counters y at).0 ∙ sym owned_new ∙ ap (λ y. owned size y m') (sym at)
      | inr old ↦
          ap (λ (z : Zone). z.page_free_cnt) (old_zone y old) ∙ z.free y old ∙ sym (owned_old y old)
    ];
    using = λ y lt. elim (new_or_old y lt) [
      | inl at ↦ (new_counters y at).1
      | inr old ↦ ap (λ (z : Zone). z.page_using_cnt) (old_zone y old) ∙ z.using y old
    ];
    links = λ y lt. elim (new_or_old y lt) [
      | inl at ↦ (new_counters y at).2
      | inr old ↦ ap (λ (z : Zone). z.total_page_lnk) (old_zone y old) ∙ z.links y old
    ];
    apart = λ i h zone.
        ground (arith, map i, add_zone-zone_struct e m usable i, zone, one_cover i, no_cover i h);
    single = λ i. omega (arith, map i, one_cover i);
  }

pub add_zones-IsZoned :
    (left size r : ℕ) (m : Memory)
    → r + left < 2 ^ 64
    → IsZoned size left r m
    → IsZoned size 0 (r + left) (add_zones left r m)
unfolding add_zones
add_zones-IsZoned zero size r m short z = subst (λ r. IsZoned size 0 r m) (omega arith) z
add_zones-IsZoned (suc left) size r m short z =
    let after = add_zone (m.e820 r) m in
    let next : IsZoned size left (r + 1) (if is_usable (m.e820 r) then after else m) =
      elim (Bool-cases (is_usable (m.e820 r))) [
        | inl usable ↦
            subst (λ b. IsZoned size left (r + 1) (if b then after else m)) (sym usable)
              (add_zone-IsZoned size left r m z usable (omega (arith, short)))
        | inr skipped ↦
            subst (λ b. IsZoned size left (r + 1) (if b then after else m)) (sym skipped)
              (skip-IsZoned size left r m z skipped)
      ] in
    subst (λ n. IsZoned size 0 n (add_zones (suc left) r m)) (omega arith)
      (add_zones-IsZoned left size (r + 1) _ (omega (arith, short)) next)

-- The loop changes no page that no region covers.
pub add_zones-uncovered :
    (left r i : ℕ) (m : Memory)
    → cover_count left r m.e820 i ≡ 0
    → ((add_zones left r m).pages i).zone_struct ≡ (m.pages i).zone_struct
unfolding add_zones cover_count
add_zones-uncovered zero r i m h = refl
add_zones-uncovered (suc left) r i m h = elim (Bool-cases (is_usable (m.e820 r))) [
  | inl usable ↦
      let after = add_zone (m.e820 r) m in
      let map = ap (λ map. cover_count left (r + 1) map i) (add_zone_map (m.e820 r) m) in
      ap (λ b. ((add_zones left (r + 1) (if b then after else m)).pages i).zone_struct) usable
      ∙ add_zones-uncovered left (r + 1) i after (omega (arith, h, map))
      ∙ ground (arith, add_zone-zone_struct (m.e820 r) m usable i, h)
  | inr skipped ↦
      let after = add_zone (m.e820 r) m in
      ap (λ b. ((add_zones left (r + 1) (if b then after else m)).pages i).zone_struct) skipped
      ∙ add_zones-uncovered left (r + 1) i m (omega (arith, h))
]
