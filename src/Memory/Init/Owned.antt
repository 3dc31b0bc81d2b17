-- ===== src/Memory/Init/Owned.antt =====
-- The sums of the counters over pages that are all unused.
use oslib.Prelude.{
  ℕ, zero, suc, ◌+◌, ◌^◌, ◌≤◌, ◌<◌, ◌≡◌, refl, ◌∙◌, arith, none, if◌then◌else◌, ◌==◌,
}
use oslib.Prelude.Sums.{total, total_congr, total_change, total-le}
use oslib.Memory.Types.{Memory}
use oslib.Memory.Page.Accounts.{in_zone, unused_in, used_in, links_in}
use oslib.Memory.Init.{claim_page_zero, find_unmapped}
use oslib.Memory.Init.Placed.{IsClear}
use oslib.Memory.Init.Counters.{owned}

-- Page 0 is in zone 0, which never counted it.
abbrev pub page_zero : ℕ → ℕ
page_zero z = if z == 0 then 1 else 0

total-zero : (n : ℕ) → total n (λ i. 0) ≡ 0
unfolding total
total-zero zero = refl
total-zero (suc n) = omega (arith, total-zero n)

pub find_unmapped_zones :
    (left i : ℕ) (m : Memory)
    → ((find_unmapped left i m).zones ≡ m.zones)
      × ((find_unmapped left i m).zones_size ≡ m.zones_size)
unfolding find_unmapped
find_unmapped_zones zero i m = (refl, refl)
find_unmapped_zones (suc left) i m =
    let rest = find_unmapped_zones left (i + 1) (
      if (m.zones i).zone_start_addr == 0x100000000 then record m { g_zone_unmapped = i } else m) in
    (rest.0 ∙ ground arith, rest.1 ∙ ground arith)

-- Pages that are all unused, with right counters of free pages, apart from page 0.
module _ (size z : ℕ) (m : Memory) (word : size < 2 ^ 64)
    (clear : (i : ℕ) → i < size → IsClear (m.pages i) i) where
  pub unused-owned : total size (λ i. unused_in z (m.pages i)) ≡ owned size z m
  unfolding owned unused_in
  unused-owned = total_congr size _ _ (λ i h. ground (arith, (clear i h).unused))

  pub used-none : total size (λ i. used_in z (m.pages i)) ≡ 0
  unfolding used_in
  used-none =
      total_congr size (λ i. used_in z (m.pages i)) (λ i. 0)
        (λ i h. ground (arith, (clear i h).unused))
      ∙ total-zero size

  pub links-none : total size (λ i. links_in z (m.pages i)) ≡ 0
  unfolding links_in
  links-none =
      total_congr size (λ i. links_in z (m.pages i)) (λ i. 0)
        (λ i h. ground (arith, (clear i h).unreferenced))
      ∙ total-zero size

abbrev weight : (z : ℕ) → Memory → ℕ → ℕ
weight z m i = if in_zone z (m.pages i).zone_struct then 1 else 0

pub claim-owned :
    (size z : ℕ) (m : Memory)
    → 0 < size
    → (m.pages 0).zone_struct ≡ none
    → owned size z (claim_page_zero m) ≡ owned size z m + page_zero z
unfolding owned claim_page_zero in_zone
claim-owned size z m some_page bare = ground (
  arith,
  bare,
  total_change size (weight z m) (weight z (claim_page_zero m)) 0 some_page
      (λ i ne. ground (arith, ne)),
)

pub owned-le : (size z : ℕ) (m : Memory) → owned size z m ≤ size
unfolding owned in_zone
owned-le size z m = total-le size (weight z m) (λ i. ground arith)
