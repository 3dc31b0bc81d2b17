-- ===== src/Memory/Alloc/Finds.antt =====
-- When `alloc_pages` returns pages.
use mathlib.Core.Path.{subst}
use oslib.Prelude.{
  ℕ, zero, suc, ◌+◌, ◌-◌, ◌*◌, ◌/◌, ◌^◌, ◌≤◌, ◌<◌, ◌≡◌, ◌≢◌, refl, sym, ap, ◌∙◌, arith, none, some,
  Option-cases, inl, inr,
}
use oslib.Prelude.Words.{add64}
use oslib.Memory.Types.{Memory, Page, page_bit}
use oslib.Memory.Page.{page_init}
use oslib.Memory.Page.Effect.{page_init_same}
use oslib.Memory.Alloc.{
  start_page, Found, scan_zones, zone_range, init_pages, first_page, finish, allocated, alloc_pages,
}
use oslib.Memory.Alloc.Fuel.{scan_zones_ends}
use oslib.Memory.Alloc.Result.{Found-cases, scan_zones_sound}
use oslib.Memory.Alloc.Pages.{ForZones, SecondInWord}
use oslib.Memory.Alloc.Complete.{HasRun, scan_zones-HasRun}

page_init-some :
    (n flags : ℕ) (m : Memory)
    → (m.pages n).zone_struct ≢ none
    → (m' : Memory) × (page_init n flags m ≡ some m')
unfolding page_init
page_init-some n flags m zoned = elim (Option-cases (page_init n flags m)) [
  | inl faulty ↦ absurd (ground (arith, faulty, zoned))
  | inr (m', run) ↦ (m', run)
]

init_pages-some :
    (number page flags : ℕ) (m : Memory)
    → page + number < 2 ^ 64
    → ((l : ℕ) → l < number → (m.pages (page + l)).zone_struct ≢ none)
    → (m' : Memory) × (init_pages number page flags m ≡ some m')
unfolding init_pages
init_pages-some zero page flags m w zoned = (m, refl)
init_pages-some (suc left) page flags m w zoned =
    let here : page + 0 ≡ page = omega arith in
    let (mid, first) =
      page_init-some page flags m
        (subst (λ n. (m.pages n).zone_struct ≢ none) here (zoned 0 (omega arith))) in
    let (m', rest) = init_pages-some left (add64 page 1) flags mid (omega (arith, w)) (λ l h.
      let next : add64 page 1 + l ≡ page + suc l = omega (arith, w) in
      let same = page_init_same page flags m first (page + suc l) (omega arith) in
      subst (λ n. (mid.pages n).zone_struct ≢ none) (sym next)
        (subst (λ (q : Page). q.zone_struct ≢ none) (sym same)
          (zoned (suc l) (omega (arith, h))))) in
    (m', ground (arith, first, rest))

-- Every free page from the zone's start on, as far as a run reaches that is found in the word of the
-- bitmap in which the zone starts, has a zone.
abbrev pub HasZones : (number : ℕ) → Memory → ℕ → Type 0
HasZones number m z =
    (i : ℕ)
    → start_page m z ≤ i
    → i < 64 * (start_page m z / 64) + 63 + number
    → page_bit m.bits i ≡ 0
    → (m.pages i).zone_struct ≢ none

-- If at most 64 pages are asked for, the last zone to search has not the greatest number, every zone
-- of the selection starts at the second page of a word and ends in it, the free pages behind its
-- start, as far as a run that is found in that word reaches, have zones, and one of the zones has
-- enough free pages and a run of them at a place at which the search looks, then `alloc_pages`
-- returns pages.
pub alloc_pages_finds :
    (zone_select number flags : ℕ) (m : Memory) (z p : ℕ)
    → number ≤ 64
    → (zone_range zone_select m).1 + 1 < 2 ^ 64
    → ForZones zone_select m (SecondInWord m)
    → ForZones zone_select m (HasZones number m)
    → (zone_range zone_select m).0 ≤ z
    → z ≤ (zone_range zone_select m).1
    → m.bits (p / 64) < 2 ^ 64
    → HasRun number m z p
    → (page : ℕ) × (m' : Memory) × (alloc_pages zone_select number flags m ≡ allocated page m')
unfolding alloc_pages
alloc_pages_finds zone_select number flags m z p le w zones zoned lo hi word run =
    elim (Found-cases search) [
      | inl (j, k, found) ↦
          let (z', at) = scan_zones_sound fuel zone_start zone_end number m le w found in
          let second = zones z' at.from_zone at.to_zone in
          let hit_at = at.run in
          let page : 64 * (j / 64) + k ≡ first_page j k =
            omega (arith, hit_at.from_start, hit_at.to_end, hit_at.shift_lt, second) in
          let (m', taken) =
            init_pages-some number (first_page j k) flags m
              (omega (arith, page, hit_at.to_end, hit_at.shift_lt, second, le))
              (λ l h.
                zoned z' at.from_zone at.to_zone (first_page j k + l)
                  (omega (arith, page, hit_at.from_start, hit_at.shift_le, second))
                  (omega
                    (arith, page, h, hit_at.from_start, hit_at.to_end, hit_at.shift_lt, second))
                  (subst (λ n. page_bit m.bits (n + l) ≡ 0) page (hit_at.free l h))) in
          (first_page j k, m', ap (finish number flags m) found ∙ ground (arith, taken))
      | inr (inl missed) ↦
          absurd
            (scan_zones-HasRun fuel zone_start zone_end number m z p w lo hi le word run missed)
      | inr (inr stuck) ↦
          absurd
            (scan_zones_ends fuel zone_start zone_end number m (omega arith) (omega arith) w stuck)
    ]
  where
    zone_start : ℕ
    zone_start = (zone_range zone_select m).0

    zone_end : ℕ
    zone_end = (zone_range zone_select m).1

    fuel : ℕ
    fuel = suc (zone_end + 1 - zone_start)

    search : Found
    search = scan_zones fuel zone_start zone_end number m
