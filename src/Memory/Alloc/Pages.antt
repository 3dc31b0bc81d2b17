-- ===== src/Memory/Alloc/Pages.antt =====
-- The pages that `alloc_pages` hands out.
use oslib.Prelude.{ℕ, ◌+◌, ◌*◌, ◌/◌, ◌%◌, ◌^◌, ◌≤◌, ◌<◌, ◌≡◌, ◌≢◌, ◌⊎◌, sym, arith, inl}
use mathlib.Core.Path.{subst}
use oslib.Memory.Types.{Memory, page_bit}
use oslib.Memory.Alloc.{start_page, end_page, allocated, zone_range, alloc_pages}
use oslib.Memory.Alloc.Scan.{RunIsFree}
use oslib.Memory.Alloc.Result.{allocated_from, init_pages_used, init_pages_same}

-- Every zone that the selector stands for satisfies `P`.
abbrev pub ForZones : ℕ → Memory → (ℕ → Type 0) → Type 0
ForZones zone_select m P =
    (z : ℕ) → (zone_range zone_select m).0 ≤ z → z ≤ (zone_range zone_select m).1 → P z

-- The zone starts at the second page of a word of the bitmap, and ends in that word.
abbrev pub SecondInWord : Memory → ℕ → Type 0
SecondInWord m z =
    (start_page m z % 64 ≡ 1)
    × (end_page m z / 64 ≡ start_page m z / 64)
    × ((m.zones z).zone_end_addr < 2 ^ 64)

-- The zone starts at the first page of a word of the bitmap, which is not the first word.
abbrev pub FirstInWord : Memory → ℕ → Type 0
FirstInWord m z =
    (start_page m z % 64 ≡ 0) × (0 < start_page m z) × ((m.zones z).zone_end_addr < 2 ^ 64)

run_at :
    (bits : ℕ → ℕ) (q k number page : ℕ)
    → page ≡ 64 * q + k
    → RunIsFree bits q k number
    → (l : ℕ) → l < number
    → page_bit bits (page + l) ≡ 0
run_at bits q k number page e free l h = subst (λ t. page_bit bits (t + l) ≡ 0) (sym e) (free l h)

module _ (zone_select number flags : ℕ) (m : Memory) {page : ℕ} {m' : Memory}
    (done : alloc_pages zone_select number flags m ≡ allocated page m') (le : number ≤ 64)
    (last : (zone_range zone_select m).1 + 1 < 2 ^ 64) where
  -- If at most 64 pages are asked for, the last zone to search has not the greatest number, and
  -- every zone of the selection starts at the second page of a word and ends in it, then the
  -- pages returned were free in the bitmap.
  pub alloc_pages_free :
      ForZones zone_select m (SecondInWord m)
      → (l : ℕ) → l < number
      → page_bit m.bits (page + l) ≡ 0
  alloc_pages_free zones =
      let (z, j, k, a) = allocated_from zone_select number flags m done le last in
      let at = a.hit_at in
      let second = zones z at.from_zone at.to_zone in
      run_at m.bits (j / 64) k number page (omega (arith, a.page_at, at.run)) at.run.free

  -- If at most 64 pages are asked for, the last zone to search has not the greatest number, and
  -- every zone of the selection starts at the first page of a word other than the first, then
  -- the free run that the search found lies one page further on than the pages returned. So the
  -- last page of the run is not initialised, and the first page returned was never looked at.
  pub alloc_pages_shifted :
      ForZones zone_select m (FirstInWord m)
      → (l : ℕ) → l < number
      → page_bit m.bits (page + 1 + l) ≡ 0
  alloc_pages_shifted zones =
      let (z, j, k, a) = allocated_from zone_select number flags m done le last in
      let at = a.hit_at in
      let first = zones z at.from_zone at.to_zone in
      run_at m.bits (j / 64) k number (page + 1) (omega (arith, a.page_at, at.run)) at.run.free

  -- The pages returned, at most 64 whose numbers do not wrap around, are in use afterwards, if some
  -- attribute is set and the last zone to search has not the greatest number.
  alloc_pages_used :
      flags ≢ 0
      → page + number < 2 ^ 64
      → (i : ℕ) → page ≤ i
      → i < page + number
      → (m'.pages i).attribute ≢ 0
  alloc_pages_used nz fits i lo hi =
      let (z, j, k, a) = allocated_from zone_select number flags m done le last in
      init_pages_used number page flags m i a.initialised nz fits (inl (lo, hi))

  -- Every page structure outside the pages returned, at most 64 whose numbers do not wrap around, is
  -- as before, if the last zone to search has not the greatest number.
  alloc_pages_same :
      page + number < 2 ^ 64 → (i : ℕ) → (i < page) ⊎ (page + number ≤ i) → m'.pages i ≡ m.pages i
  alloc_pages_same fits i out =
      let (z, j, k, a) = allocated_from zone_select number flags m done le last in
      init_pages_same number page flags m i a.initialised fits out
