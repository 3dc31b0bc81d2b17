-- ===== src/Memory/Alloc/Late.antt =====
-- Zones from which `alloc_pages` never returns a page.
use oslib.Prelude.{
  ℕ, zero, suc, ◌+◌, ◌-◌, ◌/◌, ◌%◌, ◌^◌, ◌≤◌, ◌<◌, ◌≡◌, refl, arith, none, leb, Bool-cases, inl,
  inr,
}
use oslib.Prelude.Words.{◌>>>◌}
use oslib.Memory.Types.{Memory}
use oslib.Memory.Alloc.{
  find_shift, miss, next_block, scan_zone, start_page, end_page, search_zone, zone_range, null,
  alloc_pages,
}
use oslib.Memory.Alloc.Pages.{ForZones}
use oslib.Memory.Alloc.Exhausted.{alloc_pages_misses}

-- The zone starts in the second half of a word of the bitmap, and ends in that word.
abbrev pub LateInWord : Memory → ℕ → Type 0
LateInWord m z = (32 ≤ start_page m z % 64) × (end_page m z / 64 ≡ start_page m z / 64)

no_shift : (left k w next number : ℕ) → left ≡ 0 → find_shift left k w next number ≡ none
unfolding find_shift
no_shift zero k w next number e = refl
no_shift (suc left) k w next number e = absurd (omega (arith, e))

scan_behind :
    (fuel start end j number : ℕ) (bits : ℕ → ℕ)
    → 0 < fuel
    → end < j
    → scan_zone fuel start end j number bits ≡ miss
unfolding scan_zone
scan_behind zero start end j number bits some_fuel h = absurd (omega arith)
scan_behind (suc fuel) start end j number bits some_fuel h = ground (arith, h)

scan_zone-late :
    (fuel start end number : ℕ) (bits : ℕ → ℕ)
    → 32 ≤ start % 64
    → end / 64 ≡ start / 64
    → end + 1 ≤ fuel + start
    → scan_zone (suc fuel) start end start number bits ≡ miss
unfolding scan_zone
scan_zone-late fuel start end number bits late same enough = elim (Bool-cases (leb start end)) [
  | inl within ↦
      let shift =
        no_shift (64 - start % 64 - start % 64) (start % 64) (bits (start >>> 6))
          (bits ((start >>> 6) + 1)) number (omega (arith, late)) in
      let le : start ≤ end = ground (arith, within) in
      let behind =
        scan_behind fuel start end (next_block start start) number bits (omega (arith, enough, le))
          (ground (arith, late, same)) in
      ground (arith, within, shift, behind)
  | inr outside ↦ ground (arith, outside)
]

-- A zone that starts in the second half of a word of the bitmap and ends in it is searched in vain,
-- however many free pages it has: if every zone of the selection does, and the last one has not the
-- greatest number, `alloc_pages` returns the null pointer.
pub alloc_pages-LateInWord :
    (zone_select number flags : ℕ) (m : Memory)
    → ForZones zone_select m (LateInWord m)
    → (zone_range zone_select m).1 + 1 < 2 ^ 64
    → alloc_pages zone_select number flags m ≡ null
unfolding search_zone
alloc_pages-LateInWord zone_select number flags m zones w =
    alloc_pages_misses zone_select number flags m
      (λ z lo hi. inr (
        scan_zone-late (end_page m z + 1 - start_page m z) (start_page m z) (end_page m z) number
          m.bits (zones z lo hi).0 (zones z lo hi).1 (omega arith)))
      w
