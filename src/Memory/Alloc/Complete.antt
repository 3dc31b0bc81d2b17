-- ===== src/Memory/Alloc/Complete.antt =====
-- The free runs that the search for pages cannot miss.
use mathlib.Core.Path.{subst}
use native.Mathlib.Decide.{ℕ_discrete, dec_lt}
use native.Mathlib.Nat.{one-le-pow, div-eq_of_lt}
use oslib.Prelude.{
  ℕ, zero, suc, ◌+◌, ◌-◌, ◌*◌, ◌/◌, ◌%◌, ◌^◌, ◌≤◌, ◌<◌, ◌≡◌, ◌≢◌, ◌⊎◌, refl, sym, ap, ◌∙◌, arith,
  none, true, false, leb, Bool-cases, Option-cases, inl, inr, bit_and, bit_or,
}
use oslib.Prelude.Words.{add64, ◌>>>◌, ◌<<<◌}
use oslib.Prelude.Bits.{
  bit, bit-zero, bit-bit_or, bit-bit_and, bit-shr, bit-shl, bit-shl_low, bit-mod, bits_ext,
}
use oslib.Prelude.Bits.Bounds.{bit_and-le, pow-lt-pow}
use oslib.Memory.Types.{Memory, page_bit}
use oslib.Memory.Alloc.{
  run_mask, run_is_free, find_shift, miss, next_block, scan_zone, start_page, end_page, search_zone,
  scan_zones,
}
use oslib.Memory.Alloc.Scan.{RunIsFree, run_mask_lem}

bit-small : (j a : ℕ) → a < 2 ^ j → bit j a ≡ 0
bit-small j a h =
    let place : j + 0 ≡ j = omega arith in
    sym (ap (λ k. bit k a) place) ∙ sym (bit-shr j 0 a) ∙ omega (arith, div-eq_of_lt h)

pow-le-pow : (k n : ℕ) → k ≤ n → 2 ^ k ≤ 2 ^ n
pow-le-pow k n h = elim (ℕ_discrete k n) [
  | yes same ↦ omega (arith, ap (λ t. 2 ^ t) same)
  | no other ↦ omega (arith, pow-lt-pow k n (omega (arith, other)))
]

-- A digit behind the mask's.
bit-behind_mask : (l number : ℕ) → number ≤ l → number ≤ 64 → bit l (run_mask number) ≡ 0
bit-behind_mask l number h le =
    ap (bit l) (run_mask_lem number le)
    ∙ bit-small l (2 ^ number - 1) (omega (arith, pow-le-pow number l h, one-le-pow number 2))

module _ (bits : ℕ → ℕ) (q k number : ℕ) (word : bits q < 2 ^ 64) (some_shift : 0 < k)
    (in_word : k < 64) (le : number ≤ 64) (free : RunIsFree bits q k number) where
  -- Digit `l` of the run, in the word or in the next one.
  first_word : (l : ℕ) → l < number → k + l < 64 → bit (k + l) (bits q) ≡ 0
  first_word l h lo =
      let digit : (64 * q + k + l) % 64 ≡ k + l = omega arith in
      let place : (64 * q + k + l) >>> 6 ≡ q = omega arith in
      sym (
        ap (λ d. bit d (bits ((64 * q + k + l) >>> 6))) digit
        ∙ ap (λ w. bit (k + l) (bits w)) place)
      ∙ free l h

  next_word : (l : ℕ) → l < number → 64 ≤ k + l → bit (k + l - 64) (bits (q + 1)) ≡ 0
  next_word l h hi =
      let digit : (64 * q + k + l) % 64 ≡ k + l - 64 = omega (arith, le, h) in
      let place : (64 * q + k + l) >>> 6 ≡ q + 1 = omega (arith, le, h) in
      sym (
        ap (λ d. bit d (bits ((64 * q + k + l) >>> 6))) digit
        ∙ ap (λ w. bit (k + l - 64) (bits w)) place)
      ∙ free l h

  low_clear : (l : ℕ) → l < number → bit l (bits q >>> k) ≡ 0
  low_clear l h = bit-shr k l (bits q) ∙ (elim (dec_lt (k + l) 64) [
    | yes lo ↦ first_word l h lo
    | no hi ↦
        bit-small (k + l) (bits q) (omega (arith, word, pow-le-pow 64 (k + l) (omega (arith, hi))))
  ])

  high_clear : (l : ℕ) → l < number → bit l (bits (q + 1) <<< (64 - k)) ≡ 0
  high_clear l h =
      let next = bits (q + 1) in
      let s = 64 - k in
      let count : s % 64 ≡ s = omega (arith, some_shift) in
      bit-mod 64 l (next * 2 ^ (s % 64)) (omega (arith, h, le))
      ∙ ap (λ t. bit l (next * 2 ^ t)) count
      ∙ (elim (dec_lt l s) [
        | yes lo ↦ bit-shl_low s l next lo
        | no hi ↦
            let place : s + (l - s) ≡ l = omega (arith, hi) in
            let same : l - s ≡ k + l - 64 = omega (arith, in_word) in
            sym (ap (λ t. bit t (next * 2 ^ s)) place)
            ∙ bit-shl s (l - s) next
            ∙ ap (λ t. bit t next) same
            ∙ next_word l h (omega (arith, hi, in_word))
      ])

  run_is_free_complete : run_is_free (bits q) (bits (q + 1)) k number ≡ true
  unfolding run_is_free
  run_is_free_complete =
      let window = bit_or (bits q >>> k) (bits (q + 1) <<< (64 - k)) in
      let mask = run_mask number in
      let small : mask < 2 ^ 64 =
        omega (arith, run_mask_lem number le, pow-le-pow number 64 le, one-le-pow number 2) in
      let none_set : bit_and window mask ≡ 0 =
        bits_ext 64 (bit_and window mask) 0 (omega (arith, bit_and-le window mask, small))
          (omega arith)
          (λ l h. elim (dec_lt l number) [
            | yes inside ↦ omega (
              arith,
              bit-bit_and l window mask,
              bit-bit_or l (bits q >>> k) (bits (q + 1) <<< (64 - k)),
              low_clear l inside,
              high_clear l inside,
              bit-zero l,
            )
            | no outside ↦ omega (
              arith,
              bit-bit_and l window mask,
              bit-behind_mask l number (omega (arith, outside)) le,
              bit-zero l,
            )
          ]) in
      ground (arith, none_set)

find_shift-none :
    (left k w next number k' : ℕ)
    → find_shift left k w next number ≡ none
    → k ≤ k'
    → k' < k + left
    → run_is_free w next k' number ≡ false
unfolding find_shift
find_shift-none zero k w next number k' e lo hi = absurd (omega (arith, lo, hi))
find_shift-none (suc left) k w next number k' e lo hi =
    elim (Bool-cases (run_is_free w next k number)) [
      | inl free ↦ absurd (ground (arith, e, free))
      | inr taken ↦ elim (ℕ_discrete k k') [
        | yes same ↦ subst (λ k. run_is_free w next k number ≡ false) same taken
        | no other ↦
            find_shift-none left (k + 1) w next number k' (ground (arith, e, taken))
              (omega (arith, lo, other)) (omega (arith, hi))
      ]
    ]

-- A shift at which the search looks in the word of page `p`: not 0, and in the word in which the
-- zone starts, less than the pages of the word behind the first one.
abbrev pub IsLookedAt : (j p : ℕ) → Type 0
IsLookedAt j p = (0 < p % 64) × (p / 64 ≡ j / 64 → p % 64 < 64 - j % 64)

-- A scan that misses has found no run at any place at which it looks.
scan_zone_misses :
    (fuel start end j number : ℕ) (bits : ℕ → ℕ) (p : ℕ)
    → (j ≡ start) ⊎ (j % 64 ≡ 0)
    → scan_zone fuel start end j number bits ≡ miss
    → j ≤ p
    → p ≤ end
    → IsLookedAt j p
    → run_is_free (bits (p / 64)) (bits (p / 64 + 1)) (p % 64) number ≡ false
unfolding scan_zone
scan_zone_misses zero start end j number bits p on e lo hi looked = cc
scan_zone_misses (suc fuel) start end j number bits p on e lo hi looked =
    let within : leb j end ≡ true = ground (arith, lo, hi) in
    elim (Option-cases
      (find_shift (64 - j % 64 - j % 64) (j % 64) (bits (j >>> 6)) (bits ((j >>> 6) + 1)) number)) [
        | inr (k, present) ↦ absurd (ground (arith, e, within, present))
        | inl absent ↦ elim (ℕ_discrete (p / 64) (j / 64)) [
          | yes same ↦
              subst (λ q. run_is_free (bits q) (bits (q + 1)) (p % 64) number ≡ false) (sym same)
                (find_shift-none (64 - j % 64 - j % 64) (j % 64) (bits (j / 64)) (bits (j / 64 + 1))
                  number (p % 64) absent (omega (arith, same, lo))
                  (omega (arith, looked.1 same, same, lo)))
          | no other ↦
              let later : scan_zone fuel start end (next_block start j) number bits ≡ miss =
                ground (arith, e, within, absent) in
              let multiple : next_block start j % 64 ≡ 0 = ground (arith, on) in
              let before : next_block start j ≤ p = ground (arith, on, lo, other) in
              scan_zone_misses fuel start end (next_block start j) number bits p (inr multiple)
                later before hi (looked.0, λ same. omega (arith, multiple))
        ]
      ]

-- The search of all zones misses only if each zone has too few free pages or is searched in vain.
scan_zones_misses :
    (fuel i zone_end number : ℕ) (m : Memory) (z : ℕ)
    → zone_end + 1 < 2 ^ 64
    → scan_zones fuel i zone_end number m ≡ miss
    → i ≤ z
    → z ≤ zone_end
    → number ≤ (m.zones z).page_free_cnt
    → search_zone z number m ≡ miss
unfolding scan_zones
scan_zones_misses zero i zone_end number m z w e lo hi enough = cc
scan_zones_misses (suc fuel) i zone_end number m z w e lo hi enough =
    let within : leb i zone_end ≡ true = ground (arith, lo, hi) in
    elim (ℕ_discrete i z) [
      | yes same ↦
          subst (λ z. search_zone z number m ≡ miss) same
            (here (subst (λ z. number ≤ (m.zones z).page_free_cnt) (sym same) enough) within)
      | no other ↦
          scan_zones_misses fuel (add64 i 1) zone_end number m z w (ground (arith, e, within))
            (omega (arith, lo, other, hi, w)) hi enough
    ]
  where
    here :
        number ≤ (m.zones i).page_free_cnt → leb i zone_end ≡ true → search_zone i number m ≡ miss
    here enough within = ground (arith, e, within, enough)

-- Page `p` of the zone begins a run of free pages at a place at which the search looks.
pub record HasRun (number : ℕ) (m : Memory) (z p : ℕ) : Type 0 where
  pub enough : number ≤ (m.zones z).page_free_cnt
  pub from_start : start_page m z ≤ p
  pub to_end : p ≤ end_page m z
  pub looked_at : IsLookedAt (start_page m z) p
  pub free : (l : ℕ) → l < number → page_bit m.bits (p + l) ≡ 0

pub scan_zones-HasRun :
    (fuel i zone_end number : ℕ) (m : Memory) (z p : ℕ)
    → zone_end + 1 < 2 ^ 64
    → i ≤ z
    → z ≤ zone_end
    → number ≤ 64
    → m.bits (p / 64) < 2 ^ 64
    → HasRun number m z p
    → scan_zones fuel i zone_end number m ≢ miss
unfolding search_zone
scan_zones-HasRun fuel i zone_end number m z p w lo hi le word run e =
    let missed = scan_zones_misses fuel i zone_end number m z w e lo hi run.enough in
    let taken =
      scan_zone_misses (suc (end_page m z + 1 - start_page m z)) (start_page m z) (end_page m z)
        (start_page m z) number m.bits p (inl refl) missed run.from_start run.to_end
        run.looked_at in
    let place : 64 * (p / 64) + p % 64 ≡ p = omega arith in
    let found =
      run_is_free_complete m.bits (p / 64) (p % 64) number word run.looked_at.0 (omega arith) le
        (λ l h. ap (λ p. page_bit m.bits (p + l)) place ∙ run.free l h) in
    ground (arith, taken, found)
