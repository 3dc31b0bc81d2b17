-- ===== src/Memory/Alloc/Result.antt =====
-- What a successful allocation returns: the pages that it initialises, and how they lie to the
-- run that the search found free.
use native.Mathlib.Decide.{ℕ_discrete}
use oslib.Prelude.{
  ℕ, zero, suc, ◌+◌, ◌-◌, ◌^◌, ◌≤◌, ◌<◌, ◌≡◌, ◌≢◌, ◌⊎◌, refl, ◌∙◌, arith, some, Option-cases, inl,
  inr,
}
use oslib.Prelude.Words.{add64}
use oslib.Memory.Types.{Memory}
use oslib.Memory.Page.{page_init}
use oslib.Memory.Page.Effect.{page_init_same, page_init_used}
use oslib.Memory.Alloc.{
  Found, hit, miss, no_fuel, search_zone, start_page, end_page, scan_zones, first_page, allocated,
  init_pages, zone_range, alloc_pages,
}
use oslib.Memory.Alloc.Scan.{IsHit, scan_zone_sound}

-- The search left its loops in zone `z`, at `j` and `k`.
pub record IsZoneHit (m : Memory) (i zone_end number z j k : ℕ) : Type 0 where
  pub from_zone : i ≤ z
  pub to_zone : z ≤ zone_end
  pub enough : number ≤ (m.zones z).page_free_cnt
  pub run : IsHit m.bits (start_page m z) (end_page m z) number j k

pub Found-cases : (f : Found) → ((j : ℕ) × (k : ℕ) × (f ≡ hit j k)) ⊎ ((f ≡ miss) ⊎ (f ≡ no_fuel))
Found-cases (hit j k) = inl (j, k, refl)
Found-cases miss = inr (inl refl)
Found-cases no_fuel = inr (inr refl)

scan_zones_step :
    (fuel i zone_end number : ℕ) (m : Memory) {j k : ℕ}
    → scan_zones (suc fuel) i zone_end number m ≡ hit j k
    → (i ≤ zone_end)
      × ((number ≤ (m.zones i).page_free_cnt) × (search_zone i number m ≡ hit j k)
          ⊎ (scan_zones fuel (add64 i 1) zone_end number m ≡ hit j k))
unfolding scan_zones
scan_zones_step fuel i zone_end number m e = ground arith

pub scan_zones_sound :
    (fuel i zone_end number : ℕ) (m : Memory) {j k : ℕ}
    → number ≤ 64
    → zone_end + 1 < 2 ^ 64
    → scan_zones fuel i zone_end number m ≡ hit j k
    → (z : ℕ) × IsZoneHit m i zone_end number z j k
unfolding search_zone
scan_zones_sound zero i zone_end number m le w e = absurd (unfold scan_zones in cc)
scan_zones_sound (suc fuel) i zone_end number m {j} {k} le w e =
    go (scan_zones_step fuel i zone_end number m e)
      (λ next. scan_zones_sound fuel (add64 i 1) zone_end number m le w next)
  where
    go :
        (i ≤ zone_end)
          × ((number ≤ (m.zones i).page_free_cnt) × (search_zone i number m ≡ hit j k)
              ⊎ (scan_zones fuel (add64 i 1) zone_end number m ≡ hit j k))
        → (scan_zones fuel (add64 i 1) zone_end number m ≡ hit j k
            → (z : ℕ) × IsZoneHit m (add64 i 1) zone_end number z j k)
        → (z : ℕ) × IsZoneHit m i zone_end number z j k
    go (below, inl (enough, found)) later = (
      i,
      record {
        from_zone = omega arith;
        to_zone = below;
        enough = enough;
        run =
            scan_zone_sound (suc (end_page m i + 1 - start_page m i)) (start_page m i)
              (end_page m i) (start_page m i) number m.bits (omega arith) (inl refl) le found;
      },
    )
    go (below, inr next) later =
        let (z, at) = later next in
        (
          z,
          record {
            from_zone = omega (arith, at.from_zone);
            to_zone = at.to_zone;
            enough = at.enough;
            run = at.run;
          },
        )

pub init_pages_step :
    (left page flags : ℕ) (m : Memory) {m' : Memory}
    → init_pages (suc left) page flags m ≡ some m'
    → (mid : Memory) × (page_init page flags m ≡ some mid)
      × (init_pages left (add64 page 1) flags mid ≡ some m')
unfolding init_pages
init_pages_step left page flags m e = elim (Option-cases (page_init page flags m)) [
  | inl fault ↦ absurd (ground (arith, fault))
  | inr (mid, first) ↦ (mid, first, ground (arith, first))
]

pub init_pages_used :
    (number page flags : ℕ) (m : Memory) {m' : Memory} (i : ℕ)
    → init_pages number page flags m ≡ some m'
    → flags ≢ 0
    → page + number < 2 ^ 64
    → ((page ≤ i) × (i < page + number)) ⊎ ((m.pages i).attribute ≢ 0)
    → (m'.pages i).attribute ≢ 0
init_pages_used zero page flags m i e nz w h = unfold init_pages in ground arith
init_pages_used (suc left) page flags m i e nz w h =
    let (mid, first, rest) = init_pages_step left page flags m e in
    init_pages_used left (add64 page 1) flags mid i rest nz (omega arith) (reach first)
  where
    reach :
        {mid : Memory}
        → page_init page flags m ≡ some mid
        → ((add64 page 1 ≤ i) × (i < add64 page 1 + left)) ⊎ ((mid.pages i).attribute ≢ 0)
    reach first = elim (ℕ_discrete i page) [
      | yes at ↦ inr (page_init_used page flags m i first nz (inl at))
      | no ne ↦ elim h [
        | inl within ↦ inl (omega arith, omega arith)
        | inr used ↦ inr (page_init_used page flags m i first nz (inr used))
      ]
    ]

pub init_pages_same :
    (number page flags : ℕ) (m : Memory) {m' : Memory} (i : ℕ)
    → init_pages number page flags m ≡ some m'
    → page + number < 2 ^ 64
    → (i < page) ⊎ (page + number ≤ i)
    → m'.pages i ≡ m.pages i
init_pages_same zero page flags m i e w h = unfold init_pages in ground arith
init_pages_same (suc left) page flags m i e w h =
    let (mid, first, rest) = init_pages_step left page flags m e in
    init_pages_same left (add64 page 1) flags mid i rest (omega arith) (ground arith)
    ∙ page_init_same page flags m first i (ground arith)

-- A successful allocation comes from a zone of the selected range with enough free pages: the
-- search left its loops at some `j` and `k` with a free run there, and the pages from
-- `j + k - 1` on were initialised.
pub record IsAllocation (zone_select number flags : ℕ) (m : Memory) (page : ℕ) (m' : Memory)
    (z j k : ℕ) : Type 0 where
  pub hit_at : IsZoneHit m (zone_range zone_select m).0 (zone_range zone_select m).1 number z j k
  pub page_at : page ≡ first_page j k
  pub initialised : init_pages number page flags m ≡ some m'

pub allocated_from :
    (zone_select number flags : ℕ) (m : Memory) {page : ℕ} {m' : Memory}
    → alloc_pages zone_select number flags m ≡ allocated page m'
    → number ≤ 64
    → (zone_range zone_select m).1 + 1 < 2 ^ 64
    → (z : ℕ) × (j : ℕ) × (k : ℕ) × IsAllocation zone_select number flags m page m' z j k
unfolding alloc_pages
allocated_from zone_select number flags m {page} {m'} e le w = elim (Found-cases search) [
  | inl (j, k, found) ↦
      let (z, at) = scan_zones_sound fuel zone_start zone_end number m le w found in
      (
        z,
        j,
        k,
        record {
          hit_at = at;
          page_at = ground (arith, found);
          initialised = ground (arith, found);
        },
      )
  | inr (inl missed) ↦ absurd (ground (arith, missed))
  | inr (inr stuck) ↦ absurd (ground (arith, stuck))
]
  where
    zone_start : ℕ
    zone_start = (zone_range zone_select m).0

    zone_end : ℕ
    zone_end = (zone_range zone_select m).1

    fuel : ℕ
    fuel = suc (zone_end + 1 - zone_start)

    search : Found
    search = scan_zones fuel zone_start zone_end number m
