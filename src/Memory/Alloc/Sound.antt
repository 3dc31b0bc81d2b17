-- ===== src/Memory/Alloc/Sound.antt =====
-- What `alloc_pages` keeps of pages and zones.
use mathlib.Core.Path.{subst}
use oslib.Prelude.{ℕ, zero, suc, ◌+◌, ◌^◌, ◌≤◌, ◌<◌, ◌≡◌, ◌≢◌, arith, some}
use oslib.Prelude.Words.{add64}
use oslib.Memory.Types.{Memory}
use oslib.Memory.Page.History.{IsSound, page_init-IsSound}
use oslib.Memory.Alloc.{alloc_pages, allocated, init_pages, zone_range}
use oslib.Memory.Alloc.Result.{init_pages_step, allocated_from}

-- The loop that initialises the pages.
init_pages-IsSound :
    (number page flags size zones most : ℕ) (uncounted : ℕ → ℕ) (m : Memory) {t : Memory}
    → init_pages number page flags m ≡ some t
    → flags ≢ 0
    → page + number ≤ size
    → size < 2 ^ 64
    → most + number < 2 ^ 64
    → IsSound size zones uncounted most m
    → IsSound size zones uncounted (most + number) t
unfolding init_pages
init_pages-IsSound zero page flags size zones most uncounted m {t} e nz fits word small sound =
    let same : m ≡ t = ground (arith, e) in
    subst (λ b. IsSound size zones uncounted b t) (omega arith)
      (subst (IsSound size zones uncounted most) same sound)
init_pages-IsSound (suc left) page flags size zones most uncounted m {t} e nz fits word small
      sound =
    let (mid, first, rest) = init_pages_step left page flags m e in
    let next =
      page_init-IsSound size zones most page uncounted m mid (omega (arith, fits)) word
        (omega (arith, small)) sound flags nz first in
    let after =
      init_pages-IsSound left (add64 page 1) flags size zones (most + 1) uncounted mid rest nz
        (omega (arith, fits, word)) word (omega (arith, small)) next in
    subst (λ b. IsSound size zones uncounted b t) (omega arith) after

-- `alloc_pages` of at most 64 pages with some attribute, which lie in the array, keeps of every page
-- of the array that it is unused with no reference, used once, or shared with at least one
-- reference, and of every zone of the first `zones` that its counters are the numbers of its unused
-- pages, used pages and references, if no counter of references was above `most`, and `most` and the
-- number of pages, and the size of the array, are below 2 ^ 64. The last zone to search has not the
-- greatest number.
pub alloc_pages-IsSound :
    (zone_select number flags size zones most page : ℕ) (uncounted : ℕ → ℕ) (m m' : Memory)
    → alloc_pages zone_select number flags m ≡ allocated page m'
    → number ≤ 64
    → (zone_range zone_select m).1 + 1 < 2 ^ 64
    → flags ≢ 0
    → page + number ≤ size
    → size < 2 ^ 64
    → most + number < 2 ^ 64
    → IsSound size zones uncounted most m
    → IsSound size zones uncounted (most + number) m'
alloc_pages-IsSound zone_select number flags size zones most page uncounted m m' done le last nz
      fits word small sound =
    let (z, j, k, a) = allocated_from zone_select number flags m done le last in
    init_pages-IsSound number page flags size zones most uncounted m a.initialised nz fits word
      small sound
