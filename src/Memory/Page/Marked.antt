-- ===== src/Memory/Page/Marked.antt =====
-- The bitmap and the page structures: a page that is in use has its bit set.
use oslib.Prelude.{ℕ, ◌*◌, ◌%◌, ◌^◌, ◌<◌, ◌≡◌, ◌≢◌, arith, ◌==◌, if◌then◌else◌, none, some}
use oslib.Prelude.Words.{not64, ◌>>>◌}
use oslib.Prelude.Bits.{bit-bit_or, bit-bit_and, bit-pow, bit-complement, bit-le-one}
use oslib.Prelude.Bits.Bounds.{pow-lt-pow}
use oslib.Memory.Types.{Memory, page_bit, mark_used, mark_free, page_2m_size}
use oslib.Memory.Page.{page_init, page_clean}
use oslib.Memory.Page.History.{History, no_call, taken, given_back}

page_bit-mark_used :
    (bits : ℕ → ℕ) (n i : ℕ)
    → page_bit (mark_used bits n) i ≡ (if i == n then 1 else page_bit bits i)
page_bit-mark_used bits n i = ground (
  arith,
  bit-bit_or (i % 64) (bits (n >>> 6)) (2 ^ (n % 64)),
  bit-pow (i % 64) (n % 64),
  bit-le-one (i % 64) (bits (i >>> 6)),
)

page_bit-mark_free :
    (bits : ℕ → ℕ) (n i : ℕ)
    → page_bit (mark_free bits n) i ≡ (if i == n then 0 else page_bit bits i)
page_bit-mark_free bits n i = ground (
  arith,
  bit-bit_and (i % 64) (bits (n >>> 6)) (not64 (2 ^ (n % 64))),
  bit-complement 64 (i % 64) (2 ^ (n % 64)) (pow-lt-pow (n % 64) 64 (omega arith)),
  bit-pow (i % 64) (n % 64),
  bit-le-one (i % 64) (bits (i >>> 6)),
)

-- Page structure `i` describes the page at `i` times 2 MB if it has a zone, and if the page is in
-- use it has a zone and a bit that is set.
pub record IsMarked (m : Memory) (i : ℕ) : Type 0 where
  pub placed : (m.pages i).zone_struct ≢ none → (m.pages i).phy_addr ≡ i * page_2m_size
  pub owned : (m.pages i).attribute ≢ 0 → (m.pages i).zone_struct ≢ none
  pub marked : (m.pages i).attribute ≢ 0 → page_bit m.bits i ≡ 1

pub page_init-IsMarked :
    (n flags : ℕ) (m : Memory) {m' : Memory} (i : ℕ)
    → page_init n flags m ≡ some m'
    → IsMarked m n
    → IsMarked m i
    → IsMarked m' i
unfolding page_init
page_init-IsMarked n flags m i run at h =
    let number = (m.pages n).phy_addr >>> 21 in
    record {
      placed = ground (arith, h.placed);
      owned = ground (arith, h.owned, at.owned);
      marked =
          ground
            (arith, h.marked, at.marked, at.placed, at.owned, page_bit-mark_used m.bits number i);
    }

page_clean-IsMarked :
    (n : ℕ) (m : Memory) {m' : Memory} (i : ℕ)
    → page_clean n m ≡ some m'
    → IsMarked m n
    → IsMarked m i
    → IsMarked m' i
unfolding page_clean
page_clean-IsMarked n m i run at h =
    let number = (m.pages n).phy_addr >>> 21 in
    record {
      placed = ground (arith, h.placed);
      owned = ground (arith, h.owned);
      marked = ground (arith, h.marked, at.placed, at.owned, page_bit-mark_free m.bits number i);
    }

-- Any sequence of calls on pages of the array keeps it for the pages of the array.
pub History-IsMarked :
    (size : ℕ) (m t : Memory)
    → History size m t
    → ((i : ℕ) → i < size → IsMarked m i)
    → (i : ℕ) → i < size
    → IsMarked t i
History-IsMarked size m t no_call marks i h = marks i h
History-IsMarked size m t (taken {s} n flags before lo nz run) marks i h =
    let rest = History-IsMarked size m s before marks in
    page_init-IsMarked n flags s i run (rest n lo) (rest i h)
History-IsMarked size m t (given_back {s} n before lo run) marks i h =
    let rest = History-IsMarked size m s before marks in
    page_clean-IsMarked n s i run (rest n lo) (rest i h)
