-- ===== src/Memory/Page/History.antt =====
-- Any sequence of `page_init` and `page_clean` on the pages of the array.
use mathlib.Core.Path.{subst}
use oslib.Prelude.{ℕ, ◌+◌, ◌^◌, ◌≤◌, ◌<◌, ◌≡◌, ◌≢◌, arith, some}
use oslib.Memory.Types.{Memory}
use oslib.Memory.Page.{page_init, page_clean}
use oslib.Memory.Page.Counts.{IsCounted, page_init-IsCounted, page_clean-IsCounted}
use oslib.Memory.Page.Effect.{page_clean_same}
use oslib.Memory.Page.Accounts.{
  IsAccounted, links_in, change_pages, page_init-IsAccounted, page_clean-IsAccounted,
}

-- The memories that calls on the first `size` pages lead to.
pub data History (size : ℕ) (m : Memory) : Memory → Type 0 where
  no_call : History size m m
  taken :
      {s t : Memory} (n flags : ℕ)
      → History size m s
      → n < size
      → flags ≢ 0
      → page_init n flags s ≡ some t
      → History size m t
  given_back :
      {s t : Memory} (n : ℕ)
      → History size m s
      → n < size
      → page_clean n s ≡ some t
      → History size m t

unfoldable pub calls : {size : ℕ} {m t : Memory} → History size m t → ℕ
calls no_call = 0
calls (taken n flags h lo nz run) = calls h + 1
calls (given_back n h lo run) = calls h + 1

-- Every page of the array is counted and the counters of the first `zones` zones are right; none of
-- these pages and zones has more than `most` references. `uncounted z` pages of zone `z` were never
-- counted as free.
pub record IsSound (size zones : ℕ) (uncounted : ℕ → ℕ) (most : ℕ) (m : Memory) : Type 0 where
  pub counted : (i : ℕ) → i < size → IsCounted (m.pages i)
  pub references : (i : ℕ) → i < size → (m.pages i).ref_cnt ≤ most
  pub accounted : (z : ℕ) → z < zones → IsAccounted size (uncounted z) z m
  pub links : (z : ℕ) → z < zones → (m.zones z).total_page_lnk ≤ most

module _ (size zones most n : ℕ) (uncounted : ℕ → ℕ) (m m' : Memory) (in_range : n < size)
    (word : size < 2 ^ 64) (small : most + 1 < 2 ^ 64)
    (sound : IsSound size zones uncounted most m) where
  pub page_init-IsSound :
      (flags : ℕ)
      → flags ≢ 0
      → page_init n flags m ≡ some m'
      → IsSound size zones uncounted (most + 1) m'
  unfolding page_init
  page_init-IsSound flags nz run = record {
    counted = λ i lt.
        page_init-IsCounted n flags m i run nz (omega (arith, sound.references n in_range, small))
          (sound.counted n in_range) (sound.counted i lt);
    references = λ i lt. ground (arith, sound.references i lt, sound.references n in_range, small);
    accounted = λ z lz.
        page_init-IsAccounted size (uncounted z) z n flags m m' in_range word run nz
          (omega (arith, sound.links z lz, small)) (sound.accounted z lz);
    links = λ z lz. ground (arith, sound.links z lz, small);
  }

  page_clean-IsSound : page_clean n m ≡ some m' → IsSound size zones uncounted (most + 1) m'
  unfolding page_clean links_in
  page_clean-IsSound run = record {
    counted =
        λ i lt. page_clean-IsCounted n m i run (sound.counted n in_range) (sound.counted i lt);
    references = λ i lt. ground (
      arith,
      sound.references i lt,
      sound.references n in_range,
      (sound.counted n in_range).in_use,
    );
    accounted = accounted;
    links = λ z lz. ground (
      arith,
      sound.links z lz,
      (sound.accounted z lz).links,
      (accounted z lz).links,
      (sound.counted n in_range).in_use,
      (sound.counted n in_range).unused,
      change_pages size (links_in z) m.pages m'.pages n in_range (page_clean_same n m run),
    );
  }
    where
      accounted : (z : ℕ) → z < zones → IsAccounted size (uncounted z) z m'
      accounted z lz =
          page_clean-IsAccounted size (uncounted z) z n m m' in_range word run
            (omega (arith, sound.links z lz, small)) (sound.counted n in_range)
            (sound.accounted z lz)

-- Suppose that every page of the array is unused with no reference, used once, or shared with at
-- least one reference, that the counters of the first `zones` zones are the numbers of their unused
-- pages, used pages and references, and that none of these pages and zones has more than `most`
-- references. Then the same holds after any sequence of `page_init`, each with some attribute, and
-- `page_clean` on pages of the array, with `most` and the number of calls as the new bound, if that
-- bound and the size of the array are below 2 ^ 64.
pub History-IsSound :
    (size zones most : ℕ) (uncounted : ℕ → ℕ) (m t : Memory) (h : History size m t)
    → size < 2 ^ 64
    → most + calls h < 2 ^ 64
    → IsSound size zones uncounted most m
    → IsSound size zones uncounted (most + calls h) t
unfolding calls
History-IsSound size zones most uncounted m t no_call word small sound =
    subst (λ b. IsSound size zones uncounted b m) (omega arith) sound
History-IsSound size zones most uncounted m t (taken {s} n flags h lo nz run) word small sound =
    let before =
      History-IsSound size zones most uncounted m s h word (omega (arith, small)) sound in
    subst (λ b. IsSound size zones uncounted b t) (omega arith)
      (page_init-IsSound size zones (most + calls h) n uncounted s t lo word (omega (arith, small))
        before flags nz run)
History-IsSound size zones most uncounted m t (given_back {s} n h lo run) word small sound =
    let before =
      History-IsSound size zones most uncounted m s h word (omega (arith, small)) sound in
    subst (λ b. IsSound size zones uncounted b t) (omega arith)
      (page_clean-IsSound size zones (most + calls h) n uncounted s t lo word (omega (arith, small))
        before run)
