-- ===== src/Memory/Page/Restore.antt =====
-- `page_init` and `page_clean` of cOS/kernel/src/memory.c, one after the other.
use mathlib.Core.Path.{fun_ext}
use oslib.Prelude.{
  ℕ, ◌%◌, ◌^◌, ◌<◌, ◌≡◌, ◌≢◌, refl, ap, ◌∙◌, arith, some, true, false, ◌>>=◌, bit_and, bit_or,
}
use oslib.Prelude.Words.{add64, sub64, not64, ◌>>>◌}
use oslib.Prelude.Bits.{bit, bit-bit_or, bit-bit_and, bit-pow, bit-complement, bit-le-one, bits_ext}
use oslib.Prelude.Bits.Bounds.{bit_and-le, pow-lt-pow}
use oslib.Memory.Types.{Page, Zone, Memory, update, page_bit, mark_used, mark_free}
use oslib.Memory.Page.{is_shared, page_number, page_init, page_clean}

set_then_clear :
    (w k : ℕ) → w < 2 ^ 64 → k < 64 → bit k w ≡ 0 → bit_and (bit_or w (2 ^ k)) (not64 (2 ^ k)) ≡ w
set_then_clear w k h l e =
    bits_ext 64 _ w (omega (arith, bit_and-le (bit_or w (2 ^ k)) (not64 (2 ^ k)))) h λ j b. ground (
      arith,
      bit-bit_and j (bit_or w (2 ^ k)) (not64 (2 ^ k)),
      bit-bit_or j w (2 ^ k),
      bit-pow j k,
      bit-complement 64 j (2 ^ k) (pow-lt-pow k 64 l),
      bit-le-one j w,
    )

-- A page with a right zone that is unused, and whose bit is clear.
pub record IsFree (n z : ℕ) (m : Memory) : Type 0 where
  pub unused : (m.pages n).attribute ≡ 0
  pub unreferenced : (m.pages n).ref_cnt ≡ 0
  pub zone : (m.pages n).zone_struct ≡ some z
  pub word : m.bits (page_number (m.pages n) >>> 6) < 2 ^ 64
  pub clear : page_bit m.bits (page_number (m.pages n)) ≡ 0
  pub using : (m.zones z).page_using_cnt < 2 ^ 64
  pub free : (m.zones z).page_free_cnt < 2 ^ 64
  pub links : (m.zones z).total_page_lnk < 2 ^ 64

mark_free-mark_used :
    (bits : ℕ → ℕ) (n : ℕ)
    → bits (n >>> 6) < 2 ^ 64
    → page_bit bits n ≡ 0
    → mark_free (mark_used bits n) n ≡ bits
mark_free-mark_used bits n h e =
    fun_ext λ i. ground (arith, set_then_clear (bits (n >>> 6)) (n % 64) h (omega arith) e)

taken : ℕ → ℕ → ℕ → Memory → Memory
taken n flags z m = record m {
  bits = mark_used m.bits (page_number (m.pages n));
  pages = update m.pages n (record (m.pages n) { attribute = flags; ref_cnt = 1 });
  zones = update m.zones z (record (m.zones z) {
    page_using_cnt = add64 (m.zones z).page_using_cnt 1;
    page_free_cnt = sub64 (m.zones z).page_free_cnt 1;
    total_page_lnk = add64 (m.zones z).total_page_lnk 1;
  });
}

rebuild :
    (m : Memory) (b : ℕ → ℕ) (p : ℕ → Page) (z : ℕ → Zone)
    → b ≡ m.bits
    → p ≡ m.pages
    → z ≡ m.zones
    → record m { bits = b; pages = p; zones = z } ≡ m
rebuild m b p z e f g = λ i. record m { bits = e i; pages = f i; zones = g i }

update-update : {A : Type 0} (f : ℕ → A) (n : ℕ) (v w : A) → f n ≡ w → update (update f n v) n w ≡ f
update-update f n v w e = fun_ext λ i. ground arith

module _ (n flags z : ℕ) (m : Memory) (f : IsFree n z m) where
  page_init_free : page_init n flags m ≡ some (taken n flags z m)
  unfolding page_init taken
  page_init_free = ground (arith, f.unused, f.unreferenced, f.zone)

  abbrev cleaned : Page
  cleaned = record (m.pages n) { attribute = 0; ref_cnt = 0 }

  abbrev given_back : Zone
  given_back = record (m.zones z) {
    page_using_cnt = sub64 (add64 (m.zones z).page_using_cnt 1) 1;
    page_free_cnt = add64 (sub64 (m.zones z).page_free_cnt 1) 1;
    total_page_lnk = sub64 (add64 (m.zones z).total_page_lnk 1) 1;
  }

  abbrev restored : Memory
  restored =
      let number = page_number (m.pages n) in
      let t = taken n flags z m in
      record m {
        bits = mark_free (mark_used m.bits number) number;
        pages = update t.pages n cleaned;
        zones = update t.zones z given_back;
      }

  page_clean-taken :
      flags ≢ 0 → is_shared flags ≡ false → page_clean n (taken n flags z m) ≡ some restored
  unfolding page_clean taken
  page_clean-taken nz own = ground (arith, f.zone)

  restored_lem : restored ≡ m
  unfolding taken
  restored_lem =
      rebuild m _ _ _ (mark_free-mark_used m.bits (page_number (m.pages n)) f.word f.clear)
        (update-update m.pages n _ cleaned (ground (arith, f.unused, f.unreferenced)))
        (update-update m.zones z _ given_back (ground (arith, f.using, f.free, f.links)))

  -- What giving back a shared page makes of it.
  abbrev marked_only : Memory
  marked_only = record restored { bits = mark_used m.bits (page_number (m.pages n)) }

  page_clean-shared :
      flags ≢ 0 → is_shared flags ≡ true → page_clean n (taken n flags z m) ≡ some marked_only
  unfolding page_clean taken
  page_clean-shared nz shared = ground (arith, f.zone, nz, shared)

  still_marked : marked_only ≡ record m { bits = mark_used m.bits (page_number (m.pages n)) }
  unfolding taken
  still_marked =
      rebuild (record m { bits = mark_used m.bits (page_number (m.pages n)) }) _ _ _ refl
        (update-update m.pages n _ cleaned (ground (arith, f.unused, f.unreferenced)))
        (update-update m.zones z _ given_back (ground (arith, f.using, f.free, f.links)))

marked : (bits : ℕ → ℕ) (n : ℕ) → page_bit (mark_used bits n) n ≡ 1
marked bits n = ground (
  arith,
  bit-bit_or (n % 64) (bits (n >>> 6)) (2 ^ (n % 64)),
  bit-pow (n % 64) (n % 64),
  bit-le-one (n % 64) (bits (n >>> 6)),
)

-- `page_clean` undoes `page_init`: a free page that is taken with attributes that do not make it
-- shared, and then given back, leaves the whole state as it was.
pub page_clean-page_init :
    (n flags z : ℕ) (m : Memory)
    → IsFree n z m
    → flags ≢ 0
    → is_shared flags ≡ false
    → (page_init n flags m >>= page_clean n) ≡ some m
page_clean-page_init n flags z m f nz own =
    rw (page_init_free n flags z m f)
      (page_clean-taken n flags z m f nz own ∙ ap some (restored_lem n flags z m f))

-- A free page that is taken with attributes that make it shared, and then given back, leaves the
-- whole state as it was but for its bit in the bitmap, which stays set.
pub page_clean-page_init_shared :
    (n flags z : ℕ) (m : Memory)
    → IsFree n z m
    → flags ≢ 0
    → is_shared flags ≡ true
    → let number = page_number (m.pages n) in
      ((page_init n flags m >>= page_clean n) ≡ some (record m { bits = mark_used m.bits number }))
      × (page_bit (mark_used m.bits number) number ≡ 1)
page_clean-page_init_shared n flags z m f nz shared =
    let number = page_number (m.pages n) in
    (
      rw (page_init_free n flags z m f)
          (page_clean-shared n flags z m f nz shared ∙ ap some (still_marked n flags z m f)),
      marked m.bits number,
    )
