-- ===== src/Memory/Page.antt =====
-- `page_init` and `page_clean` of cOS/kernel/src/memory.c, on the page structure at an index.
-- `none` is the write through a null `zone_struct`.
pub mod Shared
pub mod Effect
pub mod Counts
pub mod Accounts
pub mod History
pub mod Marked
pub mod Restore
use oslib.Prelude.{ℕ, Option, some, Bool, not, ◌||◌, ◌==◌, if◌then◌else◌, ◌>>=◌, bit_and, bit_or}
use oslib.Prelude.Words.{add64, sub64, ◌>>>◌}
use oslib.Memory.Types.{
  Page, Zone, Memory, update, mark_used, mark_free, page_2m_shift, pg_referenced, pg_k_share_to_u,
}

-- `attribute & PG_Referenced || attribute & PG_K_Share_To_U`
unfoldable pub is_shared : ℕ → Bool
is_shared a = not (bit_and a pg_referenced == 0) || not (bit_and a pg_k_share_to_u == 0)

abbrev pub page_number : Page → ℕ
page_number p = p.phy_addr >>> page_2m_shift

unfoldable pub page_init : ℕ → ℕ → Memory → Option Memory
page_init n flags m =
    let p = m.pages n in
    if p.attribute == 0
    then (do
      z ← p.zone_struct
      let zone = m.zones z
      some (record m {
        bits = mark_used m.bits (page_number p);
        pages = update m.pages n (record p { attribute = flags; ref_cnt = add64 p.ref_cnt 1 });
        zones = update m.zones z (record zone {
          page_using_cnt = add64 zone.page_using_cnt 1;
          page_free_cnt = sub64 zone.page_free_cnt 1;
          total_page_lnk = add64 zone.total_page_lnk 1;
        });
      }))
    else if is_shared p.attribute || is_shared flags
    then (do
      z ← p.zone_struct
      let zone = m.zones z
      some (record m {
        pages =
            update m.pages n
              (record p { attribute = bit_or p.attribute flags; ref_cnt = add64 p.ref_cnt 1 });
        zones = update m.zones z (record zone { total_page_lnk = add64 zone.total_page_lnk 1 });
      }))
    else some (record m {
      bits = mark_used m.bits (page_number p);
      pages = update m.pages n (record p { attribute = bit_or p.attribute flags });
    })

-- The shared page after one reference is dropped: `last` says that it was the last one.
drop_reference : Bool → ℕ → ℕ → Memory → Memory
drop_reference last n z m =
    let p = m.pages n in
    let zone = m.zones z in
    let link = sub64 zone.total_page_lnk 1 in
    if last
    then record m {
      pages = update m.pages n (record p { attribute = 0; ref_cnt = sub64 p.ref_cnt 1 });
      zones = update m.zones z (record zone {
        page_using_cnt = sub64 zone.page_using_cnt 1;
        page_free_cnt = add64 zone.page_free_cnt 1;
        total_page_lnk = link;
      });
    }
    else record m {
      pages = update m.pages n (record p { ref_cnt = sub64 p.ref_cnt 1 });
      zones = update m.zones z (record zone { total_page_lnk = link });
    }

unfoldable pub page_clean : ℕ → Memory → Option Memory
unfolding drop_reference
page_clean n m =
    let p = m.pages n in
    if p.attribute == 0
    then some (record m { pages = update m.pages n (record p { attribute = 0 }) })
    else if is_shared p.attribute
    then (do z ← p.zone_struct; some (drop_reference (sub64 p.ref_cnt 1 == 0) n z m))
    else (do
      z ← p.zone_struct
      let zone = m.zones z
      some (record m {
        bits = mark_free m.bits (page_number p);
        pages = update m.pages n (record p { attribute = 0; ref_cnt = 0 });
        zones = update m.zones z (record zone {
          page_using_cnt = sub64 zone.page_using_cnt 1;
          page_free_cnt = add64 zone.page_free_cnt 1;
          total_page_lnk = sub64 zone.total_page_lnk 1;
        });
      }))
