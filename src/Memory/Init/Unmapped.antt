-- ===== src/Memory/Init/Unmapped.antt =====
-- The low addresses that `init_memory` takes out of the page tables.
use oslib.Prelude.{ℕ, ◌+◌, ◌*◌, ◌/◌, ◌%◌, ◌^◌, ◌<◌, ◌≡◌, ap, ◌∙◌, arith, none, some, ◌>>=◌}
use oslib.Memory.Types.{E820, Memory}
use oslib.Memory.Paging.Walk.{entry, frame, at_page, translate}
use oslib.Memory.Init.{drop_low_mappings, init_memory}
use oslib.Memory.Init.Total.{last_page}
use oslib.Memory.Init.Placed.{init_memory-History}

low_entry :
    (bios : ℕ → E820) (cr3 i : ℕ) (m m' : Memory)
    → init_memory bios cr3 m ≡ some m'
    → i < 10
    → m'.pml4 i ≡ 0
unfolding drop_low_mappings
low_entry bios cr3 i m m' run low =
    let (t, calls, n, same) =
      init_memory-History bios cr3 (last_page bios m + 1) m m' run (omega arith) in
    ap (λ (m : Memory). m.pml4 i) same ∙ ground (arith, low)

absent : (words : ℕ → ℕ) (table i : ℕ) → words (table + 8 * i) ≡ 0 → entry words table i ≡ none
absent words table i e = ground (arith, e)

-- When `init_memory` has ended, the processor, whose page table has the entries that it left, finds
-- no page for an address of the first ten entries of 512 GB: an access through a null pointer is a
-- page fault.
pub init_memory-translate :
    (bios : ℕ → E820) (cr3 va : ℕ) (words : ℕ → ℕ) (m m' : Memory)
    → init_memory bios cr3 m ≡ some m'
    → ((i : ℕ) → i < 512 → words (cr3 + 8 * i) ≡ m'.pml4 i)
    → va < 10 * 2 ^ 39
    → translate words cr3 va ≡ none
unfolding translate
init_memory-translate bios cr3 va words m m' run table low =
    let i4 = va / 2 ^ 39 % 512 in
    let zero = table i4 (omega arith) ∙ low_entry bios cr3 i4 m m' run (omega (arith, low)) in
    ap
      (λ o. o >>= λ e4. entry words (frame e4) (va / 2 ^ 30 % 512) >>= λ e3.
        entry words (frame e3) (va / 2 ^ 21 % 512) >>= λ e2. at_page words e2 va)
      (absent words cr3 i4 zero)
