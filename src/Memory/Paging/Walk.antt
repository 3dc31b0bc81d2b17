-- ===== src/Memory/Paging/Walk.antt =====
-- What the processor makes of page tables whose entries the macros made, as its manual describes it.
use oslib.Prelude.{
  ℕ, ◌+◌, ◌*◌, ◌/◌, ◌%◌, ◌^◌, ◌<◌, ◌≡◌, ◌≢◌, refl, ap, ◌∙◌, arith, Option, none, some, ◌&&◌, ◌==◌,
  if◌then◌else◌, ◌>>=◌,
}
use oslib.Prelude.Bits.Flags.{bit_or-flags}
use oslib.Memory.Paging.{
  mk_mpl4t, set_mpl4t, mk_pdpt, set_pdpt, mk_pdt, set_pdt, page_kernel_gdt, page_kernel_dir,
  page_kernel_page,
}

-- Entry `i` of the table at an address, if it is present and may be written.
abbrev pub entry : (ℕ → ℕ) → (table i : ℕ) → Option ℕ
entry words table i =
    let e = words (table + 8 * i) in if e % 2 == 1 && e / 2 % 2 == 1 then some e else none

abbrev pub frame : ℕ → ℕ
frame e = e / 2 ^ 12 % 2 ^ 40 * 2 ^ 12

-- An entry of the third table ends the walk at a page of 2 MB, or leads to the last table.
abbrev pub at_page : (ℕ → ℕ) → (e2 va : ℕ) → Option ℕ
at_page words e2 va =
    if e2 / 2 ^ 7 % 2 == 1
    then some (e2 / 2 ^ 21 % 2 ^ 31 * 2 ^ 21 + va % 2 ^ 21)
    else entry words (frame e2) (va / 2 ^ 12 % 512) >>= λ e1. some (frame e1 + va % 2 ^ 12)

-- Where a store of the kernel at a virtual address goes; `none` is a page fault.
unfoldable pub translate : (ℕ → ℕ) → (cr3 va : ℕ) → Option ℕ
translate words cr3 va = entry words cr3 (va / 2 ^ 39 % 512) >>= λ e4.
    entry words (frame e4) (va / 2 ^ 30 % 512) >>= λ e3.
    entry words (frame e3) (va / 2 ^ 21 % 512) >>= λ e2. at_page words e2 va

-- The entries of three tables that lead from a virtual address to a page.
abbrev pub map_page : (pml4 pdpt pdt page va : ℕ) → (ℕ → ℕ) → ℕ → ℕ
map_page pml4 pdpt pdt page va words =
    set_mpl4t (pml4 + 8 * (va / 2 ^ 39 % 512)) (mk_mpl4t pdpt page_kernel_gdt) (
      set_pdpt (pdpt + 8 * (va / 2 ^ 30 % 512)) (mk_pdpt pdt page_kernel_dir)
        (set_pdt (pdt + 8 * (va / 2 ^ 21 % 512)) (mk_pdt page page_kernel_page) words))

entry-some :
    (words : ℕ → ℕ) (table i q attr : ℕ)
    → words (table + 8 * i) ≡ q * 2 ^ 12 + attr
    → attr % 4 ≡ 3
    → entry words table i ≡ some (q * 2 ^ 12 + attr)
entry-some words table i q attr e flags = ground (arith, e, flags)

-- If three different tables are at multiples of 4096 and the page is at a multiple of 2 MB, all
-- below 2 ^ 52, then the entries that the macros make of them and the kernel's attributes lead a
-- store of the kernel to its place in the page.
pub translate-map_page :
    (c p d g va : ℕ) (words : ℕ → ℕ)
    → p < 2 ^ 40
    → d < 2 ^ 40
    → g < 2 ^ 31
    → c ≢ p
    → p ≢ d
    → c ≢ d
    → translate
        (map_page (c * 2 ^ 12) (p * 2 ^ 12) (d * 2 ^ 12) (g * 2 ^ 21) va words)
        (c * 2 ^ 12)
        va
      ≡ some (g * 2 ^ 21 + va % 2 ^ 21)
unfolding translate
translate-map_page c p d g va words small_p small_d small_g cp pd cd =
    let words' = map_page (c * 2 ^ 12) (p * 2 ^ 12) (d * 2 ^ 12) (g * 2 ^ 21) va words in
    let i4 = va / 2 ^ 39 % 512 in
    let i3 = va / 2 ^ 30 % 512 in
    let i2 = va / 2 ^ 21 % 512 in
    let top : words' (c * 2 ^ 12 + 8 * i4) ≡ p * 2 ^ 12 + 3 =
      ground (arith, bit_or-flags 12 p 3 (omega arith)) in
    let middle : words' (p * 2 ^ 12 + 8 * i3) ≡ d * 2 ^ 12 + 3 =
      ground (arith, bit_or-flags 12 d 3 (omega arith), cp) in
    let page : words' (d * 2 ^ 12 + 8 * i2) ≡ g * 2 ^ 9 * 2 ^ 12 + 0x83 =
      ground (arith, bit_or-flags 21 g 0x83 (omega arith), pd, cd) in
    let frame4 : frame (p * 2 ^ 12 + 3) ≡ p * 2 ^ 12 = omega (arith, small_p) in
    let frame3 : frame (d * 2 ^ 12 + 3) ≡ d * 2 ^ 12 = omega (arith, small_d) in
    let e4 = entry-some words' (c * 2 ^ 12) i4 p 3 top refl in
    let e3 =
      ap (λ t. entry words' t i3) frame4 ∙ entry-some words' (p * 2 ^ 12) i3 d 3 middle refl in
    let e2 =
      ap (λ t. entry words' t i2) frame3
      ∙ entry-some words' (d * 2 ^ 12) i2 (g * 2 ^ 9) 0x83 page refl in
    let last : at_page words' (g * 2 ^ 9 * 2 ^ 12 + 0x83) va ≡ some (g * 2 ^ 21 + va % 2 ^ 21) =
      ground (arith, small_g) in
    ap
      (λ o. o >>= λ e4. entry words' (frame e4) i3 >>= λ e3.
        entry words' (frame e3) i2 >>= λ e2. at_page words' e2 va)
      e4
    ∙ ap (λ o. o >>= λ e3. entry words' (frame e3) i2 >>= λ e2. at_page words' e2 va) e3
    ∙ ap (λ o. o >>= λ e2. at_page words' e2 va) e2
    ∙ last
