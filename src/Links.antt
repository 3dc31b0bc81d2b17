-- ===== src/Links.antt =====
-- The doubly linked lists of cOS/kernel/include/lib.h. The store gives the two links of the node at
-- an address, and each assignment of the code is a store of its own, in the code's order; the null
-- pointer is address 0.
pub mod Ring
pub mod Queue
mod Examples
use oslib.Prelude.{ℕ, Bool, ◌==◌, ◌&&◌, if◌then◌else◌}
use oslib.Memory.Types.{update}

pub record Links : Type 0 where
  pub prev : ℕ
  pub next : ℕ

abbrev pub Store : Type 0
Store = ℕ → Links

abbrev pub set_prev : ℕ → ℕ → Store → Store
set_prev p v s = update s p (record (s p) { prev = v })

abbrev pub set_next : ℕ → ℕ → Store → Store
set_next p v s = update s p (record (s p) { next = v })

unfoldable pub list_init : ℕ → Store → Store
list_init list s = let s = set_prev list list s in set_next list list s

pub list_add_to_behind : (entry new : ℕ) → Store → Store
list_add_to_behind entry new s =
    let s = set_next new (s entry).next s in
    let s = set_prev new entry s in let s = set_prev (s new).next new s in set_next entry new s

unfoldable pub list_add_to_before : (entry new : ℕ) → Store → Store
list_add_to_before entry new s =
    let s = set_next new entry s in
    let s = set_next (s entry).prev new s in
    let s = set_prev new (s entry).prev s in set_prev entry new s

pub list_del : ℕ → Store → Store
list_del entry s =
    let s = set_prev (s entry).next (s entry).prev s in set_next (s entry).prev (s entry).next s

pub list_is_empty : ℕ → Store → Bool
list_is_empty entry s = entry == (s entry).next && (s entry).prev == entry

pub list_prev : ℕ → Store → ℕ
list_prev entry s = if (s entry).prev == 0 then 0 else (s entry).prev

unfoldable pub list_next : ℕ → Store → ℕ
list_next entry s = if (s entry).next == 0 then 0 else (s entry).next
