-- ===== src/Memory/Page/Effect.antt =====
-- Which pages `page_init` and `page_clean` change.
use oslib.Prelude.{ℕ, ◌≡◌, ◌≢◌, ◌⊎◌, arith, some}
use oslib.Memory.Types.{Memory}
use oslib.Memory.Page.{page_init, page_clean}
use oslib.Memory.Page.Shared.{bit_or-ne-zero}

pub page_init_same :
    (n flags : ℕ) (m : Memory) {m' : Memory}
    → page_init n flags m ≡ some m'
    → (i : ℕ) → i ≢ n
    → m'.pages i ≡ m.pages i
unfolding page_init
page_init_same n flags m run i ne = ground arith

pub page_init_used :
    (n flags : ℕ) (m : Memory) {m' : Memory} (i : ℕ)
    → page_init n flags m ≡ some m'
    → flags ≢ 0
    → (i ≡ n) ⊎ ((m.pages i).attribute ≢ 0)
    → (m'.pages i).attribute ≢ 0
unfolding page_init
page_init_used n flags m i run nz h = ground (arith, bit_or-ne-zero (m.pages n).attribute flags)

pub page_clean_same :
    (n : ℕ) (m : Memory) {m' : Memory}
    → page_clean n m ≡ some m'
    → (i : ℕ) → i ≢ n
    → m'.pages i ≡ m.pages i
unfolding page_clean
page_clean_same n m run i ne = ground arith
