-- ===== src/Prelude/Sums.antt =====
-- Sums of a function over the numbers below a bound.
use Prim.Native.Nat.{ℕ, zero, suc, ◌+◌, ◌≤◌, ◌<◌}
use mathlib.Core.Path.{◌≡◌, refl, ap, ap₂}
use mathlib.Core.Logic.{◌≢◌}
use native.Mathlib.Omega.{arith}
use native.Mathlib.Decide.{ℕ_discrete}

unfoldable pub total : ℕ → (ℕ → ℕ) → ℕ
total zero f = 0
total (suc n) f = total n f + f n

pub total_congr : (n : ℕ) (f g : ℕ → ℕ) → ((i : ℕ) → i < n → f i ≡ g i) → total n f ≡ total n g
unfolding total
total_congr zero f g h = refl
total_congr (suc n) f g h =
    ap₂ ◌+◌ (total_congr n f g (λ i l. h i (omega arith))) (h n (omega arith))

-- A change at one number changes the sum by as much.
pub total_change :
    (n : ℕ) (f g : ℕ → ℕ) (k : ℕ)
    → k < n
    → ((i : ℕ) → i ≢ k → f i ≡ g i)
    → total n g + f k ≡ total n f + g k
unfolding total
total_change zero f g k l h = absurd (omega arith)
total_change (suc n) f g k l h = elim (ℕ_discrete k n) [
  | yes e ↦ omega (arith, total_congr n f g (λ i b. h i (omega arith)), ap f e, ap g e)
  | no ne ↦ omega (arith, total_change n f g k (omega arith) h, h n (λ e. ne (omega arith)))
]

pub total-le : (n : ℕ) (f : ℕ → ℕ) → ((i : ℕ) → f i ≤ 1) → total n f ≤ n
unfolding total
total-le zero f h = omega arith
total-le (suc n) f h = omega (arith, total-le n f h, h n)

pub le-total : (n : ℕ) (f : ℕ → ℕ) (k : ℕ) → k < n → f k ≤ total n f
unfolding total
le-total zero f k l = absurd (omega arith)
le-total (suc n) f k l = elim (ℕ_discrete k n) [
  | yes e ↦ omega (arith, ap f e)
  | no ne ↦ omega (arith, le-total n f k (omega arith))
]
