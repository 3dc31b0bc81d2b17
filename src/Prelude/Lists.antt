-- ===== src/Prelude/Lists.antt =====
-- C arrays as lists over the native numbers.
use Prim.Native.Nat.{ℕ, zero, suc, ◌+◌, ◌≤◌}
use mathlib.Core.Path.{◌≡◌, refl}
use mathlib.Core.List.{List, [], ◌∷◌, ◌++◌}
use mathlib.Core.Option.{Option, none, some}
use native.Mathlib.Omega.{arith}

module _ {ℓ} {A : Type ℓ} where
  abbrev pub length : List A → ℕ
  length [] = 0
  length (x ∷ xs) = suc (length xs)

  abbrev pub get_elem? : List A → ℕ → Option A
  get_elem? [] i = none
  get_elem? (x ∷ xs) zero = some x
  get_elem? (x ∷ xs) (suc i) = get_elem? xs i

  abbrev pub replicate : ℕ → A → List A
  replicate zero x = []
  replicate (suc n) x = x ∷ replicate n x

  pub length-append : (xs ys : List A) → length (xs ++ ys) ≡ length xs + length ys
  length-append [] ys = omega arith
  length-append (x ∷ xs) ys = omega (arith, length-append xs ys)

  pub length-replicate : (n : ℕ) (x : A) → length (replicate n x) ≡ n
  length-replicate zero x = refl
  length-replicate (suc n) x = omega (arith, length-replicate n x)

  abbrev pub take : ℕ → List A → List A
  take zero xs = []
  take (suc n) [] = []
  take (suc n) (x ∷ xs) = x ∷ take n xs

  -- The predicate holds of each element with its place.
  abbrev pub Each : List A → (ℕ → A → Type ℓ) → Type ℓ
  Each [] P = Unit
  Each (x ∷ xs) P = P 0 x × Each xs (λ i. P (suc i))

  -- What holds of each element, and behind the list of none, holds at every place.
  pub by_place :
      (xs : List A) (P : ℕ → Option A → Type ℓ)
      → Each xs (λ i x. P i (some x))
      → ((i : ℕ) → length xs ≤ i → P i none)
      → (i : ℕ) → P i (get_elem? xs i)
  by_place [] P each behind i = behind i (omega arith)
  by_place (x ∷ xs) P each behind zero = each.0
  by_place (x ∷ xs) P each behind (suc i) =
      by_place xs (λ j. P (suc j)) each.1 (λ j h. behind (suc j) (omega (arith, h))) i
