-- ===== src/Prelude/Checks.antt =====
-- Facts on all small numbers by computing a test.
use Prim.Native.Nat.{ℕ, zero, suc, ◌<◌}
use mathlib.Core.Path.{◌≡◌, ap, ◌∙◌}
use mathlib.Core.Bool.{Bool, true, false, ◌&&◌}
use mathlib.Core.Option.{Option, none, some}
use native.Mathlib.Omega.{arith}
use native.Mathlib.Decide.{ℕ_discrete}
use oslib.Prelude.Tests.{◌==◌}

-- A test that holds below a bound.
abbrev pub all_below : ℕ → (ℕ → Bool) → Bool
all_below zero test = true
all_below (suc n) test = test n && all_below n test

pub all_below_lem :
    (n : ℕ) (test : ℕ → Bool) (i : ℕ) → all_below n test ≡ true → i < n → test i ≡ true
all_below_lem zero test i e h = absurd (omega arith)
all_below_lem (suc n) test i e h = elim (ℕ_discrete i n) [
  | yes same ↦ ap test same ∙ ground (arith, e)
  | no other ↦ all_below_lem n test i (ground (arith, e)) (omega (arith, other))
]

-- The option holds the number.
abbrev pub is_some_of : Option ℕ → ℕ → Bool
is_some_of none c = false
is_some_of (some d) c = d == c

pub is_some_of-eq : (o : Option ℕ) (c : ℕ) → is_some_of o c ≡ true → o ≡ some c
is_some_of-eq none c e = absurd (ground (arith, e))
is_some_of-eq (some d) c e = ap some (ground (arith, e))
