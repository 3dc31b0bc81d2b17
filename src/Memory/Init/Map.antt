-- ===== src/Memory/Init/Map.antt =====
-- The copy of the memory map: how many entries it takes, and which.
use mathlib.Core.Path.{subst}
use native.Mathlib.Decide.{ℕ_discrete}
use oslib.Prelude.{
  ℕ, zero, suc, ◌+◌, ◌%◌, ◌^◌, ◌≤◌, ◌<◌, ◌≡◌, ◌≢◌, ◌⊎◌, refl, sym, ap, ◌∙◌, arith, true, false,
  Bool-cases, inl, inr,
}
use oslib.Memory.Types.{E820, Memory, update}
use oslib.Memory.Init.{ends_map, copy_entry, copy_map}

-- An entry of the map describes memory: its type is one of the four that there are, and it has a
-- length.
abbrev pub IsRegion : E820 → Type 0
IsRegion e = (1 ≤ e.type) × (e.type ≤ 4) × (e.len ≢ 0)

-- The new entry has the type of the map's, and its address and length are added to those of the old.
pub record IsAdded (old p new : E820) : Type 0 where
  pub addr : new.addr ≡ (old.addr + p.addr) % 2 ^ 64
  pub len : new.len ≡ (old.len + p.len) % 2 ^ 64
  pub type : new.type ≡ p.type

-- `r` is `m` with the entries from `i` on taken in, at least one and at most `left`: up to the first
-- later entry that describes no memory.
pub record IsCopy (left i : ℕ) (bios : ℕ → E820) (m r : Memory) : Type 0 where
  pub some_entry : i < r.e820_len
  pub in_table : r.e820_len ≤ i + left
  pub copied : (j : ℕ) → i ≤ j → j < r.e820_len → IsAdded (m.e820 j) (bios j) (r.e820 j)
  pub same : (j : ℕ) → (j < i) ⊎ (r.e820_len ≤ j) → r.e820 j ≡ m.e820 j
  pub valid : (j : ℕ) → i < j → j < r.e820_len → IsRegion (bios j)
  pub stopped : (r.e820_len ≡ i + left) ⊎ (IsRegion (bios r.e820_len) → ⊥)

added : (old p new : E820) → new ≡ copy_entry old p → IsAdded old p new
added old p new e = record {
  addr = ap (λ (q : E820). q.addr) e;
  len = ap (λ (q : E820). q.len) e;
  type = ap (λ (q : E820). q.type) e;
}

region : (e : E820) → ends_map e ≡ false → IsRegion e
region e goes = ground (arith, goes)

no_region : (e : E820) → ends_map e ≡ true → IsRegion e → ⊥
no_region e ends r = ground (arith, ends, r)

module _ (i : ℕ) (bios : ℕ → E820) (m : Memory) where
  abbrev step : Memory
  step = record m { e820 = update m.e820 i (copy_entry (m.e820 i) (bios i)); e820_len = i + 1 }

  last_entry :
      (left : ℕ) → (left ≡ 0) ⊎ (ends_map (bios (i + 1)) ≡ true) → IsCopy (suc left) i bios m step
  last_entry left h = record {
    some_entry = omega arith;
    in_table = omega arith;
    copied = λ j lo hi. added (m.e820 j) (bios j) (step.e820 j) (ground (arith, lo, hi));
    same = λ j out. ground arith;
    valid = λ j lo hi. absurd (omega arith);
    stopped = ends h;
  }
    where
      ends :
          (left ≡ 0) ⊎ (ends_map (bios (i + 1)) ≡ true)
          → (i + 1 ≡ i + suc left) ⊎ (IsRegion (bios (i + 1)) → ⊥)
      ends (inl all) = inl (omega (arith, all))
      ends (inr stop) = inr (no_region (bios (i + 1)) stop)

  more_entries :
      (left : ℕ) {r : Memory}
      → ends_map (bios (i + 1)) ≡ false
      → IsCopy (suc left) (i + 1) bios step r
      → IsCopy (suc (suc left)) i bios m r
  more_entries left {r} goes rest = record {
    some_entry = omega (arith, rest.some_entry);
    in_table = omega (arith, rest.in_table);
    copied = λ j lo hi. elim (ℕ_discrete j i) [
      | yes here ↦
          added (m.e820 j) (bios j) (r.e820 j)
            (rest.same j (inl (omega (arith, here))) ∙ ground (arith, here))
      | no later ↦
          let old : step.e820 j ≡ m.e820 j = ground (arith, later) in
          subst (λ e. IsAdded e (bios j) (r.e820 j)) old
            (rest.copied j (omega (arith, lo, later)) hi)
    ];
    same = λ j out. ground (arith, rest.same j);
    valid = λ j lo hi. elim (ℕ_discrete j (i + 1)) [
      | yes here ↦ subst (λ n. IsRegion (bios n)) (sym here) (region (bios (i + 1)) goes)
      | no later ↦ rest.valid j (omega (arith, lo, later)) hi
    ];
    stopped = longer rest.stopped;
  }
    where
      longer :
          (r.e820_len ≡ i + 1 + suc left) ⊎ (IsRegion (bios r.e820_len) → ⊥)
          → (r.e820_len ≡ i + suc (suc left)) ⊎ (IsRegion (bios r.e820_len) → ⊥)
      longer (inl all) = inl (omega (arith, all))
      longer (inr stop) = inr stop

-- The loop over the memory map from entry `i` on takes in at least one entry and at most those to
-- the end of the table, up to the first later one that has no length or none of the four types: the
-- type is the map's, and address and length are added to those that the table held. No other entry
-- changes.
pub copy_map-IsCopy :
    (left i : ℕ) (bios : ℕ → E820) (m : Memory)
    → IsCopy (suc left) i bios m (copy_map (suc left) i bios m)
unfolding copy_map
copy_map-IsCopy zero i bios m = elim (Bool-cases (ends_map (bios (i + 1)))) [
  | inl ends ↦ rw ends (last_entry i bios m 0 (inl refl))
  | inr goes ↦ rw goes (last_entry i bios m 0 (inl refl))
]
copy_map-IsCopy (suc left) i bios m = elim (Bool-cases (ends_map (bios (i + 1)))) [
  | inl ends ↦ rw ends (last_entry i bios m (suc left) (inr ends))
  | inr goes ↦
      rw goes (more_entries i bios m left goes (copy_map-IsCopy left (i + 1) bios (step i bios m)))
]
