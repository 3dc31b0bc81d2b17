-- ===== src/Links/Ring.antt =====
-- The links of a ring agree with each other, and the operations keep that.
use oslib.Prelude.{ℕ, ◌≡◌, ◌≢◌, arith}
use oslib.Links.{Store, list_init, list_add_to_behind, list_add_to_before, list_del}

-- The neighbours of a node point back to it.
pub record IsLinked (s : Store) (n : ℕ) : Type 0 where
  pub behind : (s (s n).next).prev ≡ n
  pub before : (s (s n).prev).next ≡ n

-- A node that points to itself both ways.
pub record IsAlone (s : Store) (n : ℕ) : Type 0 where
  pub next_itself : (s n).next ≡ n
  pub prev_itself : (s n).prev ≡ n

-- `y` follows `x`.
pub record IsNext (s : Store) (x y : ℕ) : Type 0 where
  pub forth : (s x).next ≡ y
  pub back : (s y).prev ≡ x

module _ (entry new : ℕ) (s : Store) (alone : IsAlone s new) (apart : entry ≢ new)
    (ring : (n : ℕ) → IsLinked s n) where
  -- If every node is linked, adding a node that is alone behind another one keeps every node linked.
  list_add_to_behind-IsLinked : (n : ℕ) → IsLinked (list_add_to_behind entry new s) n
  unfolding list_add_to_behind
  list_add_to_behind-IsLinked n = record {
    behind = ground (arith, apart, alone, ring n, ring entry, ring new);
    before = ground (arith, apart, alone, ring n, ring entry, ring new);
  }

  -- If every node is linked, adding a node that is alone before another one keeps every node linked.
  list_add_to_before-IsLinked : (n : ℕ) → IsLinked (list_add_to_before entry new s) n
  unfolding list_add_to_before
  list_add_to_before-IsLinked n = record {
    behind = ground (arith, apart, alone, ring n, ring entry, ring new);
    before = ground (arith, apart, alone, ring n, ring entry, ring new);
  }

  -- If every node is linked, a node that was alone stands between the entry and what followed the
  -- entry, after it was added behind it.
  list_add_to_behind-IsNext :
      IsNext (list_add_to_behind entry new s) entry new
      × IsNext (list_add_to_behind entry new s) new (s entry).next
  unfolding list_add_to_behind
  list_add_to_behind-IsNext = (
    record {
      forth = ground (arith, apart, alone, ring entry, ring new);
      back = ground (arith, apart, alone, ring entry, ring new);
    },
    record {
      forth = ground (arith, apart, alone, ring entry, ring new);
      back = ground (arith, apart, alone, ring entry, ring new);
    },
  )

  -- If every node is linked, `list_del` undoes `list_add_to_behind` of a node that was alone: every
  -- other node has the links that it had.
  list_del-list_add_to_behind :
      (i : ℕ)
      → i ≢ new
      → let t = list_del new (list_add_to_behind entry new s) in
        ((t i).next ≡ (s i).next) × ((t i).prev ≡ (s i).prev)
  unfolding list_del list_add_to_behind
  list_del-list_add_to_behind i other = (
    ground (arith, apart, alone, ring entry, ring new),
    ground (arith, apart, alone, ring entry, ring new),
  )

-- If every node is linked, deleting one and initialising it anew keeps every node linked, and leaves
-- that one alone.
list_init-list_del-IsLinked :
    (entry : ℕ) (s : Store) (n : ℕ)
    → ((i : ℕ) → IsLinked s i)
    → let t = list_init entry (list_del entry s) in IsLinked t n × IsAlone t entry
unfolding list_init list_del
list_init-list_del-IsLinked entry s n ring = (
  record {
    behind = ground (arith, ring n, ring entry);
    before = ground (arith, ring n, ring entry);
  },
  record {
    next_itself = ground (arith, ring n, ring entry);
    prev_itself = ground (arith, ring n, ring entry);
  },
)
