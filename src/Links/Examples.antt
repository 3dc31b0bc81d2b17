-- ===== src/Links/Examples.antt =====
-- A list of one node, and one that is alone.
use oslib.Prelude.{zero, suc, refl, arith, [], ◌∷◌}
use oslib.Links.{Store, list_del}
use oslib.Links.Queue.{Chain, Avoids, IsQueue, list_del-IsQueue}

-- Nodes 0 and 1 follow each other.
abbrev pair : Store
pair zero = record { prev = 1; next = 1 }
pair (suc zero) = record { prev = 0; next = 0 }
pair (suc (suc n)) = record { prev = suc (suc n); next = suc (suc n) }

pair-IsQueue : IsQueue pair 0 (1 ∷ [])
unfolding Chain Avoids
pair-IsQueue = record {
  chain = (record { forth = refl; back = refl }, record { forth = refl; back = refl });
  apart = (omega arith, tt);
}

list_del-IsQueue_example : IsQueue (list_del 1 pair) 0 []
unfolding Avoids
list_del-IsQueue_example = list_del-IsQueue pair 0 1 [] [] pair-IsQueue (omega arith) tt tt
