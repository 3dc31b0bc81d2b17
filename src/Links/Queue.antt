-- ===== src/Links/Queue.antt =====
-- What a list holds, as a sequence of nodes, and what the operations do to it.
use oslib.Prelude.{ℕ, ◌≡◌, ◌≢◌, ap, ◌∙◌, sym, arith, List, [], ◌∷◌, ◌++◌}
use oslib.Links.{Links, Store, list_add_to_behind, list_add_to_before, list_del, list_init}
use oslib.Links.Ring.{IsNext}

-- From node `p` through the nodes of the list to node `q`, in both directions.
unfoldable pub Chain : Store → (p : ℕ) → List ℕ → (q : ℕ) → Type 0
Chain s p [] q = IsNext s p q
Chain s p (x ∷ xs) q = IsNext s p x × Chain s x xs q

unfoldable pub Avoids : ℕ → List ℕ → Type 0
Avoids n [] = Unit {0}
Avoids n (x ∷ xs) = (x ≢ n) × Avoids n xs

-- The list at `head` holds the nodes, `head` not among them.
pub record IsQueue (s : Store) (head : ℕ) (xs : List ℕ) : Type 0 where
  pub chain : Chain s head xs head
  pub apart : Avoids head xs

Chain-same :
    (s t : Store) (p q new : ℕ) (xs : List ℕ)
    → ((n : ℕ) → n ≢ new → t n ≡ s n)
    → p ≢ new
    → q ≢ new
    → Avoids new xs
    → Chain s p xs q
    → Chain t p xs q
unfolding Chain Avoids
Chain-same s t p q new [] same pn qn n c = record {
  forth = ap (λ (l : Links). l.next) (same p pn) ∙ c.forth;
  back = ap (λ (l : Links). l.prev) (same q qn) ∙ c.back;
}
Chain-same s t p q new (x ∷ xs) same pn qn (xn, n) (a, c) = (
  record {
    forth = ap (λ (l : Links). l.next) (same p pn) ∙ a.forth;
    back = ap (λ (l : Links). l.prev) (same x xn) ∙ a.back;
  },
  Chain-same s t x q new xs same xn qn n c,
)

-- The links of a node that is not in the list do not matter.
pub IsQueue-same :
    (s t : Store) (head new : ℕ) (xs : List ℕ)
    → ((n : ℕ) → n ≢ new → t n ≡ s n)
    → head ≢ new
    → Avoids new xs
    → IsQueue s head xs
    → IsQueue t head xs
IsQueue-same s t head new xs same other fresh queue = record {
  chain = Chain-same s t head head new xs same other other fresh queue.chain;
  apart = queue.apart;
}

Chain-last : (s : Store) (p q : ℕ) (xs : List ℕ) → Chain s p xs q → (s (s q).prev).next ≡ q
unfolding Chain
Chain-last s p q [] c = ground (arith, c.forth, c.back)
Chain-last s p q (x ∷ xs) (n, c) = Chain-last s x q xs c

module _ (s : Store) (head new : ℕ) (other : head ≢ new) where
  append-Chain :
      (p : ℕ) (xs : List ℕ)
      → p ≢ new
      → Chain s p xs head
      → Avoids head xs
      → Avoids new xs
      → Chain (list_add_to_before head new s) p (xs ++ new ∷ []) head
  unfolding list_add_to_before Chain Avoids
  append-Chain p [] ne c h n = (
    record {
      forth = ground (arith, c.forth, c.back, ne, other);
      back = ground (arith, c.forth, c.back, ne, other);
    },
    record {
      forth = ground (arith, c.forth, c.back, ne, other);
      back = ground (arith, c.forth, c.back, ne, other);
    },
  )
  append-Chain p (x ∷ xs) ne (a, c) (xh, h) (xn, n) = (
    record {
      forth = ground (arith, a.forth, Chain-last s x head xs c, ne, other, xh, xn);
      back = ground (arith, a.back, ne, other, xh, xn);
    },
    append-Chain x xs xn c h n,
  )

  -- The nodes from the first one on, whose predecessor changes.
  later-Chain :
      (p x : ℕ) (xs : List ℕ)
      → (s head).next ≡ x
      → (s x).prev ≡ head
      → p ≢ head
      → p ≢ new
      → x ≢ head
      → Chain s p xs head
      → Avoids head xs
      → Avoids new xs
      → Chain (list_add_to_behind head new s) p xs head
  unfolding list_add_to_behind Chain Avoids
  later-Chain p x [] first back ph pn xh c h n = record {
    forth = ground (arith, c.forth);
    back = ground (arith, c.back, first);
  }
  later-Chain p x (y ∷ xs) first back ph pn xh (a, c) (yh, h) (yn, n) = (
    record { forth = ground (arith, a.forth); back = ground (arith, a.back, first, back) },
    later-Chain y x xs first back yh yn xh c h n,
  )

  insert-Chain :
      (xs : List ℕ)
      → Chain s head xs head
      → Avoids head xs
      → Avoids new xs
      → Chain (list_add_to_behind head new s) head (new ∷ xs) head
  unfolding list_add_to_behind Chain Avoids
  insert-Chain [] c h n = (
    record { forth = ground arith; back = ground arith },
    record { forth = ground (arith, c.forth); back = ground (arith, c.forth) },
  )
  insert-Chain (x ∷ xs) (a, c) (xh, h) (xn, n) = (
    record { forth = ground (arith, a.forth); back = ground (arith, a.forth) },
    (
      record { forth = ground (arith, a.forth); back = ground (arith, a.forth) },
      later-Chain x x xs a.forth a.back xh xn xh c h n,
    ),
  )

module _ (s : Store) (head e : ℕ) (other : head ≢ e) where
  neighbours :
      (p : ℕ) (xs ys : List ℕ)
      → Chain s p (xs ++ e ∷ ys) head
      → ((s (s e).prev).next ≡ e) × ((s (s e).next).prev ≡ e)
  unfolding Chain
  neighbours p [] [] (a, c) = (ground (arith, a.forth, a.back), ground (arith, c.forth, c.back))
  neighbours p [] (y ∷ ys) (a, (b, c)) =
      (ground (arith, a.forth, a.back), ground (arith, b.forth, b.back))
  neighbours p (x ∷ xs) ys (a, c) = neighbours x xs ys c

  -- The nodes behind the deleted one.
  rest-Chain :
      (p : ℕ) (ys : List ℕ)
      → (s (s e).prev).next ≡ e
      → (s (s e).next).prev ≡ e
      → p ≢ e
      → Chain s p ys head
      → Avoids e ys
      → Chain (list_del e s) p ys head
  unfolding list_del Chain Avoids
  rest-Chain p [] before behind ne c n = record {
    forth = ground (arith, c.forth, before, behind);
    back = ground (arith, c.back, before, behind);
  }
  rest-Chain p (y ∷ ys) before behind ne (a, c) (ye, n) = (
    record {
      forth = ground (arith, a.forth, before, behind);
      back = ground (arith, a.back, before, behind);
    },
    rest-Chain y ys before behind ye c n,
  )

  delete-Chain :
      (p : ℕ) (xs ys : List ℕ)
      → (s (s e).prev).next ≡ e
      → (s (s e).next).prev ≡ e
      → p ≢ e
      → Chain s p (xs ++ e ∷ ys) head
      → Avoids e xs
      → Avoids e ys
      → Chain (list_del e s) p (xs ++ ys) head
  unfolding list_del Chain Avoids
  delete-Chain p [] [] before behind ne (a, c) nx ny = record {
    forth = ground (arith, a.forth, a.back, c.forth, c.back, ne, other);
    back = ground (arith, a.forth, a.back, c.forth, c.back, ne, other);
  }
  delete-Chain p [] (y ∷ ys) before behind ne (a, (b, c)) nx (ye, ny) = (
    record {
      forth = ground (arith, a.forth, a.back, b.forth, b.back, ne, ye);
      back = ground (arith, a.forth, a.back, b.forth, b.back, ne, ye);
    },
    rest-Chain y ys before behind ye c ny,
  )
  delete-Chain p (x ∷ xs) ys before behind ne (a, c) (xe, nx) ny = (
    record {
      forth = ground (arith, a.forth, before, behind, xe);
      back = ground (arith, a.back, before, behind, ne);
    },
    delete-Chain x xs ys before behind xe c nx ny,
  )

Avoids-append : (n : ℕ) (xs ys : List ℕ) → Avoids n xs → Avoids n ys → Avoids n (xs ++ ys)
unfolding Avoids
Avoids-append n [] ys h k = k
Avoids-append n (x ∷ xs) ys (xn, h) k = (xn, Avoids-append n xs ys h k)

Avoids-without : (n e : ℕ) (xs ys : List ℕ) → Avoids n (xs ++ e ∷ ys) → Avoids n (xs ++ ys)
unfolding Avoids
Avoids-without n e [] ys (en, h) = h
Avoids-without n e (x ∷ xs) ys (xn, h) = (xn, Avoids-without n e xs ys h)

module _ (s : Store) (head new : ℕ) (xs : List ℕ) (queue : IsQueue s head xs) (other : head ≢ new)
    (fresh : Avoids new xs) where
  -- `list_add_to_before` of the head puts a node that is not in the list at the end of it.
  pub list_add_to_before-IsQueue : IsQueue (list_add_to_before head new s) head (xs ++ new ∷ [])
  unfolding Avoids
  list_add_to_before-IsQueue = record {
    chain = append-Chain s head new other head xs other queue.chain queue.apart fresh;
    apart = Avoids-append head xs (new ∷ []) queue.apart (λ e. other (sym e), tt);
  }

  -- `list_add_to_behind` of the head puts a node that is not in the list at the front of it.
  list_add_to_behind-IsQueue : IsQueue (list_add_to_behind head new s) head (new ∷ xs)
  unfolding Avoids
  list_add_to_behind-IsQueue = record {
    chain = insert-Chain s head new other xs queue.chain queue.apart fresh;
    apart = (λ e. other (sym e), queue.apart);
  }

-- `list_del` takes a node other than the head, which the list holds once, out of the list, and the
-- others stay in their order.
pub list_del-IsQueue :
    (s : Store) (head e : ℕ) (xs ys : List ℕ)
    → IsQueue s head (xs ++ e ∷ ys)
    → head ≢ e
    → Avoids e xs
    → Avoids e ys
    → IsQueue (list_del e s) head (xs ++ ys)
list_del-IsQueue s head e xs ys queue other before behind =
    let (p, n) = neighbours s head e other head xs ys queue.chain in
    record {
      chain = delete-Chain s head e other head xs ys p n other queue.chain before behind;
      apart = Avoids-without head e xs ys queue.apart;
    }

-- A list that is initialised holds nothing.
list_init-IsQueue : (s : Store) (head : ℕ) → IsQueue (list_init head s) head []
unfolding list_init Chain Avoids
list_init-IsQueue s head = record {
  chain = record { forth = ground arith; back = ground arith };
  apart = tt;
}
