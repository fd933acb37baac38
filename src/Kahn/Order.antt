-- ===== src/Kahn/Order.antt =====
-- Positions in a list, and the orders in which every edge goes forward.
use apex_ai.Prelude.{
  ℕ, suc, ◌+◌, ◌≤◌, ◌<◌, ◌≡◌, refl, List, [], ◌∷◌, ◌++◌, Eq, ◌==◌, ==_iff, if◌then◌else◌, length,
  count, count-append, contains-count, nat_eq, arith,
}
use apex_ai.Kahn.Degrees.{edge_count, pending}

module _ {ℓ} {A : Type ℓ} ⦃e : Eq A⦄ where
  -- Where `a` stands first; the length of the list if it does not stand there.
  abbrev pub position : A → List A → ℕ
  position a [] = 0
  position a (x ∷ xs) = if x == a then 0 else suc (position a xs)

  -- Every edge to a node of the list starts before it.
  abbrev pub IsOrdered : List (A × A) → List A → Type ℓ
  IsOrdered edges order =
      (u v : A) → 0 < edge_count edges u v → 0 < count v order → position u order < position v order

  -- A topological order of a graph: its nodes, each as often, with every edge going forward.
  pub record IsTopological (nodes : List A) (edges : List (A × A)) (order : List A) : Type ℓ where
    pub same : (n : A) → count n order ≡ count n nodes
    pub before : (u v : A) → 0 < edge_count edges u v → position u order < position v order

module _ {ℓ} {A : Type ℓ} ⦃e : Eq A⦄ where
  position_le : (a : A) (xs : List A) → position a xs ≤ length xs
  position_le a [] = omega arith
  position_le a (x ∷ xs) = ground (arith, position_le a xs)

  position_lt : (a : A) (xs : List A) → 0 < count a xs → position a xs < length xs
  position_lt a [] h = absurd (omega arith)
  position_lt a (x ∷ xs) h = ground (arith, position_lt a xs)

  position_absent : (a : A) (xs : List A) → count a xs ≡ 0 → position a xs ≡ length xs
  position_absent a [] h = refl
  position_absent a (x ∷ xs) h = ground (arith, position_absent a xs)

  position_snoc :
      (a x : A) (xs : List A)
      → position a (xs ++ x ∷ [])
        ≡ (if 0 == count a xs then length xs + (if x == a then 0 else 1) else position a xs)
  position_snoc a x [] = ground arith
  position_snoc a x (y ∷ xs) = ground (arith, position_snoc a x xs)

  -- With nothing pending into a node, every edge into it starts at a visited node.
  visited_of_pending :
      (es : List (A × A)) (visited : List A) (u n : A)
      → pending es visited n ≡ 0
      → 0 < edge_count es u n
      → 0 < count u visited
  visited_of_pending [] visited u n p h = absurd (omega arith)
  visited_of_pending ((src, dst) ∷ es) visited u n p h = ground (
    arith,
    ==_iff src u,
    ==_iff dst n,
    contains-count u visited,
    visited_of_pending es visited u n,
  )

  -- A node with nothing pending may come next.
  pub snoc-IsOrdered :
      (edges : List (A × A)) (order : List A) (x : A)
      → IsOrdered edges order
      → count x order ≡ 0
      → pending edges order x ≡ 0
      → IsOrdered edges (order ++ x ∷ [])
  snoc-IsOrdered edges order x h new p u v eh vh = ground (
    arith,
    ==_iff x v,
    h u v eh,
    vh,
    count-append v order (x ∷ []),
    visited_of_pending edges order u v,
    position_lt u order,
    position_le v order,
    position_absent u order,
    position_snoc u x order,
    position_snoc v x order,
  )
