-- ===== src/Kahn/Rank.antt =====
-- Kahn's algorithm visits every node exactly if the edges can be ranked, that is, if there is no cycle.
use apex_ai.Prelude.{
  ℕ, zero, suc, ◌≤◌, ◌<◌, ◌≡◌, refl, inl, inr, true, false, List, [], ◌∷◌, Eq, ◌==◌, ==_iff,
  Bool-cases, not, ◌&&◌, length, contains, not-contains, nat_eq, count, count-contains,
  count-eq_of_length, length-le_of_count, arith,
}
use apex_ai.Kahn.Degrees.{edge_count, pending}
use apex_ai.Kahn.Invariant.{IsGraph, Inv}
use apex_ai.Kahn.Order.{IsOrdered, IsTopological}

-- A walk along one or more edges.
pub data Walk {ℓ} {A : Type ℓ} ⦃e : Eq A⦄ (edges : List (A × A)) (u : A) : A → Type ℓ where
  one : {v : A} → 0 < edge_count edges u v → Walk edges u v
  more : {v w : A} → Walk edges u v → 0 < edge_count edges v w → Walk edges u w

module _ {ℓ} {A : Type ℓ} ⦃e : Eq A⦄ where
  -- Numbers for the nodes that grow along every edge.
  abbrev pub IsRanking : List (A × A) → (A → ℕ) → Type ℓ
  IsRanking edges rank = (u v : A) → 0 < edge_count edges u v → rank u < rank v

  pub Walk-lt :
      (edges : List (A × A)) (rank : A → ℕ)
      → IsRanking edges rank
      → {u v : A} → Walk edges u v
      → rank u < rank v
  Walk-lt edges rank r {u} {v} (one h) = r u v h
  Walk-lt edges rank r {u} {v = w} (more {v = v} walk h) =
      omega (arith, Walk-lt edges rank r walk, r v w h)

  pending-zero :
      (es : List (A × A)) (visited : List A) (n : A)
      → ((u : A) → 0 < edge_count es u n → contains visited u ≡ true)
      → pending es visited n ≡ 0
  pending-zero [] visited n h = refl
  pending-zero ((src, dst) ∷ es) visited n h = ground (
    arith,
    ==_iff src src,
    ==_iff dst n,
    h src,
    pending-zero es visited n (λ u p. h u (omega arith)),
  )

  -- A node with something pending has an edge from a node that is not visited.
  pub unvisited_of_pending :
      (es : List (A × A)) (visited : List A) (n : A)
      → 0 < pending es visited n
      → (u : A) × (0 < edge_count es u n) × (contains visited u ≡ false)
  unvisited_of_pending [] visited n h = absurd (omega arith)
  unvisited_of_pending ((src, dst) ∷ es) visited n h =
      elim (Bool-cases (dst == n && not (contains visited src))) [
        | inl here ↦ (src, ground (arith, ==_iff src src), ground arith)
        | inr past ↦
            let (u, p, q) = unvisited_of_pending es visited n (ground arith) in (u, omega arith, q)
      ]

module _ {ℓ} {A : Type ℓ} ⦃e : Eq A⦄ (nodes : List A) (edges : List (A × A))
    (g : IsGraph nodes edges) (deg : A → ℕ) (order : List A)
    (inv : Inv nodes edges deg [] order) where
  order_le : (n : A) → count n order ≤ count n nodes
  order_le n = ground (arith, inv.listed n)

  pub length-order_le : length order ≤ length nodes
  length-order_le = length-le_of_count order nodes order_le

  ranked_below :
      (rank : A → ℕ)
      → IsRanking edges rank
      → (k : ℕ) (n : A) → rank n < k
      → count n nodes ≡ 1
      → count n order ≡ 1
  ranked_below rank r zero n b c = absurd (omega arith)
  ranked_below rank r (suc k) n b c =
      let done : pending edges order n ≡ 0 = pending-zero edges order n (λ u p.
        count-contains u order
          (omega (arith, ranked_below rank r k u (omega (arith, r u n p)) (g.closed u n p).0))) in
      ground (arith, inv.listed n, inv.degrees n)

  -- If the edges have a ranking, every node is visited.
  pub length-order_of_ranking : (rank : A → ℕ) → IsRanking edges rank → length order ≡ length nodes
  length-order_of_ranking rank r = omega (
    arith,
    length-order_le,
    length-le_of_count nodes order
        (λ n. ground (arith, g.distinct n, ranked_below rank r (suc (rank n)) n)),
  )

  -- If every node is visited, the visited list is a topological order.
  pub order-IsTopological :
      IsOrdered edges order → length order ≡ length nodes → IsTopological nodes edges order
  order-IsTopological o l =
      let same = count-eq_of_length order nodes order_le l in
      record { same = same; before = λ u v p. o u v p (omega (arith, same v, (g.closed u v p).1)) }

  -- A node left with a degree has an edge from a node of the graph left with a degree.
  pub stuck_source :
      (n : A) → 0 < deg n → (u : A) × (0 < edge_count edges u n) × (count u nodes ≡ 1) × (0 < deg u)
  stuck_source n p =
      let (u, edge, absent) = unvisited_of_pending edges order n (omega (arith, inv.degrees n)) in
      let known = (g.closed u n edge).0 in
      (u, edge, known, ground (arith, inv.listed u, not-contains u order))
