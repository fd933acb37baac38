-- ===== src/Kahn/Invariant.antt =====
-- What holds between two rounds of the loop of Kahn's algorithm.
use apex_ai.Prelude.{
  ℕ, ◌+◌, ◌≤◌, ◌<◌, ◌≡◌, false, List, [], ◌∷◌, ◌++◌, Eq, ◌==◌, nat_eq, if◌then◌else◌, count,
  count-append, count-filter, count_head, contains, contains_of_count, arith, filter,
}
use apex_ai.Kahn.{relax, in_degrees, adjacency}
use apex_ai.Kahn.Degrees.{
  edge_count, pending, in_degrees-pending, adjacency-edge_count, pending_visit,
}
use apex_ai.Kahn.Relax.{relax_deg, relax_queue}

module _ {ℓ} {A : Type ℓ} ⦃e : Eq A⦄ where
  -- What the callers check before they run the loop: no node is listed twice, and every edge
  -- joins two nodes of the list.
  pub record IsGraph (nodes : List A) (edges : List (A × A)) : Type ℓ where
    pub distinct : (n : A) → count n nodes ≤ 1
    pub closed : (u v : A) → 0 < edge_count edges u v → (count u nodes ≡ 1) × (count v nodes ≡ 1)

  -- A node's degree counts the edges from nodes not visited yet, and exactly the nodes of degree 0
  -- are visited or queued, once.
  pub record Inv (nodes : List A) (edges : List (A × A)) (deg : A → ℕ) (queue visited : List A)
      : Type ℓ where
    pub degrees : (n : A) → deg n ≡ pending edges visited n
    pub listed :
        (n : A) → count n visited + count n queue ≡ (if deg n == 0 then count n nodes else 0)

module _ {ℓ} {A : Type ℓ} ⦃e : Eq A⦄ (nodes : List A) (edges : List (A × A)) where
  abbrev initial : A → ℕ
  initial = in_degrees (λ _. 0) edges

  abbrev pub adj_of : A → List A
  adj_of = adjacency (λ _. []) edges

  pub initial-Inv :
      Inv nodes edges
        (in_degrees (λ _. 0) edges)
        (filter (λ n. in_degrees (λ _. 0) edges n == 0) nodes)
        []
  initial-Inv = record {
    degrees = λ n. omega (arith, in_degrees-pending edges (λ _. 0) n);
    listed = λ n. omega (arith, count-filter (λ m. in_degrees (λ _. 0) edges m == 0) n nodes);
  }

  module _ (g : IsGraph nodes edges) (deg : A → ℕ) (x : A) (queue visited : List A)
      (h : Inv nodes edges deg (x ∷ queue) visited) where
    -- The node at the head of the queue has degree 0 and is visited for the first time.
    pub head_fresh : (deg x ≡ 0) × (count x visited ≡ 0) × (count x nodes ≡ 1)
    head_fresh = ground (arith, h.listed x, count_head x queue, g.distinct x)

    head_new : contains visited x ≡ false
    head_new = contains_of_count x visited head_fresh.1

    taken : (a : A) → count a (adj_of x) ≡ edge_count edges x a
    taken a = omega (arith, adjacency-edge_count edges (λ _. []) x a)

    taken_le : (a : A) → count a (adj_of x) ≤ deg a
    taken_le a = omega (arith, taken a, h.degrees a, pending_visit edges visited x a head_new)

    step_degrees : (n : A) → (relax (adj_of x) deg queue).0 n ≡ pending edges (visited ++ x ∷ []) n
    step_degrees n = omega (
      arith,
      taken n,
      h.degrees n,
      pending_visit edges visited x n head_new,
      relax_deg (adj_of x) deg queue n taken_le,
    )

    step_listed :
        (n : A)
        → count n (visited ++ x ∷ []) + count n (relax (adj_of x) deg queue).1
          ≡ (if (relax (adj_of x) deg queue).0 n == 0 then count n nodes else 0)
    step_listed n = ground (
      arith,
      taken n,
      taken_le n,
      h.listed n,
      g.closed x n,
      count-append n visited (x ∷ []),
      relax_deg (adj_of x) deg queue n taken_le,
      relax_queue (adj_of x) deg queue n taken_le,
    )

    -- One round of the loop keeps the invariant.
    pub step-Inv :
        Inv nodes edges
          (relax (adj_of x) deg queue).0
          (relax (adj_of x) deg queue).1
          (visited ++ x ∷ [])
    step-Inv = record { degrees = step_degrees; listed = step_listed }
