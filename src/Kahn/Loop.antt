-- ===== src/Kahn/Loop.antt =====
-- The loop of Kahn's algorithm ends, and leaves its invariant and an ordered list of the visited.
use apex_ai.Prelude.{
  ℕ, zero, suc, ◌+◌, ◌≤◌, ◌≡◌, refl, List, [], ◌∷◌, ◌++◌, Eq, some, Option, length, length-append,
  length-le_of_count, count-append, arith,
}
use apex_ai.Kahn.{drain, relax, kahn, visit_list}
use apex_ai.Kahn.Invariant.{IsGraph, Inv, adj_of, step-Inv, head_fresh, initial-Inv}
use apex_ai.Kahn.Order.{IsOrdered, snoc-IsOrdered}

module _ {ℓ} {A : Type ℓ} ⦃e : Eq A⦄ (nodes : List A) (edges : List (A × A)) where
  -- What is left when the queue is empty.
  pub record Ends (result : Option ((A → ℕ) × List A)) : Type ℓ where
    pub deg : A → ℕ
    pub order : List A
    pub returned : result ≡ some (deg, order)
    pub inv : Inv nodes edges deg [] order
    pub ordered : IsOrdered edges order

module _ {ℓ} {A : Type ℓ} ⦃e : Eq A⦄ (nodes : List A) (edges : List (A × A))
    (g : IsGraph nodes edges) where
  visited_bound :
      (deg : A → ℕ) (queue visited : List A)
      → Inv nodes edges deg queue visited
      → length visited + length queue ≤ length nodes
  visited_bound deg queue visited h = omega (
    arith,
    length-append visited queue,
    length-le_of_count (visited ++ queue) nodes
        (λ n. ground (arith, h.listed n, count-append n visited queue)),
  )

  drain-Ends :
      (fuel : ℕ) (deg : A → ℕ) (queue visited : List A)
      → Inv nodes edges deg queue visited
      → IsOrdered edges visited
      → length nodes ≤ fuel + length visited
      → Ends nodes edges (drain visit_list (adj_of nodes edges) fuel deg queue visited)
  unfolding drain
  drain-Ends fuel deg [] visited h o b = record {
    deg = deg;
    order = visited;
    returned = refl;
    inv = h;
    ordered = o;
  }
  drain-Ends zero deg (x ∷ queue) visited h o b =
      absurd (omega (arith, visited_bound deg (x ∷ queue) visited h))
  drain-Ends (suc fuel) deg (x ∷ queue) visited h o b =
      let fresh = head_fresh nodes edges g deg x queue visited h in
      drain-Ends fuel (relax (adj_of nodes edges x) deg queue).0
        (relax (adj_of nodes edges x) deg queue).1 (visited ++ x ∷ [])
        (step-Inv nodes edges g deg x queue visited h)
        (snoc-IsOrdered edges visited x o fresh.1 (omega (arith, h.degrees x, fresh.0)))
        (omega (arith, length-append visited (x ∷ [])))

  -- As many rounds as there are nodes are enough.
  pub kahn-Ends : Ends nodes edges (kahn visit_list [] (length nodes) nodes edges)
  unfolding kahn
  kahn-Ends =
      drain-Ends (length nodes) _ _ [] (initial-Inv nodes edges) (λ u v eh vh. absurd (omega arith))
        (omega arith)
