-- ===== src/Kahn/Counter.antt =====
-- Counting the visited nodes instead of listing them changes nothing else.
use apex_ai.Prelude.{
  ℕ, zero, suc, ◌+◌, ◌≡◌, refl, List, [], ◌∷◌, ◌++◌, Option, none, some, Eq, length, length-append,
  ap, ◌∙◌, arith, ◌↔◌, nat_eq,
}
use apex_ai.Kahn.{drain, relax, kahn, adjacency, visit_list, visit_count}
use apex_ai.Kahn.Invariant.{IsGraph}
use apex_ai.Kahn.Loop.{kahn-Ends}
use apex_ai.Kahn.Rank.{length-order_of_ranking, order-IsTopological, IsRanking}
use apex_ai.Kahn.Order.{position}

module _ {ℓ} {A : Type ℓ} ⦃e : Eq A⦄ where
  abbrev counted : Option ((A → ℕ) × List A) → Option ((A → ℕ) × ℕ)
  counted none = none
  counted (some (deg, order)) = some (deg, length order)

  drain-counted :
      (adj : A → List A) (fuel : ℕ) (deg : A → ℕ) (queue visited : List A) (k : ℕ)
      → k ≡ length visited
      → drain visit_count adj fuel deg queue k
        ≡ counted (drain visit_list adj fuel deg queue visited)
  unfolding drain
  drain-counted adj fuel deg [] visited k p = rw p
  drain-counted adj zero deg (x ∷ queue) visited k p = refl
  drain-counted adj (suc fuel) deg (x ∷ queue) visited k p =
      drain-counted adj fuel (relax (adj x) deg queue).0 (relax (adj x) deg queue).1
        (visited ++ x ∷ []) (k + 1) (omega (arith, length-append visited (x ∷ [])))

  pub kahn-counted :
      (fuel : ℕ) (nodes : List A) (edges : List (A × A))
      → kahn visit_count 0 fuel nodes edges ≡ counted (kahn visit_list [] fuel nodes edges)
  unfolding kahn
  kahn-counted fuel nodes edges = drain-counted (adjacency (λ _. []) edges) fuel _ _ [] 0 refl

module _ {ℓ} {A : Type ℓ} ⦃e : Eq A⦄ (nodes : List A) (edges : List (A × A))
    (g : IsGraph nodes edges) where
  -- The counting form returns, and counts every node exactly if the edges have a ranking.
  pub kahn_count_lem :
      (deg : A → ℕ) × (visited : ℕ) × (kahn visit_count 0 (length nodes) nodes edges
        ≡ some (deg, visited))
      × ((visited ≡ length nodes) ↔ ((rank : A → ℕ) × IsRanking edges rank))
  kahn_count_lem =
      let ends = kahn-Ends nodes edges g in
      (
        ends.deg,
        length ends.order,
        kahn-counted (length nodes) nodes edges ∙ ap counted ends.returned,
        (
          λ all. (
            λ n. position n ends.order,
            (order-IsTopological nodes edges g ends.deg ends.order ends.inv ends.ordered
                all).before,
          ),
          λ (rank, grows).
              length-order_of_ranking nodes edges g ends.deg ends.order ends.inv rank grows,
        ),
      )
