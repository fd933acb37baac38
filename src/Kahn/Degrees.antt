-- ===== src/Kahn/Degrees.antt =====
-- What the dictionaries of Kahn's algorithm hold, by counting edges.
use apex_ai.Prelude.{
  ℕ, ◌+◌, ◌≡◌, refl, false, not, ◌&&◌, ◌||◌, List, [], ◌∷◌, ◌++◌, Eq, ◌==◌, ==_iff, if◌then◌else◌,
  count, contains, count-append, arith,
}
use apex_ai.Kahn.{update, in_degrees, adjacency}

module _ {ℓ} {A : Type ℓ} ⦃e : Eq A⦄ where
  -- How often the edge from `u` to `v` stands in the list.
  abbrev pub edge_count : List (A × A) → A → A → ℕ
  edge_count [] u v = 0
  edge_count ((src, dst) ∷ es) u v = (if src == u && dst == v then 1 else 0) + edge_count es u v

  -- How many edges into `n` come from nodes outside `visited`.
  abbrev pub pending : List (A × A) → List A → A → ℕ
  pending [] visited n = 0
  pending ((src, dst) ∷ es) visited n =
      (if dst == n && not (contains visited src) then 1 else 0) + pending es visited n

module _ {ℓ} {A : Type ℓ} ⦃e : Eq A⦄ where
  pub in_degrees-pending :
      (es : List (A × A)) (d : A → ℕ) (n : A) → in_degrees d es n ≡ d n + pending es [] n
  unfolding in_degrees
  in_degrees-pending [] d n = omega arith
  in_degrees-pending ((src, dst) ∷ es) d n =
      ground (arith, ==_iff dst n, in_degrees-pending es (update d dst (d dst + 1)) n)

  pub adjacency-edge_count :
      (es : List (A × A)) (adj : A → List A) (u v : A)
      → count v (adjacency adj es u) ≡ count v (adj u) + edge_count es u v
  unfolding adjacency
  adjacency-edge_count [] adj u v = omega arith
  adjacency-edge_count ((src, dst) ∷ es) adj u v = ground (
    arith,
    ==_iff src u,
    count-append v (adj src) (dst ∷ []),
    adjacency-edge_count es (update adj src (adj src ++ dst ∷ [])) u v,
  )

  contains_snoc : (xs : List A) (x a : A) → contains (xs ++ x ∷ []) a ≡ (contains xs a || x == a)
  contains_snoc [] x a = ground arith
  contains_snoc (y ∷ xs) x a = ground (arith, contains_snoc xs x a)

  -- Visiting `x` takes the edges out of `x` off what is pending.
  pub pending_visit :
      (es : List (A × A)) (visited : List A) (x n : A)
      → contains visited x ≡ false
      → pending es visited n ≡ pending es (visited ++ x ∷ []) n + edge_count es x n
  pending_visit [] visited x n h = refl
  pending_visit ((src, dst) ∷ es) visited x n h = ground (
    arith,
    ==_iff src x,
    ==_iff x src,
    contains_snoc visited x src,
    pending_visit es visited x n h,
  )
