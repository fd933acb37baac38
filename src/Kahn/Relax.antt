-- ===== src/Kahn/Relax.antt =====
-- One pass of the inner loop of Kahn's algorithm, by counting.
use apex_ai.Prelude.{
  ℕ, ◌+◌, ◌-◌, ◌≤◌, ◌≡◌, ◌&&◌, List, [], ◌∷◌, ◌++◌, Eq, ◌==◌, nat_eq, ==_iff, if◌then◌else◌, ltb,
  count, count-append, arith,
}
use apex_ai.Kahn.{update, relax}

module _ {ℓ} {A : Type ℓ} ⦃e : Eq A⦄ where
  pub count-update_le :
      (t n : A) (ts : List A) (deg : A → ℕ)
      → count n (t ∷ ts) ≤ deg n
      → count n ts ≤ update deg t (deg t - 1) n
  count-update_le t n ts deg h = ground (arith, ==_iff t n)

  -- A degree falls by the number of edges that the pass takes; none is 0 when it is decremented.
  pub relax_deg :
      (ts : List A) (deg : A → ℕ) (queue : List A) (n : A)
      → ((a : A) → count a ts ≤ deg a)
      → (relax ts deg queue).0 n ≡ deg n - count n ts
  unfolding relax
  relax_deg [] deg queue n h = omega arith
  relax_deg (t ∷ ts) deg queue n h = ground (
    arith,
    ==_iff t n,
    relax_deg ts (update deg t (deg t - 1)) (if deg t - 1 == 0 then queue ++ t ∷ [] else queue) n
        (λ a. count-update_le t a ts deg (h a)),
  )

  -- A node joins the queue, once, when the pass takes the last edge into it.
  pub relax_queue :
      (ts : List A) (deg : A → ℕ) (queue : List A) (n : A)
      → ((a : A) → count a ts ≤ deg a)
      → count n (relax ts deg queue).1
        ≡ count n queue + (if ltb 0 (count n ts) && count n ts == deg n then 1 else 0)
  unfolding relax
  relax_queue [] deg queue n h = omega arith
  relax_queue (t ∷ ts) deg queue n h = ground (
    arith,
    ==_iff t n,
    h n,
    count-append n queue (t ∷ []),
    relax_queue ts (update deg t (deg t - 1)) (if deg t - 1 == 0 then queue ++ t ∷ [] else queue) n
        (λ a. count-update_le t a ts deg (h a)),
  )
