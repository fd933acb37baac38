-- ===== src/Prelude/Filters.antt =====
-- Lemmas on `filter` and `all`.
use Prim.Native.Nat.{ℕ, zero, suc}
use mathlib.Core.Path.{◌≡◌, refl}
use mathlib.Core.Bool.{Bool, true, false, not}
use mathlib.Core.Logic.{inl, inr}
use mathlib.Core.List.{List, [], ◌∷◌, ◌++◌}
use native.Mathlib.Omega.{arith}
use mathlib.Core.Option.{some}
use apex_ai.Prelude.Tests.{Bool-cases}
use apex_ai.Prelude.Lists.{filter, any, all, drop, find?}

module _ {ℓ} {A : Type ℓ} (q : A → Bool) where
  pub all-filter : (xs : List A) → all q (filter q xs) ≡ true
  all-filter [] = refl
  all-filter (x ∷ xs) = ground (arith, all-filter xs)

  pub all-drop : (n : ℕ) (xs : List A) → all q xs ≡ true → all q (drop n xs) ≡ true
  all-drop zero xs h = h
  all-drop (suc n) [] h = refl
  all-drop (suc n) (x ∷ xs) h = all-drop n xs (ground arith)

  pub filter-append : (xs ys : List A) → filter q (xs ++ ys) ≡ filter q xs ++ filter q ys
  filter-append [] ys = refl
  filter-append (x ∷ xs) ys = ground (arith, filter-append xs ys)

  pub filter_all_lem : (xs : List A) → all q xs ≡ true → filter q xs ≡ xs
  filter_all_lem [] h = refl
  filter_all_lem (x ∷ xs) h = ground (arith, filter_all_lem xs)

  pub filter_not_all_lem : (xs : List A) → all (λ x. not (q x)) xs ≡ true → filter q xs ≡ []
  filter_not_all_lem [] h = refl
  filter_not_all_lem (x ∷ xs) h = ground (arith, filter_not_all_lem xs)

  pub filter-filter-not : (xs : List A) → filter (λ x. not (q x)) (filter q xs) ≡ []
  filter-filter-not [] = refl
  filter-filter-not (x ∷ xs) = ground (arith, filter-filter-not xs)

  pub filter_none : (xs : List A) → any q xs ≡ false → filter q xs ≡ []
  filter_none [] h = refl
  filter_none (x ∷ xs) h = ground (arith, filter_none xs)

  pub filter_some :
      (xs : List A) → any q xs ≡ true → (x : A) × (rest : List A) × (filter q xs ≡ x ∷ rest)
  filter_some [] h = cc
  filter_some (x ∷ xs) h = elim (Bool-cases (q x)) [
    | inl hit ↦ (x, filter q xs, rw hit)
    | inr miss ↦ rw miss (filter_some xs (rw (miss) at h))
  ]

module _ {ℓ} {A : Type ℓ} where
  pub find?-filter :
      (p : A → Bool) (xs : List A) (x : A) (rest : List A)
      → filter p xs ≡ x ∷ rest
      → find? p xs ≡ some x
  find?-filter p [] x rest h = cc
  find?-filter p (y ∷ xs) x rest h = ground (arith, find?-filter p xs x rest)

  pub find?-passes : (p : A → Bool) (xs : List A) (x : A) → find? p xs ≡ some x → p x ≡ true
  find?-passes p [] x h = cc
  find?-passes p (y ∷ xs) x h = elim (Bool-cases (p y)) [
    | inl hit ↦ ground arith
    | inr miss ↦ find?-passes p xs x (rw (miss) at h)
  ]
