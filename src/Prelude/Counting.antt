-- ===== src/Prelude/Counting.antt =====
-- How often a key stands in a list: the measure by which lists are compared up to order.
use Prim.Native.Nat.{ℕ, suc, ◌+◌, ◌≤◌, ◌<◌}
use mathlib.Core.Path.{◌≡◌, refl}
use mathlib.Core.Bool.{Bool, true, false}
use mathlib.Core.List.{List, [], ◌∷◌, ◌++◌}
use native.Mathlib.Omega.{arith}
use apex_ai.Prelude.Tests.{if◌then◌else◌}
use apex_ai.Prelude.Equality.{Eq, ◌==◌, ==_iff, ==_refl}
use apex_ai.Prelude.Lists.{length, contains, filter}

module _ {ℓ} {A : Type ℓ} ⦃e : Eq A⦄ where
  abbrev pub count : A → List A → ℕ
  count a [] = 0
  count a (x ∷ xs) = (if x == a then 1 else 0) + count a xs

  -- `a` taken out of the list, once.
  erase : A → List A → List A
  erase a [] = []
  erase a (x ∷ xs) = let rest = erase a xs in if x == a then xs else x ∷ rest

module _ {ℓ} {A : Type ℓ} ⦃e : Eq A⦄ where
  pub count-append : (a : A) (xs ys : List A) → count a (xs ++ ys) ≡ count a xs + count a ys
  count-append a [] ys = omega arith
  count-append a (x ∷ xs) ys = ground (arith, count-append a xs ys)

  pub count-filter :
      (p : A → Bool) (n : A) (xs : List A) → count n (filter p xs) ≡ (if p n then count n xs else 0)
  count-filter p n [] = ground arith
  count-filter p n (x ∷ xs) = ground (arith, ==_iff x n, count-filter p n xs)

  pub contains-count : (a : A) (xs : List A) → contains xs a ≡ true → 0 < count a xs
  contains-count a [] h = cc
  contains-count a (x ∷ xs) h = ground (arith, contains-count a xs)

  pub count-contains : (a : A) (xs : List A) → 0 < count a xs → contains xs a ≡ true
  count-contains a [] h = absurd (omega arith)
  count-contains a (x ∷ xs) h = ground (arith, count-contains a xs)

  pub not-contains : (a : A) (xs : List A) → contains xs a ≡ false → count a xs ≡ 0
  not-contains a [] h = refl
  not-contains a (x ∷ xs) h = ground (arith, not-contains a xs)

  pub contains_of_count : (a : A) (xs : List A) → count a xs ≡ 0 → contains xs a ≡ false
  contains_of_count a [] h = refl
  contains_of_count a (x ∷ xs) h = ground (arith, contains_of_count a xs)

  count-erase :
      (a b : A) (xs : List A)
      → 0 < count a xs
      → count b xs ≡ (if a == b then 1 else 0) + count b (erase a xs)
  unfolding erase
  count-erase a b [] h = absurd (omega arith)
  count-erase a b (x ∷ xs) h =
      ground (arith, ==_iff x a, ==_iff x b, ==_iff a b, count-erase a b xs)

  length-erase : (a : A) (xs : List A) → 0 < count a xs → length xs ≡ suc (length (erase a xs))
  unfolding erase
  length-erase a [] h = absurd (omega arith)
  length-erase a (x ∷ xs) h = ground (arith, length-erase a xs)

  pub count_head : (x : A) (xs : List A) → count x (x ∷ xs) ≡ suc (count x xs)
  count_head x xs = rw ==_refl (omega arith)

  -- A list that holds nothing more often than another is no longer than it.
  pub length-le_of_count :
      (xs ys : List A) → ((a : A) → count a xs ≤ count a ys) → length xs ≤ length ys
  length-le_of_count [] ys h = omega arith
  length-le_of_count (x ∷ xs) ys h =
      let p : 0 < count x ys = omega (arith, h x, count_head x xs) in
      omega (
        arith,
        length-erase x ys p,
        length-le_of_count xs (erase x ys) (λ a. omega (arith, h a, count-erase x a ys p)),
      )

  -- If it is also as long, it holds everything as often.
  pub count-eq_of_length :
      (xs ys : List A)
      → ((a : A) → count a xs ≤ count a ys)
      → length xs ≡ length ys
      → (a : A) → count a xs ≡ count a ys
  count-eq_of_length [] [] h l a = refl
  count-eq_of_length [] (y ∷ ys) h l a = absurd (omega arith)
  count-eq_of_length (x ∷ xs) ys h l a =
      let p : 0 < count x ys = omega (arith, h x, count_head x xs) in
      let same =
        count-eq_of_length xs (erase x ys) (λ b. omega (arith, h b, count-erase x b ys p))
          (omega (arith, length-erase x ys p)) a in
      omega (arith, same, count-erase x a ys p)
