-- ===== src/Testing/Partition.antt =====
-- The report of backend/app/testing/flakiness.py counts every test once.
use apex_ai.Prelude.{
  ◌+◌, ◌≡◌, refl, Bool, true, not, ◌&&◌, List, [], ◌∷◌, map, nat_eq, string_eq, filter, length, all,
  all-filter, arith, ◌∙◌,
}
use apex_ai.Testing.{
  TestRunRecord, TestRate, test_names, rate_of, is_flaky, is_broken, is_stable, compute_flakiness,
}

-- What a sort keeps of a list: its length, and what holds of all its elements.
abbrev pub IsKept : List TestRate → List TestRate → Type 0
IsKept xs sorted = (length sorted ≡ length xs) × ((q : TestRate → Bool) → all q sorted ≡ all q xs)

abbrev pub is_only_broken : TestRate → Bool
is_only_broken t = not (is_flaky t) && is_broken t

three_parts :
    (rates : List TestRate)
    → length (filter is_flaky rates)
        + length (filter is_only_broken rates)
        + length (filter is_stable rates)
      ≡ length rates
three_parts [] = omega arith
three_parts (t ∷ rates) = ground (arith, three_parts rates)

length-map {ℓ κ} :
    {A : Type ℓ} {B : Type κ} (f : A → B) (xs : List A) → length (map f xs) ≡ length xs
length-map f [] = refl
length-map f (x ∷ xs) = omega (arith, length-map f xs)

-- Where the sort keeps the elements of the lists that it is given, every test that has a record is counted
-- exactly once, as flaky, broken or stable; the flaky ones have passed in some runs and not in all, and the
-- broken ones in none.
compute_flakiness-partition :
    (by_rate : List TestRate → List TestRate)
    → ((xs : List TestRate) → IsKept xs (by_rate xs))
    → (records : List TestRunRecord)
    → let report = compute_flakiness by_rate records in
      (length report.flaky_tests + length report.broken_tests + report.stable_tests
        ≡ length (test_names records))
      × (all is_flaky report.flaky_tests ≡ true)
      × (all is_only_broken report.broken_tests ≡ true)
unfolding compute_flakiness
compute_flakiness-partition by_rate keeps records =
    let rates = map (rate_of records) (test_names records) in
    let flaky = keeps (filter is_flaky rates) in
    let broken = keeps (filter is_only_broken rates) in
    (
      omega (
        arith,
        flaky.0,
        broken.0,
        three_parts rates,
        length-map (rate_of records) (test_names records),
      ),
      flaky.1 is_flaky ∙ all-filter is_flaky rates,
      broken.1 is_only_broken ∙ all-filter is_only_broken rates,
    )
