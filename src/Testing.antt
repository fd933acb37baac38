-- ===== src/Testing.antt =====
-- `compute_flakiness` of backend/app/testing/flakiness.py, on the records of the recent runs that its queries
-- find. A pass rate is the pair of its numerator and denominator; the sort by the rate is the argument
-- `by_rate`.
pub mod Partition
use apex_ai.Prelude.{
  ℕ, Bool, true, false, not, ◌&&◌, List, [], ◌∷◌, map, String, ◌==◌, string_eq, nat_eq, ltb, filter,
  length,
}

-- The columns of `TestRunRecord` that are read.
pub record TestRunRecord : Type 0 where
  pub test_name : String
  pub status : String

-- The keys of `by_test`, in the order in which they come up.
unfoldable pub test_names : List TestRunRecord → List String
test_names [] = []
test_names (r ∷ rs) = r.test_name ∷ filter (λ name. not (name == r.test_name)) (test_names rs)

-- A test with the number of its runs, and of those that passed.
pub record TestRate : Type 0 where
  pub test_name : String
  pub passed : ℕ
  pub runs : ℕ

-- `n` and `passed`
unfoldable pub rate_of : List TestRunRecord → String → TestRate
rate_of records name =
    let own = filter (λ (r : TestRunRecord). r.test_name == name) records in
    record {
      test_name = name;
      passed = length (filter (λ (r : TestRunRecord). r.status == "passed") own);
      runs = length own;
    }

-- `0 < rate < 1`
abbrev pub is_flaky : TestRate → Bool
is_flaky t = ltb 0 t.passed && ltb t.passed t.runs

-- `rate == 0`
abbrev pub is_broken : TestRate → Bool
is_broken t = t.passed == 0

abbrev pub is_stable : TestRate → Bool
is_stable t = not (is_flaky t) && not (is_broken t)

pub record FlakinessReport : Type 0 where
  pub flaky_tests : List TestRate
  pub broken_tests : List TestRate
  pub stable_tests : ℕ

-- `compute_flakiness`
unfoldable pub compute_flakiness :
    (List TestRate → List TestRate) → List TestRunRecord → FlakinessReport
unfolding test_names rate_of
compute_flakiness by_rate records =
    let rates = map (rate_of records) (test_names records) in
    record {
      flaky_tests = by_rate (filter is_flaky rates);
      broken_tests = by_rate (filter (λ t. not (is_flaky t) && is_broken t) rates);
      stable_tests = length (filter is_stable rates);
    }
