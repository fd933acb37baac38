-- ===== src/Agent/Safety/Budget.antt =====
-- `TokenUsage` and `TokenBudgetEnforcer` of backend/app/agent/safety.py. The rows that its queries return
-- are arguments: the setting of the organisation, and the tokens that its rows of today sum to.
-- `str.isdigit` with `int` is the argument `parse_int`.
use apex_ai.Prelude.{
  ℕ, ◌+◌, ◌≤◌, ◌≡◌, ◌↔◌, refl, Bool, true, false, Option, none, some, List, [], ◌∷◌, String,
  if◌then◌else◌, ltb, Result, ok, err, arith,
}
use apex_ai.Workflow.Json.{Json, null, bool, num, str, arr, obj, get_field}

pub record TokenUsage : Type 0 where
  pub input_tokens : ℕ
  pub output_tokens : ℕ

-- `total`
abbrev pub total : TokenUsage → ℕ
total usage = usage.input_tokens + usage.output_tokens

pub data Scope : Type 0 where
  run org_daily : Scope

pub record TokenBudgetExceeded : Type 0 where
  pub scope : Scope
  pub used : ℕ
  pub limit : ℕ

pub record TokenBudgetEnforcer : Type 0 where
  pub per_run_limit : ℕ
  -- Whether an organisation and a session were given.
  pub has_org : Bool
  pub usage : TokenUsage

-- `DEFAULT_RUN_LIMIT`
abbrev pub default_run_limit : ℕ
default_run_limit = 500000

-- `record`
unfoldable pub record_tokens : TokenBudgetEnforcer → ℕ → ℕ → TokenBudgetEnforcer
record_tokens budget input_tokens output_tokens = record budget {
  usage = record {
    input_tokens = budget.usage.input_tokens + input_tokens;
    output_tokens = budget.usage.output_tokens + output_tokens;
  };
}

-- The comparison with the cap, where there is one.
abbrev pub check_cap : ℕ → Option ℕ → Result TokenBudgetExceeded (Unit {0})
check_cap used_today none = ok tt
check_cap used_today (some cap) =
    if ltb cap used_today
    then err (record { scope = Scope.org_daily; used = used_today; limit = cap })
    else ok tt

module _ (parse_int : String → Option ℕ) where
  -- The tests on a value that is not a dictionary. A Python boolean is an integer.
  abbrev pub plain_cap : Json → Option ℕ
  plain_cap (num n) = some n
  plain_cap (bool true) = some 1
  plain_cap (bool false) = some 0
  plain_cap (str s) = parse_int s
  plain_cap null = none
  plain_cap (arr items) = none
  plain_cap (obj fields) = none

  abbrev pub optional_cap : Option Json → Option ℕ
  optional_cap none = none
  optional_cap (some value) = plain_cap value

  -- `_load_org_cap`, on the value of the setting that the query finds.
  unfoldable pub load_org_cap : Option Json → Option ℕ
  unfolding get_field
  load_org_cap (some (obj fields)) = optional_cap (get_field "tokens" fields)
  load_org_cap setting = optional_cap setting

  -- `check`
  unfoldable pub check_budget :
      TokenBudgetEnforcer → Option Json → ℕ → Result TokenBudgetExceeded (Unit {0})
  unfolding load_org_cap
  check_budget budget setting summed_today =
      if ltb budget.per_run_limit (total budget.usage)
      then err
          (record { scope = Scope.run; used = total budget.usage; limit = budget.per_run_limit })
      else if budget.has_org
      then check_cap (summed_today + total budget.usage) (load_org_cap setting)
      else ok tt

-- What the responses of a run have used.
abbrev pub spent : List (ℕ × ℕ) → ℕ
spent [] = 0
spent ((input_tokens, output_tokens) ∷ past) = input_tokens + output_tokens + spent past

-- The enforcer after the responses of a run, the last one first.
abbrev pub spend : TokenBudgetEnforcer → List (ℕ × ℕ) → TokenBudgetEnforcer
spend budget [] = budget
spend budget ((input_tokens, output_tokens) ∷ past) =
    record_tokens (spend budget past) input_tokens output_tokens

spend-total :
    (budget : TokenBudgetEnforcer) (past : List (ℕ × ℕ))
    → ((spend budget past).per_run_limit ≡ budget.per_run_limit)
      × ((spend budget past).has_org ≡ budget.has_org)
      × (total (spend budget past).usage ≡ total budget.usage + spent past)
unfolding record_tokens
spend-total budget [] = (refl, refl, omega arith)
spend-total budget ((input_tokens, output_tokens) ∷ past) =
    let (limit, org, sum) = spend-total budget past in (limit, org, omega (arith, sum))

abbrev pub IsWithin : Option ℕ → ℕ → Type 0
IsWithin none used = Unit
IsWithin (some cap) used = used ≤ cap

check_cap_iff : (used : ℕ) (cap : Option ℕ) → (check_cap used cap ≡ ok tt) ↔ IsWithin cap used
check_cap_iff used none = (λ h. tt, λ h. refl)
check_cap_iff used (some cap) = ground arith

-- After the responses of a run the check passes exactly if they have used at most the limit of a run, and,
-- where the organisation has a cap, if they and the sum of the day together are within the cap.
check_budget_ok_iff :
    (parse_int : String → Option ℕ) (budget : TokenBudgetEnforcer) (past : List (ℕ × ℕ))
    (setting : Option Json) (summed_today : ℕ)
    → (check_budget parse_int (spend budget past) setting summed_today ≡ ok tt) ↔ (
        (total budget.usage + spent past ≤ budget.per_run_limit)
        × (budget.has_org ≡ true
            → IsWithin
                (load_org_cap parse_int setting)
                (summed_today + (total budget.usage + spent past))))
unfolding check_budget
check_budget_ok_iff parse_int budget past setting summed_today =
    let (limit, org, sum) = spend-total budget past in
    let used = total budget.usage + spent past in
    let cap = check_cap_iff (summed_today + used) (load_org_cap parse_int setting) in
    rw (limit, org, sum)
      (
        λ h. (ground arith, λ has. cap.0 (ground (arith, has))),
        λ (within, capped).
            ground (arith, within, λ (has : budget.has_org ≡ true). cap.1 (capped has)),
      )
