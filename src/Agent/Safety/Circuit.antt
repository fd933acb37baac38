-- ===== src/Agent/Safety/Circuit.antt =====
-- `CircuitBreaker` of backend/app/agent/safety.py.
use apex_ai.Prelude.{
  ℕ, ◌+◌, ◌≤◌, ◌≡◌, refl, Bool, false, Option, none, some, List, [], ◌∷◌, String, ◌==◌, ==_iff,
  string_eq, nat_eq, if◌then◌else◌, leb, arith,
}
use apex_ai.Kahn.{update}
use apex_ai.Agent.Safety.{Guidance, keeps_failing, is_set}

pub record CircuitBreaker : Type 0 where
  pub max_consecutive : ℕ
  pub consecutive : String → ℕ
  pub tripped_for : Option String
  pub guidance : Option Guidance

-- `CircuitBreaker(max_consecutive)`, which is also the state after `reset`.
abbrev pub fresh_breaker : ℕ → CircuitBreaker
fresh_breaker max_consecutive = record {
  max_consecutive = max_consecutive;
  consecutive = λ _. 0;
  tripped_for = none;
  guidance = none;
}

abbrev pub is_tool : Option String → String → Bool
is_tool none tool_name = false
is_tool (some t) tool_name = t == tool_name

-- `record_failure`
unfoldable pub break_failure : CircuitBreaker → String → CircuitBreaker
break_failure b tool_name =
    let times = b.consecutive tool_name + 1 in
    let trips = leb b.max_consecutive times in
    record b {
      consecutive = update b.consecutive tool_name times;
      tripped_for = if trips then some tool_name else b.tripped_for;
      guidance = if trips then some (keeps_failing tool_name times) else b.guidance;
    }

-- `record_success`
unfoldable pub break_success : CircuitBreaker → String → CircuitBreaker
break_success b tool_name =
    let clears = is_tool b.tripped_for tool_name in
    record b {
      consecutive = update b.consecutive tool_name 0;
      tripped_for = if clears then none else b.tripped_for;
      guidance = if clears then none else b.guidance;
    }

-- `tripped`
abbrev pub breaker_tripped : CircuitBreaker → Bool
breaker_tripped b = is_set b.tripped_for

-- A call of the loop: the tool, and whether it succeeded.
pub record Outcome : Type 0 where
  pub tool_name : String
  pub succeeded : Bool

-- The breaker after the calls of a run, the last one first.
abbrev pub break_run : ℕ → List Outcome → CircuitBreaker
break_run max [] = fresh_breaker max
break_run max (o ∷ past) =
    let b = break_run max past in
    if o.succeeded then break_success b o.tool_name else break_failure b o.tool_name

-- How often the tool has failed since it last succeeded.
abbrev pub streak : String → List Outcome → ℕ
streak t [] = 0
streak t (o ∷ past) =
    let before = streak t past in
    if o.tool_name == t then (if o.succeeded then 0 else before + 1) else before

abbrev Tells : ℕ → List Outcome → CircuitBreaker → Type 0
Tells max past b =
    (b.max_consecutive ≡ max)
    × ((t : String) → b.consecutive t ≡ streak t past)
    × ((t : String) → b.tripped_for ≡ some t → max ≤ streak t past)

break_run-Tells : (max : ℕ) (past : List Outcome) → Tells max past (break_run max past)
unfolding break_failure break_success
break_run-Tells max [] = (refl, λ t. refl, λ t h. cc)
break_run-Tells max (o ∷ past) =
    let b = break_run max past in
    let (keeps, counts, honest) = break_run-Tells max past in
    (
      ground (arith, keeps),
      λ t. ground (arith, ==_iff o.tool_name t, counts t, counts o.tool_name),
      λ t h. ground (arith, ==_iff o.tool_name t, keeps, counts t, counts o.tool_name, honest t),
    )

-- The breaker counts, for every tool, the failures since its last success; when it is tripped, it names a
-- tool that has failed at least `max_consecutive` times since its last success; and after a failure that
-- reaches this number it is tripped, by the tool that has failed.
pub break_run-streak :
    (max : ℕ) (past : List Outcome)
    → ((t : String) → (break_run max past).consecutive t ≡ streak t past)
      × ((t : String) → (break_run max past).tripped_for ≡ some t → max ≤ streak t past)
      × ((t : String)
          → max ≤ streak t past + 1
          → (break_run max ((record { tool_name = t; succeeded = false }) ∷ past)).tripped_for
            ≡ some t)
unfolding break_failure
break_run-streak max past =
    let (keeps, counts, honest) = break_run-Tells max past in
    (counts, honest, λ t h. ground (arith, keeps, counts t))
