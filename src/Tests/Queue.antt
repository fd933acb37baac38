-- ===== src/Tests/Queue.antt =====
-- The theorems on the queue at concrete inputs: one step that is ready and one that runs.
use apex_ai.Prelude.{
  ℕ, ◌≤◌, refl, ◌*◌, ◌==◌, nat_eq, if◌then◌else◌, List, [], ◌∷◌, Option, none, some, String, length,
  arith,
}
use mathlib.Core.List.{Memᴰ}
use apex_ai.Workflow.Json.{end}
use apex_ai.Workflow.Records.{StepStatus, ProcessStep}
use apex_ai.Workflow.Queue.{candidate_ids, claim_ready_steps}
use apex_ai.Workflow.Queue.Claims.{AllClaims, claim_ready_steps-AllClaims}
use apex_ai.Workflow.Queue.Takes.{claim_ready_steps_takes}

abbrev pub test_step : ℕ → String → StepStatus → ProcessStep
test_step id name status = record {
  id = id;
  process_id = 1;
  step_name = name;
  prompt_template = "do it";
  status = status;
  attempt = 0;
  max_attempts = 3;
  inputs = end;
  outputs = end;
  next_retry_at = none;
  error = none;
  started_at = none;
  finished_at = none;
  created_at = 5;
}

abbrev pub two_rows : List ProcessStep
two_rows = test_step 10 "plan" StepStatus.pending ∷ test_step 11 "build" StepStatus.running ∷ []

abbrev as_created : List ProcessStep → List ProcessStep
as_created rows = rows

abbrev free_lock : ℕ → Option ProcessStep
free_lock id = if id == 10 then some (test_step 10 "plan" StepStatus.pending) else none

abbrev ticking : ℕ → ℕ
ticking n = 300 * n

claim_ready_steps-AllClaims_example :
    AllClaims free_lock 7 (claim_ready_steps as_created free_lock 7 2 two_rows)
    × (length (claim_ready_steps as_created free_lock 7 2 two_rows) ≤ 2)
claim_ready_steps-AllClaims_example = claim_ready_steps-AllClaims as_created free_lock 7 2 two_rows

claim_ready_steps_takes_example :
    Memᴰ
      (record (test_step 10 "plan" StepStatus.pending) {
        status = StepStatus.running;
        attempt = 1;
        started_at = some 7;
      })
      (claim_ready_steps as_created free_lock 7 2 two_rows)
unfolding candidate_ids claim_ready_steps
claim_ready_steps_takes_example =
    claim_ready_steps_takes as_created (λ rows s m. m) (λ rows. refl) free_lock 7 2 two_rows
      (test_step 10 "plan" StepStatus.pending) (test_step 10 "plan" StepStatus.pending)
      (Memᴰ.head refl) refl (omega arith) refl refl (omega arith)
