-- ===== src/Workflow/Queue/Retries.antt =====
-- Backoff and retries: how often a step that keeps failing is run, and when.
use apex_ai.Prelude.{ℕ, zero, suc, true, ◌&&◌, List, [], ◌∷◌, ◌++◌, ◌≡◌, none, some, String}
use apex_ai.Workflow.Json.{field, end, obj}
use apex_ai.Workflow.Records.{StepStatus, ProcessStep, ProcessDlq}
use apex_ai.Workflow.Queue.{claim_ready_steps, is_claimable, is_due, mark_step_failed}

-- One worker's round with the only row of the queue: it claims the row, if it may, and the run fails.
unfoldable pub failing_round :
    ℕ → String → ProcessStep × List ProcessDlq → ProcessStep × List ProcessDlq
unfolding claim_ready_steps mark_step_failed
failing_round now error (step, dlq) =
    elim (claim_ready_steps (λ rows. rows) (λ id. some step) now 1 (step ∷ [])) [
      | [] ↦ (step, dlq)
      | claimed ∷ _ ↦
          let (failed, dead) = mark_step_failed now now claimed error in
          (failed, elim dead [ none ↦ dlq | some row ↦ dlq ++ row ∷ [] ])
    ]

-- The row and the dead letters after so many rounds, the round `n` at the time `clock n`.
unfoldable pub failing_rounds : (ℕ → ℕ) → String → ℕ → ProcessStep → ProcessStep × List ProcessDlq
unfolding failing_round
failing_rounds clock error zero step = (step, [])
failing_rounds clock error (suc n) step =
    failing_round (clock n) error (failing_rounds clock error n step)

dead_letter : ProcessStep → String → ProcessDlq
dead_letter s error = record {
  process_id = s.process_id;
  step_id = s.id;
  payload = field "inputs" (obj s.inputs) (field "outputs" (obj s.outputs) end);
  reason = error;
  retry_count = s.attempt;
  resolved_at = none;
  resolution = none;
}

-- What all rounds leave alone.
abbrev IsSameJob : ProcessStep → ProcessStep → Type 0
IsSameJob step s = (s.max_attempts ≡ step.max_attempts) × (s.id ≡ step.id)

-- A row that may be claimed at a time, after so many attempts, with no dead letter so far.
abbrev IsOpen : ProcessStep → ℕ → ℕ → ProcessStep × List ProcessDlq → Type 0
IsOpen step now n (s, dlq) =
    ((is_claimable s.status && is_due now s.next_retry_at) ≡ true)
    × (s.attempt ≡ n)
    × (dlq ≡ [])
    × IsSameJob step s

-- A row that waits for its next run, with no dead letter so far.
abbrev pub IsWaiting : ProcessStep → ℕ → ℕ → ProcessStep × List ProcessDlq → Type 0
IsWaiting step t n (s, dlq) =
    (s.status ≡ StepStatus.retrying)
    × (s.attempt ≡ n)
    × (s.next_retry_at ≡ some t)
    × (dlq ≡ [])
    × IsSameJob step s

-- A row that has failed after all its attempts, with its one dead letter.
abbrev pub IsExhausted : ProcessStep → String → ProcessStep × List ProcessDlq → Type 0
IsExhausted step error (s, dlq) =
    (s.status ≡ StepStatus.failed)
    × (s.attempt ≡ step.max_attempts)
    × ((row : ProcessDlq) × (dlq ≡ row ∷ [])
        × (row.step_id ≡ step.id)
        × (row.retry_count ≡ step.max_attempts)
        × (row.reason ≡ error))
