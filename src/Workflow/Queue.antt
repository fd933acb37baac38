-- ===== src/Workflow/Queue.antt =====
-- backend/app/workflow/queue.py. `now`, `finished_now` and `retry_now` are the readings of the clock,
-- in the order in which they are made. The database is the argument `steps`, its `ORDER BY created_at`
-- is the parameter `order_by_created_at`, and `lock` gives the row that `SELECT … FOR UPDATE SKIP LOCKED`
-- returns for an identifier: nothing if another worker holds it, and else the row as it stands by then.
pub mod Claims
pub mod Takes
pub mod Retries
use apex_ai.Prelude.{
  ℕ, zero, suc, ◌+◌, ◌-◌, ◌*◌, min, Bool, true, false, not, ◌&&◌, ◌||◌, Option, none, some, List,
  [], ◌∷◌, ◌++◌, map, String, Eq, ◌==◌, nat_eq, string_eq, if◌then◌else◌, leb, ltb, filter, any,
  contains, take, length,
}
use apex_ai.Workflow.Json.{Fields, field, end, str, obj}
use apex_ai.Workflow.Records.{StepStatus, ProcessStep, ProcessDlq, step_status_eq}

abbrev pub backoff_seconds : List ℕ
backoff_seconds = 1 ∷ 4 ∷ 16 ∷ 64 ∷ 256 ∷ []

-- `xs[i]`, with 0 past the end, which `next_retry_delay` never reads.
abbrev pub nth : List ℕ → ℕ → ℕ
nth [] i = 0
nth (x ∷ xs) zero = x
nth (x ∷ xs) (suc i) = nth xs i

unfoldable pub next_retry_delay : ℕ → ℕ
next_retry_delay attempt =
    if leb attempt 0
    then 0
    else nth backoff_seconds (min (attempt - 1) (length backoff_seconds - 1))

-- `status in ("pending", "retrying")`
abbrev pub is_claimable : StepStatus → Bool
is_claimable status = contains (StepStatus.pending ∷ StepStatus.retrying ∷ []) status

abbrev pub is_due : ℕ → Option ℕ → Bool
is_due now none = true
is_due now (some t) = leb t now

-- The change that a claim makes to a row.
unfoldable pub mark_running : ℕ → ProcessStep → ProcessStep
mark_running now step = record step {
  status = StepStatus.running;
  attempt = step.attempt + 1;
  started_at = some now;
  next_retry_at = none;
}

module _ (order_by_created_at : List ProcessStep → List ProcessStep) (lock : ℕ → Option ProcessStep)
    (now limit : ℕ) where
  -- The first query: identifiers of rows that look ready, three times as many as wanted.
  unfoldable pub candidate_ids : List ProcessStep → List ℕ
  candidate_ids steps =
      map (λ s. s.id)
        (take (limit * 3) (
          order_by_created_at
            (filter (λ s. is_claimable s.status && is_due now s.next_retry_at) steps)))

  -- The loop over the candidates, with its `break` at `limit`.
  unfoldable pub claim_loop : List ProcessStep → List ℕ → List ProcessStep
  unfolding mark_running
  claim_loop claimed [] = claimed
  claim_loop claimed (step_id ∷ ids) =
      let skip = claim_loop claimed ids in
      elim (lock step_id) [
        | none ↦ skip
        | some step ↦
            let claimed' = claimed ++ mark_running now step ∷ [] in
            let continue = claim_loop claimed' ids in
            if not (is_claimable step.status)
            then skip
            else if not (is_due now step.next_retry_at)
            then skip
            else if leb limit (length claimed')
            then claimed'
            else continue
      ]

  unfoldable pub claim_ready_steps : List ProcessStep → List ProcessStep
  unfolding candidate_ids claim_loop
  claim_ready_steps steps = claim_loop [] (candidate_ids steps)

unfoldable pub enqueue_step : ProcessStep → ProcessStep
enqueue_step step = record step { status = StepStatus.pending; next_retry_at = none }

unfoldable pub mark_step_completed : ℕ → ProcessStep → Fields → ProcessStep
mark_step_completed now step outputs = record step {
  status = StepStatus.completed;
  outputs = outputs;
  finished_at = some now;
  error = none;
}

-- The row, and the dead-letter row if one was added.
unfoldable pub mark_step_failed : ℕ → ℕ → ProcessStep → String → ProcessStep × Option ProcessDlq
mark_step_failed finished_now retry_now step error =
    let step' = record step { error = some error; finished_at = some finished_now } in
    if leb step.max_attempts step.attempt
    then (
      record step' { status = StepStatus.failed },
      some (record {
        process_id = step.process_id;
        step_id = step.id;
        payload = field "inputs" (obj step.inputs) (field "outputs" (obj step.outputs) end);
        reason = error;
        retry_count = step.attempt;
        resolved_at = none;
        resolution = none;
      }),
    )
    else (
      record step' {
        status = StepStatus.retrying;
        next_retry_at = some (retry_now + next_retry_delay step.attempt);
      },
      none,
    )

-- Some upstream step of the process is neither completed nor skipped. `upstream_names` is what
-- `pdef.upstream(step_name)` returns.
unfoldable pub has_unfinished_upstreams : List ProcessStep → ℕ → List String → Bool
has_unfinished_upstreams steps process_id upstream_names =
    if leb (length upstream_names) 0
    then false
    else any (λ s. not (contains (StepStatus.completed ∷ StepStatus.skipped ∷ []) s.status))
        (filter (λ s. s.process_id == process_id && contains upstream_names s.step_name) steps)
