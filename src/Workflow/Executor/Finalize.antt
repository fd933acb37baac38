-- ===== src/Workflow/Executor/Finalize.antt =====
-- When a process ends.
use apex_ai.Prelude.{
  ℕ, ◌≡◌, refl, Bool, true, false, List, [], ◌∷◌, ◌&&◌, ◌==◌, if◌then◌else◌, ltb, length, all, any,
  arith, ◌⊎◌, inl, inr,
}
use apex_ai.Workflow.Json.{end}
use apex_ai.Workflow.Records.{
  ProcessStatus, StepStatus, ProcessStep, step_status_eq, process_status_eq,
}
use apex_ai.Workflow.Executor.{
  Db, is_over, is_broken, own_steps, try_finish, aggregate, maybe_complete_or_fail_process,
}

try_finish-status :
    (now : ℕ) (db : Db) (status : ProcessStatus)
    → (status ≡ ProcessStatus.completed) ⊎ (status ≡ ProcessStatus.failed)
    → (try_finish now db status).process.status
      ≡ (if db.process.status == ProcessStatus.running then status else db.process.status)
unfolding try_finish
try_finish-status now db status h = ground arith

-- Completed, skipped, failed or cancelled.
abbrev pub has_ended : StepStatus → Bool
has_ended StepStatus.completed = true
has_ended StepStatus.skipped = true
has_ended StepStatus.failed = true
has_ended StepStatus.cancelled = true
has_ended _ = false

abbrev pub has_broken : StepStatus → Bool
has_broken StepStatus.failed = true
has_broken StepStatus.cancelled = true
has_broken _ = false

is_over_lem : (status : StepStatus) → is_over status ≡ has_ended status
is_over_lem status = ground arith

is_broken_lem : (status : StepStatus) → is_broken status ≡ has_broken status
is_broken_lem status = ground arith

all_over :
    (ss : List ProcessStep) → all (λ s. is_over s.status) ss ≡ all (λ s. has_ended s.status) ss
all_over [] = refl
all_over (s ∷ ss) = rw (is_over_lem s.status, all_over ss) refl

any_broken :
    (ss : List ProcessStep) → any (λ s. is_broken s.status) ss ≡ any (λ s. has_broken s.status) ss
any_broken [] = refl
any_broken (s ∷ ss) = rw (is_broken_lem s.status, any_broken ss) refl

-- The executor ends a process exactly if it is running, has steps, and each of them is completed, skipped,
-- failed or cancelled; it ends as failed if one of them failed or was cancelled, and else as completed. In
-- every other case, for a process that is still queued too, its status stays.
pub maybe_complete_lem :
    (now : ℕ) (db : Db)
    → let own = own_steps db in
      (maybe_complete_or_fail_process now db).process.status ≡ (
        if db.process.status == ProcessStatus.running
          && ltb 0 (length own)
          && all (λ s. has_ended s.status) own
        then (if any (λ s. has_broken s.status) own
            then ProcessStatus.failed
            else ProcessStatus.completed)
        else db.process.status)
unfolding maybe_complete_or_fail_process
maybe_complete_lem now db = ground (
  arith,
  all_over (own_steps db),
  any_broken (own_steps db),
  try_finish-status now db ProcessStatus.failed (inr refl),
  try_finish-status now
      (record db { process = record (db.process) { outputs = aggregate (own_steps db) end } })
      ProcessStatus.completed (inl refl),
)
