-- ===== src/Workflow/Api/Stop.antt =====
-- Cancelling, resuming and replaying.
use apex_ai.Prelude.{
  ℕ, ◌≡◌, refl, inl, inr, true, false, ◌&&◌, Option, some, List, [], ◌∷◌, String, ◌==◌, nat_eq,
  contains, filter, guard, Option-cases, ok, err, ok-injective, All, Bool-cases, >>=-eq-ok, arith,
}
use mathlib.Core.Path.{subst}
use apex_ai.Workflow.Json.{end}
use apex_ai.Workflow.Records.{
  ProcessStatus, StepStatus, Process, ProcessStep, ProcessEvent, ProcessDlq, step_status_eq,
  process_status_eq,
}
use apex_ai.Workflow.State.{
  transition_process, transition_step, can_transition_process, can_transition_step,
  set_process_status,
}
use apex_ai.Workflow.Executor.{Db}
use apex_ai.Workflow.Queue.{is_claimable, is_due}
use apex_ai.Workflow.Api.{
  is_active, cancel_steps, cancel_process, requeue_paused, resume_process, replay_step, replay_dlq,
  lift_refusal, cannot_resume, already_resolved,
}

-- A row of the process that is no longer pending, queued, running or waiting for a retry.
abbrev pub IsStopped : ℕ → ProcessStep → Type 0
IsStopped process_id s =
    (s.process_id == process_id) ≡ true
    → ((s.status == StepStatus.pending) ≡ false)
      × ((s.status == StepStatus.queued) ≡ false)
      × ((s.status == StepStatus.running) ≡ false)
      × ((s.status == StepStatus.retrying) ≡ false)

is_active-can_cancel :
    (status : StepStatus)
    → is_active status ≡ true
    → can_transition_step status StepStatus.cancelled ≡ true
unfolding can_transition_step
is_active-can_cancel status active = ground arith

cancel_steps_active :
    (process_id : ℕ) (actor_id : Option String) (s : ProcessStep) (ss : List ProcessStep)
    → (s.process_id == process_id && is_active s.status) ≡ true
    → (cancel_steps process_id actor_id (s ∷ ss)).0
      ≡ record s { status = StepStatus.cancelled } ∷ (cancel_steps process_id actor_id ss).0
unfolding cancel_steps transition_step
cancel_steps_active process_id actor_id s ss hit =
    let active : is_active s.status ≡ true = ground (arith, hit) in
    rw (hit, is_active-can_cancel s.status active) refl

false_parts :
    (process_id : ℕ) (s : ProcessStep)
    → (s.process_id == process_id && is_active s.status) ≡ false
    → IsStopped process_id s
false_parts process_id s miss own = ground (arith, miss)

cancel_steps-IsStopped :
    (process_id : ℕ) (actor_id : Option String) (ss : List ProcessStep)
    → All (IsStopped process_id) (cancel_steps process_id actor_id ss).0
unfolding cancel_steps
cancel_steps-IsStopped process_id actor_id [] = tt
cancel_steps-IsStopped process_id actor_id (s ∷ ss) =
    let rest = cancel_steps-IsStopped process_id actor_id ss in
    elim (Bool-cases (s.process_id == process_id && is_active s.status)) [
      | inl hit ↦
          rw (cancel_steps_active process_id actor_id s ss hit)
            (λ _. (refl, refl, refl, refl), rest)
      | inr miss ↦ rw (miss) (false_parts process_id s miss, rest)
    ]

accepted_stop :
    (now : ℕ) (p : Process) (actor_id : Option String) (m : Process × ProcessEvent)
    → lift_refusal (transition_process now p ProcessStatus.cancelled actor_id end) ≡ ok m
    → (m.0.status ≡ ProcessStatus.cancelled) × (m.0.finished_at ≡ some now)
unfolding transition_process set_process_status
accepted_stop now p actor_id m h =
    elim (Bool-cases (can_transition_process p.status ProcessStatus.cancelled)) [
      | inl hit ↦
          let e = ok-injective (rw (hit) at h) in
          subst
            (λ (r : Process × ProcessEvent).
              (r.0.status ≡ ProcessStatus.cancelled) × (r.0.finished_at ≡ some now))
            e (refl, refl)
      | inr miss ↦ let refusal = rw (miss) at h in cc
    ]

accepted_run :
    (now : ℕ) (p : Process) (actor_id : Option String) (m : Process × ProcessEvent)
    → lift_refusal (transition_process now p ProcessStatus.running actor_id end) ≡ ok m
    → m.0.status ≡ ProcessStatus.running
unfolding transition_process set_process_status
accepted_run now p actor_id m h =
    elim (Bool-cases (can_transition_process p.status ProcessStatus.running)) [
      | inl hit ↦
          let e = ok-injective (rw (hit) at h) in
          subst (λ (r : Process × ProcessEvent). r.0.status ≡ ProcessStatus.running) e
            (ground arith)
      | inr miss ↦ let refusal = rw (miss) at h in cc
    ]

-- After an accepted cancellation the process is cancelled, its end time is set, and none of its steps is
-- pending, queued, running or waiting for a retry: no worker can claim one.
pub cancel_process-IsStopped :
    (now : ℕ) (actor_id : Option String) (db : Db) {db' : Db}
    → cancel_process now actor_id db ≡ ok db'
    → (db'.process.status ≡ ProcessStatus.cancelled)
      × (db'.process.finished_at ≡ some now)
      × All (IsStopped db.process.id) db'.steps
unfolding cancel_process
cancel_process-IsStopped now actor_id db {db'} h =
    let (m, moved, e) =
      >>=-eq-ok
        (lift_refusal (transition_process now db.process ProcessStatus.cancelled actor_id end)) _
        h in
    let (status, finished) = accepted_stop now db.process actor_id m moved in
    subst
      (λ (d : Db).
        (d.process.status ≡ ProcessStatus.cancelled)
        × (d.process.finished_at ≡ some now)
        × All (IsStopped db.process.id) d.steps)
      (ok-injective e) (status, finished, cancel_steps-IsStopped db.process.id actor_id db.steps)

-- A row of the process that does not wait for a person.
abbrev pub IsUnpaused : ℕ → ProcessStep → Type 0
IsUnpaused process_id s =
    (s.process_id == process_id) ≡ true → (s.status == StepStatus.paused) ≡ false

requeue_paused-lem :
    (process_id : ℕ) (ss : List ProcessStep)
    → All (IsUnpaused process_id) (requeue_paused process_id ss)
      × (filter (λ s. is_claimable s.status) (requeue_paused process_id ss)
          ≡ filter (λ s. is_claimable s.status) ss)
unfolding requeue_paused
requeue_paused-lem process_id [] = (tt, refl)
requeue_paused-lem process_id (s ∷ ss) =
    let (unpaused, same) = requeue_paused-lem process_id ss in
    elim (Bool-cases (s.process_id == process_id && s.status == StepStatus.paused)) [
      | inl hit ↦ rw (hit) ((λ _. refl, unpaused), ground (arith, hit, same))
      | inr miss ↦ rw (miss) ((ground arith, unpaused), ground (arith, miss, same))
    ]

-- An accepted resumption leaves the process running with no paused step, and adds no row that a worker may
-- claim: the rows with a claimable status are the same as before.
pub resume_process-claimable :
    (now : ℕ) (actor_id : Option String) (db : Db) {db' : Db}
    → resume_process now actor_id db ≡ ok db'
    → (db'.process.status ≡ ProcessStatus.running)
      × All (IsUnpaused db.process.id) db'.steps
      × (filter (λ s. is_claimable s.status) db'.steps
          ≡ filter (λ s. is_claimable s.status) db.steps)
unfolding resume_process
resume_process-claimable now actor_id db {db'} h =
    let (_, allowed, after) =
      >>=-eq-ok
        (guard (contains (ProcessStatus.paused ∷ ProcessStatus.stuck ∷ []) db.process.status)
          (cannot_resume db.process.status))
        _ h in
    let (m, moved, e) =
      >>=-eq-ok
        (lift_refusal (transition_process now db.process ProcessStatus.running actor_id end)) _
        after in
    subst
      (λ (d : Db).
        (d.process.status ≡ ProcessStatus.running)
        × All (IsUnpaused db.process.id) d.steps
        × (filter (λ s. is_claimable s.status) d.steps
            ≡ filter (λ s. is_claimable s.status) db.steps))
      (ok-injective e)
      (
        accepted_run now db.process actor_id m moved,
        (requeue_paused-lem db.process.id db.steps).0,
        (requeue_paused-lem db.process.id db.steps).1,
      )

-- What the replay of a step promises of a row: it has not failed, and if it had before, a worker may claim
-- it at once, with every attempt before it.
abbrev pub IsReplayed : ℕ → ProcessStep → ProcessStep → Type 0
IsReplayed step_id old s =
    (s.id == step_id) ≡ true
    → ((s.status == StepStatus.failed) ≡ false)
      × ((old.status == StepStatus.failed) ≡ true
          → (is_claimable s.status ≡ true)
            × (s.attempt ≡ 0)
            × ((now : ℕ) → is_due now s.next_retry_at ≡ true))

abbrev pub EachReplayed : ℕ → List ProcessStep → List ProcessStep → Type 0
EachReplayed step_id [] [] = Unit
EachReplayed step_id (old ∷ olds) [] = ⊥
EachReplayed step_id [] (s ∷ ss) = ⊥
EachReplayed step_id (old ∷ olds) (s ∷ ss) = IsReplayed step_id old s × EachReplayed step_id olds ss

replay_step-lem :
    (step_id : ℕ) (ss : List ProcessStep) → EachReplayed step_id ss (replay_step step_id ss)
unfolding replay_step
replay_step-lem step_id [] = tt
replay_step-lem step_id (s ∷ ss) =
    elim (Bool-cases (s.id == step_id && s.status == StepStatus.failed)) [
      | inl hit ↦
          rw (hit)
            ((λ same. (refl, λ failed. (refl, refl, λ now. refl))), replay_step-lem step_id ss)
      | inr miss ↦
          rw (miss) ((λ same. (ground arith, λ failed. ground arith)), replay_step-lem step_id ss)
    ]

-- A dead-letter row is replayed once: the replay puts a failed step back among those that a worker may
-- claim at any time, with its attempts counted from 0, and a second replay of the row is refused.
replay_dlq-once :
    (now : ℕ) (dlq : ProcessDlq) (ss : List ProcessStep) {dlq' : ProcessDlq}
    {ss' : List ProcessStep}
    → replay_dlq now dlq ss ≡ ok (dlq', ss')
    → EachReplayed dlq.step_id ss ss'
      × ((later : ℕ) (any_rows : List ProcessStep)
          → replay_dlq later dlq' any_rows ≡ err already_resolved)
unfolding replay_dlq
replay_dlq-once now dlq ss {dlq'} {ss'} h = elim (Option-cases dlq.resolved_at) [
  | inl hit ↦
      let e = ok-injective (rw (hit) at h) in
      subst
        (λ (r : ProcessDlq × List ProcessStep).
          EachReplayed dlq.step_id ss r.1
          × ((later : ℕ) (any_rows : List ProcessStep)
              → replay_dlq later r.0 any_rows ≡ err already_resolved))
        e (replay_step-lem dlq.step_id ss, λ later any_rows. refl)
  | inr (t, miss) ↦ let refusal = rw (miss) at h in cc
]
