-- ===== src/Workflow/Executor/Execute/Rows.antt =====
-- The status of the rows of one step while others are queued.
use apex_ai.Prelude.{
  ℕ, ◌≡◌, inl, inr, Bool, true, false, some, List, [], ◌∷◌, String, ◌==◌, nat_eq, string_eq,
  contains, find?, Bool-cases, arith,
}
use mathlib.Core.Path.{subst}
use apex_ai.Workflow.Records.{StepStatus, ProcessStep, step_status_eq}
use apex_ai.Workflow.Definition.{ProcessDefinition}
use apex_ai.Workflow.Executor.{Db, put_step, enqueue_each}
use apex_ai.Workflow.Executor.Enqueue.{Queues, raises, leaves, queues, enqueue_next-NextView}

abbrev pub is_ended : StepStatus → Bool
is_ended status =
    contains
      (StepStatus.completed ∷ StepStatus.retrying ∷ StepStatus.failed ∷ StepStatus.paused ∷ [])
      status

-- Every row with the identifier has a status of the kind.
abbrev pub RowsAre : (StepStatus → Bool) → ℕ → List ProcessStep → Type 0
RowsAre p id [] = Unit
RowsAre p id (x ∷ xs) = ((x.id == id) ≡ true → p x.status ≡ true) × RowsAre p id xs

-- Every row with the identifier is completed, waiting for a retry, failed or paused.
abbrev pub EndedRows : ℕ → List ProcessStep → Type 0
EndedRows id steps = RowsAre is_ended id steps

abbrev pub is_running : StepStatus → Bool
is_running status = status == StepStatus.running

-- A kind of status that queueing a pending row does not disturb.
module _ (p : StepStatus → Bool) (not_pending : p StepStatus.pending ≡ false) where
  pub put_step-RowsAre :
      (s : ProcessStep) (xs : List ProcessStep) → p s.status ≡ true → RowsAre p s.id (put_step s xs)
  unfolding put_step
  put_step-RowsAre s [] h = tt
  put_step-RowsAre s (x ∷ xs) h = (λ e. ground (arith), put_step-RowsAre s xs h)

  put_other-RowsAre :
      (id : ℕ) (s : ProcessStep) (xs : List ProcessStep)
      → (s.id == id) ≡ false
      → RowsAre p id xs
      → RowsAre p id (put_step s xs)
  unfolding put_step
  put_other-RowsAre id s [] o h = tt
  put_other-RowsAre id s (x ∷ xs) o h = (λ e. ground (arith, h.0), put_other-RowsAre id s xs o h.1)

  find?-RowsAre :
      (id : ℕ) (q : ProcessStep → Bool) (xs : List ProcessStep) {s : ProcessStep}
      → RowsAre p id xs
      → find? q xs ≡ some s
      → (s.id == id) ≡ true
      → p s.status ≡ true
  find?-RowsAre id q [] h f e = cc
  find?-RowsAre id q (x ∷ xs) {s} h f e = elim (Bool-cases (q x)) [
    | inl here ↦ let same : x ≡ s = ground arith in rw same at (h.0 (rw same e))
    | inr past ↦ find?-RowsAre id q xs h.1 (rw past at f) e
  ]

  queued-RowsAre :
      (id : ℕ) (definition : ProcessDefinition) (db : Db) (name : String) (db' : Db)
      → Queues definition db name db'
      → RowsAre p id db.steps
      → RowsAre p id db'.steps
  queued-RowsAre id definition db name db' q h = elim (Bool-cases (q.row.id == id)) [
    | inr other ↦ rw (q.steps) (put_other-RowsAre id _ db.steps other h)
    | inl own ↦
        let kind = find?-RowsAre id _ db.steps h q.mem own in
        let pending : p (q.row.status) ≡ false = rw (q.pending) not_pending in absurd cc
  ]

  pub enqueue_each-RowsAre :
      (id : ℕ) (definition : ProcessDefinition) (completed_step : String) (db db' : Db)
      (names : List String)
      → RowsAre p id db.steps
      → enqueue_each definition completed_step db names ≡ some db'
      → RowsAre p id db'.steps
  unfolding enqueue_each
  enqueue_each-RowsAre id definition completed_step db db' [] h e =
      let same : ◌≡◌ {A = Db} db db' = cc in subst (λ (d : Db). RowsAre p id d.steps) same h
  enqueue_each-RowsAre id definition completed_step db db' (name ∷ names) h e =
      elim (enqueue_next-NextView definition completed_step db name) [
        | raises several raised ↦ let e' = rw (raised, enqueue_each) at e in cc
        | leaves same ↦
            enqueue_each-RowsAre id definition completed_step db db' names h
              (rw (same, enqueue_each) at e)
        | queues queued q same ↦
            enqueue_each-RowsAre id definition completed_step queued db' names
              (queued-RowsAre id definition db name queued q h) (rw (same, enqueue_each) at e)
      ]
