-- ===== src/Workflow/Executor/Enqueue.antt =====
-- What `_enqueue_downstream` may queue.
use apex_ai.Prelude.{
  find?-filter, find?-passes, ◌≡◌, ◌⊎◌, inl, inr, Bool, true, ◌&&◌, ◌<◌, none, some, List, [], ◌∷◌,
  String, ◌==◌, nat_eq, string_eq, leb, length, all, find?, filter, refl, sym, Option, Bool-cases,
  arith,
}
use mathlib.Core.Path.{subst}
use text.Mathlib.TextEquality.{eq_iff}
use mathlib.Core.List.{Memᴰ}
use mathlib.Core.List.Memᴰ
use apex_ai.Workflow.Records.{StepStatus, ProcessStep, step_status_eq}
use apex_ai.Workflow.Definition.{ProcessDefinition, upstream}
use apex_ai.Workflow.Json.{str, field, end}
use apex_ai.Workflow.Executor.{
  add_event, Db, put_step, steps_named, is_settled, scalar_one_or_none, enqueue_next,
}

mem-put_step :
    (s y : ProcessStep) (xs : List ProcessStep) → Memᴰ y (put_step s xs) → Memᴰ y xs ⊎ (y ≡ s)
unfolding put_step
mem-put_step s y [] m = inl m
mem-put_step s y (x ∷ xs) m = elim (Memᴰ.cases_cons m) [
  | inl e ↦ elim (Bool-cases (x.id == s.id)) [
    | inl same ↦ inr (rw same at e)
    | inr other ↦ inl (Memᴰ.head (rw other at e))
  ]
  | inr m' ↦ elim (mem-put_step s y xs m') [ inl old ↦ inl (Memᴰ.tail old) | inr e ↦ inr e ]
]

-- A row that the executor queues: its step is the dependent one, and every upstream step of that, of
-- which there is one, is completed or skipped.
pub record IsReady (definition : ProcessDefinition) (db : Db) (name : String) (y : ProcessStep)
    : Type 0 where
  pub status : y.status ≡ StepStatus.queued
  pub step_name : y.step_name ≡ name
  pub has_upstream : 0 < length (upstream definition name)
  pub settled : all (λ s. is_settled s.status) (steps_named db (upstream definition name)) ≡ true

-- What the step does where it does anything: one pending row of the dependent step is queued.
pub record Queues (definition : ProcessDefinition) (db : Db) (name : String) (db' : Db)
    : Type 0 where
  pub row : ProcessStep
  pub row_name : row.step_name ≡ name
  pub pending : row.status ≡ StepStatus.pending
  pub has_upstream : 0 < length (upstream definition name)
  pub settled : all (λ s. is_settled s.status) (steps_named db (upstream definition name)) ≡ true
  pub process : db'.process ≡ db.process
  pub steps :
      db'.steps
      ≡ put_step (record row { status = StepStatus.queued; next_retry_at = none }) db.steps
  pub mem : find? (λ s. s.process_id == db.process.id && s.step_name == name) db.steps ≡ some row

-- What the step does: it raises, it leaves everything, or it queues a row.
pub data NextView (definition : ProcessDefinition) (db : Db) (name : String) (r : Option Db)
    : Type 0 where
  raises :
      1 < length (filter (λ s. s.process_id == db.process.id && s.step_name == name) db.steps)
      → r ≡ none
      → NextView definition db name r
  leaves : r ≡ some db → NextView definition db name r
  queues : (db' : Db) → Queues definition db name db' → r ≡ some db' → NextView definition db name r

one_row_view :
    (rows : List ProcessStep)
    → (rows ≡ [])
      ⊎ (((s : ProcessStep) × (rows ≡ s ∷ []))
          ⊎ ((1 < length rows) × (scalar_one_or_none rows ≡ none)))
one_row_view [] = inl refl
one_row_view (s ∷ []) = inr (inl (s, refl))
one_row_view (s ∷ t ∷ rest) = inr (inr (omega arith, refl))

pub enqueue_next-NextView :
    (definition : ProcessDefinition) (completed_step : String) (db : Db) (name : String)
    → NextView definition db name (enqueue_next definition completed_step db name)
unfolding enqueue_next
enqueue_next-NextView definition completed_step db name =
    let upstreams = upstream definition name in
    let is_next : ProcessStep → Bool = λ s. s.process_id == db.process.id && s.step_name == name in
    elim (Bool-cases (leb (length upstreams) 0)) [
      | inl rootless ↦ leaves (rw (rootless, enqueue_next))
      | inr rooted ↦ elim (Bool-cases (all (λ s. is_settled s.status) (steps_named db upstreams))) [
        | inr waiting ↦ leaves (rw (rooted, waiting, enqueue_next))
        | inl done ↦ elim (one_row_view (filter is_next db.steps)) [
          | inl e ↦ leaves (rw (rooted, done, e, enqueue_next))
          | inr (inr (several, e)) ↦ raises several (rw (rooted, done, e, enqueue_next))
          | inr (inl (row, e)) ↦
              let found = find?-filter is_next db.steps row [] e in
              elim (Bool-cases (row.status == StepStatus.pending)) [
                | inr other ↦ leaves (rw (rooted, done, e, other, enqueue_next))
                | inl waits ↦
                    let queued : Db =
                      add_event
                        (record db {
                          steps =
                              put_step
                                (record row { status = StepStatus.queued; next_retry_at = none })
                                db.steps;
                        })
                        (some row.id) "step.queued"
                        (field "triggered_by" (str completed_step) end) in
                    queues queued
                      (record {
                        row = row;
                        row_name = ground (
                          arith,
                          eq_iff row.step_name name,
                          find?-passes is_next db.steps row found,
                        );
                        pending = ground arith;
                        has_upstream = ground arith;
                        settled = done;
                        process = refl;
                        steps = refl;
                        mem = found;
                      })
                      (rw (rooted, done, e, waits, enqueue_next))
              ]
        ]
      ]
    ]

queued_rows :
    (definition : ProcessDefinition) (db : Db) (name : String) (db' : Db) (y : ProcessStep)
    → Queues definition db name db'
    → Memᴰ y db'.steps
    → Memᴰ y db.steps ⊎ IsReady definition db name y
queued_rows definition db name db' y q m =
    elim (mem-put_step (record (q.row) { status = StepStatus.queued; next_retry_at = none }) y
      db.steps (rw (q.steps) at m)) [
        | inl old ↦ inl old
        | inr e ↦ inr (record {
          status = rw e;
          step_name = rw e (q.row_name);
          has_upstream = q.has_upstream;
          settled = q.settled;
        })
      ]

-- Where the step returns, every row after it is an old row, or one of the dependent step, queued because all
-- its upstream steps are completed or skipped. It raises only if several rows of the process have the name of the
-- dependent step.
pub enqueue_next-IsReady :
    (definition : ProcessDefinition) (completed_step : String) (db : Db) (name : String)
    → ((db' : Db) (y : ProcessStep)
        → enqueue_next definition completed_step db name ≡ some db'
        → Memᴰ y db'.steps
        → Memᴰ y db.steps ⊎ IsReady definition db name y)
      × (enqueue_next definition completed_step db name ≡ none
          → 1
            < length (filter (λ s. s.process_id == db.process.id && s.step_name == name) db.steps))
enqueue_next-IsReady definition completed_step db name =
    elim (enqueue_next-NextView definition completed_step db name) [
      | raises several e ↦ (λ db' y returned m. cc, λ raised. several)
      | leaves e ↦ (
        λ db' y returned m.
            let same : ◌≡◌ {A = Db} db db' = cc in
            inl (subst (λ (d : Db). Memᴰ y d.steps) (sym same) m),
        λ raised. cc,
      )
      | queues queued q e ↦ (
        λ db' y returned m.
            let same : ◌≡◌ {A = Db} queued db' = cc in
            queued_rows definition db name queued y q
              (subst (λ (d : Db). Memᴰ y d.steps) (sym same) m),
        λ raised. cc,
      )
    ]
