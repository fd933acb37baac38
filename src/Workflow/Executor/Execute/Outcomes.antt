-- ===== src/Workflow/Executor/Execute/Outcomes.antt =====
-- What `execute` leaves of a claim: every path ends it, if the session holds the step, and none does if not.
use apex_ai.Prelude.{
  ℕ, ◌≡◌, refl, inl, inr, Bool, true, false, not, ◌||◌, some, List, String, nat_eq, string_eq,
  contains, leb, length, all, Bool-cases, Option-cases, Result-cases, Result, arith,
}
use apex_ai.Agent.Results.{AgentResult, finish_reason_text, is_awaiting, role_values}
use apex_ai.Workflow.Json.{Json, Fields, str, field, end}
use apex_ai.Workflow.Records.{ProcessStatus, StepStatus, Process, ProcessStep, step_status_eq}
use apex_ai.Workflow.Definition.Template.{Segment, TemplateError}
use apex_ai.Workflow.Definition.{
  DefinitionError, StepDef, ProcessDefinition, step_by_name, upstream, downstream,
}
use apex_ai.Workflow.Queue.{mark_step_completed, mark_step_failed}
use apex_ai.Workflow.Executor.{
  Db, add_event, enqueue_each, enqueue_downstream, try_finish, own_steps, is_over,
  maybe_complete_or_fail_process, steps_named, aggregate,
}
use apex_ai.Workflow.Executor.Execute.{
  model_validate, resolved_prompt, RunConfig, save_step, fail_step, pause_process, end_failed,
  end_completed, finish_step, run_step, execute, step_outputs, run_outputs, run_max_steps,
  text_take,
}
use apex_ai.Workflow.Executor.Execute.Rows.{
  is_ended, RowsAre, EndedRows, is_running, put_step-RowsAre, enqueue_each-RowsAre,
}

try_finish-steps :
    (now : ℕ) (db : Db) (status : ProcessStatus) → (try_finish now db status).steps ≡ db.steps
unfolding try_finish
try_finish-steps now db status = ground arith

maybe_complete-steps :
    (now : ℕ) (db : Db) → (maybe_complete_or_fail_process now db).steps ≡ db.steps
unfolding maybe_complete_or_fail_process
maybe_complete-steps now db = ground (
  arith,
  try_finish-steps now db ProcessStatus.failed,
  try_finish-steps now
      (record db { process = record (db.process) { outputs = aggregate (own_steps db) end } })
      ProcessStatus.completed,
)

mark_step_failed-ended :
    (clock : ℕ) (step : ProcessStep) (e : String)
    → let s = (mark_step_failed clock clock step e).0 in
      (s.id ≡ step.id) × (is_ended s.status ≡ true)
unfolding mark_step_failed
mark_step_failed-ended clock step e = ground arith

pause_process-steps :
    (clock : ℕ) (db : Db) (step : ProcessStep) → (pause_process clock db step).steps ≡ db.steps
unfolding pause_process
pause_process-steps clock db step = ground arith

-- A row that the session holds is saved with a status of the kind; or the session does not hold it, and
-- the rows were of the kind before.
abbrev IsKept : (StepStatus → Bool) → Bool → ℕ → List ProcessStep → Type 0
IsKept p true id steps = (status : StepStatus) → is_ended status ≡ true → p status ≡ true
IsKept p false id steps = RowsAre p id steps

save_step-RowsAre :
    (p : StepStatus → Bool) (attached : Bool) (id : ℕ) (s : ProcessStep) (xs : List ProcessStep)
    → p StepStatus.pending ≡ false
    → s.id ≡ id
    → is_ended s.status ≡ true
    → IsKept p attached id xs
    → RowsAre p id (save_step attached s xs)
unfolding save_step
save_step-RowsAre p true id s xs not_pending e ended kept =
    rw (← e) (put_step-RowsAre p not_pending s xs (kept s.status ended))
save_step-RowsAre p false id s xs not_pending e ended kept = kept

save_step-IsKept :
    (p : StepStatus → Bool) (attached : Bool) (id : ℕ) (s : ProcessStep) (xs : List ProcessStep)
    → IsKept p attached id xs
    → IsKept p attached id (save_step attached s xs)
unfolding save_step
save_step-IsKept p true id s xs kept = kept
save_step-IsKept p false id s xs kept = kept

module _ (p : StepStatus → Bool) (not_pending : p StepStatus.pending ≡ false) (attached : Bool)
    (clock : ℕ) where
  fail_step-RowsAre :
      (db : Db) (step : ProcessStep) (e : String)
      → IsKept p attached step.id db.steps
      → RowsAre p step.id (fail_step attached clock db step e).steps
  unfolding fail_step
  fail_step-RowsAre db step e kept =
      let (same, ended) = mark_step_failed-ended clock step e in
      save_step-RowsAre p attached step.id (mark_step_failed clock clock step e).0 db.steps
        not_pending same ended kept

  end_failed-steps :
      (failed : Db) (step : ProcessStep) (result : AgentResult)
      → (end_failed clock failed step result).steps ≡ failed.steps
  unfolding end_failed
  end_failed-steps failed step result =
      let own = own_steps failed in
      elim (Bool-cases (leb (length own) 0 || not (all (λ s. is_over s.status) own))) [
        | inl early ↦ rw (early, end_failed) refl
        | inr late ↦ rw (late, end_failed, maybe_complete-steps) refl
      ]

  end_completed-RowsAre :
      (id : ℕ) (done : Db) (definition : ProcessDefinition) (step : ProcessStep)
      (result : AgentResult)
      → RowsAre p id done.steps
      → RowsAre p id (end_completed clock done definition step result).steps
  unfolding end_completed enqueue_downstream
  end_completed-RowsAre id done definition step result h =
      let completed = add_event done (some step.id) "step.completed" (
        field "finish_reason" (str (finish_reason_text result.finish_reason))
          (field "summary" (str (text_take 500 result.summary)) end)) in
      let names = downstream definition step.step_name in
      elim (Option-cases (enqueue_each definition step.step_name completed names)) [
        | inl raised ↦ rw (raised, end_completed) h
        | inr (queued, e) ↦
            rw (e, end_completed, maybe_complete-steps)
              (enqueue_each-RowsAre p not_pending id definition step.step_name completed queued
                names h e)
      ]

  finish_step-RowsAre :
      (db : Db) (definition : ProcessDefinition) (step : ProcessStep) (result : AgentResult)
      → IsKept p attached step.id db.steps
      → RowsAre p step.id (finish_step attached clock db definition step result).steps
  unfolding finish_step run_outputs mark_step_completed
  finish_step-RowsAre db definition step result kept =
      elim (Bool-cases (is_awaiting result.finish_reason)) [
        | inl waits ↦
            rw (waits, pause_process-steps)
              (save_step-RowsAre p attached step.id _ db.steps not_pending refl refl kept)
        | inr runs ↦ elim (Bool-cases result.success) [
          | inl good ↦
              rw (runs, good)
                (end_completed-RowsAre step.id _ definition step result (
                  save_step-RowsAre p attached step.id
                    (mark_step_completed clock step (run_outputs result)) db.steps not_pending refl
                    refl kept))
          | inr bad ↦ rw (runs, bad, end_failed-steps) (fail_step-RowsAre db step _ kept)
        ]
      ]

module _ (p : StepStatus → Bool) (not_pending : p StepStatus.pending ≡ false)
    (run_loop : RunConfig → Result String AgentResult) (clock : ℕ) (attached : Bool) where
  run_step-RowsAre :
      (db : Db) (definition : ProcessDefinition) (step_def : StepDef) (step : ProcessStep)
      (outputs : List (String × Fields)) (prompt : String)
      → IsKept p attached step.id db.steps
      → RowsAre p step.id
          (run_step run_loop clock attached db definition step_def step outputs prompt).steps
  unfolding run_step
  run_step-RowsAre db definition step_def step outputs prompt kept =
      let still = save_step-IsKept p attached step.id _ db.steps kept in
      elim (Bool-cases (contains role_values step_def.role)) [
        | inr unknown ↦ rw unknown (fail_step-RowsAre p not_pending attached clock _ _ _ still)
        | inl known ↦
            elim (Result-cases (
              run_loop (record {
                role = step_def.role;
                user_prompt = prompt;
                user_id = db.process.user_id;
                org_id = db.process.org_id;
                max_steps = run_max_steps step_def.max_attempts;
              }))) [
                | inl (result, e) ↦
                    rw (known, e)
                      (finish_step-RowsAre p not_pending attached clock _ definition _ result still)
                | inr (x, e) ↦
                    rw (known, e) (fail_step-RowsAre p not_pending attached clock _ _ _ still)
              ]
      ]

module _ (read_definition : Process → Result String ProcessDefinition)
    (definition_text : DefinitionError → String) (split : String → List Segment)
    (str_of : Json → String) (template_text : TemplateError → String)
    (run_loop : RunConfig → Result String AgentResult) (clock : ℕ) where
  execute-RowsAre :
      (p : StepStatus → Bool) (attached found : Bool) (db : Db) (step : ProcessStep)
      → p StepStatus.pending ≡ false
      → IsKept p attached step.id db.steps
      → RowsAre p step.id
          (execute read_definition definition_text split str_of template_text run_loop clock
            attached found db step).steps
  unfolding execute
  execute-RowsAre p attached false db step not_pending kept =
      fail_step-RowsAre p not_pending attached clock db step _ kept
  execute-RowsAre p attached true db step not_pending kept =
      let fails = fail_step-RowsAre p not_pending attached clock db step in
      elim (Result-cases (model_validate read_definition definition_text db.process)) [
        | inr (x, e) ↦ rw e (fails _ kept)
        | inl (definition, e) ↦ elim (Option-cases (step_by_name definition step.step_name)) [
          | inl absent ↦ rw (e, absent) (fails _ kept)
          | inr (step_def, here) ↦
              let outputs = step_outputs (steps_named db (upstream definition step.step_name)) in
              elim (Result-cases (
                resolved_prompt split str_of template_text step_def step db.process.inputs
                  outputs)) [
                    | inr (x, bad) ↦ rw (e, here, bad) (fails _ kept)
                    | inl (prompt, good) ↦
                        rw (e, here, good)
                          (run_step-RowsAre p not_pending run_loop clock attached db definition
                            step_def step outputs prompt kept)
                  ]
        ]
      ]

  -- Whatever the definition, the template, the role and the agent loop give, errors and crashes included:
  -- if the session holds the step, then after `execute` every row of the step is completed, waiting for a retry,
  -- failed or paused. If it does not, as when the worker calls `execute`, then a step whose row is running is
  -- left running.
  pub execute-EndedRows :
      (found : Bool) (db : Db) (step : ProcessStep)
      → EndedRows step.id
          (execute read_definition definition_text split str_of template_text run_loop clock true
            found db step).steps
        × (RowsAre is_running step.id db.steps
            → RowsAre is_running step.id
                (execute read_definition definition_text split str_of template_text run_loop clock
                  false found db step).steps)
  execute-EndedRows found db step = (
    execute-RowsAre is_ended true found db step refl (λ status ended. ended),
    λ running. execute-RowsAre is_running false found db step refl running,
  )
