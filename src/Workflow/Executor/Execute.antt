-- ===== src/Workflow/Executor/Execute.antt =====
-- `StepExecutor.execute`. `clock` is the reading of the clock. Parameters: what Pydantic reads from a row,
-- the split of a template by the regular expression, `str` of values and of exceptions, and what the
-- agent loop returns or raises.
pub mod Rows
pub mod Outcomes
use apex_ai.Prelude.{
  ℕ, zero, suc, ◌*◌, Bool, true, false, not, Option, none, some, List, [], ◌∷◌, ◌++◌, map, String,
  Eq, ◌==◌, nat_eq, string_eq, if◌then◌else◌, leb, contains, all, ◌||◌, length, Result, ok, err,
  ◌>>=◌,
}
use Prim.Native.String
use apex_ai.Agent.Results.{AgentResult, FinishReason, finish_reason_text, is_awaiting, role_values}
use apex_ai.Workflow.Json.{Json, null, num, str, arr, Items, nil, cons, obj, Fields, end, field}
use apex_ai.Workflow.Records.{
  ProcessStatus, StepStatus, Process, ProcessStep, ProcessEvent, ProcessDlq, process_status_eq,
}
use apex_ai.Workflow.Definition.{
  StepDef, ProcessDefinition, DefinitionError, validate_definition, step_by_name, upstream,
}
use apex_ai.Workflow.Definition.Template.{Segment, TemplateError, resolve_template, outputs_of}
use apex_ai.Workflow.Queue.{mark_step_completed, mark_step_failed}
use apex_ai.Workflow.State.{transition_process}
use apex_ai.Workflow.Executor.{
  Db, put_step, own_steps, is_over, add_event, steps_named, enqueue_downstream,
  maybe_complete_or_fail_process,
}

-- The part of `AgentLoopConfig` that the executor fills in.
pub record RunConfig : Type 0 where
  pub role : String
  pub user_prompt : String
  pub user_id : Option String
  pub org_id : Option String
  pub max_steps : Option ℕ

-- `max_attempts and max_attempts * 5 or None`
abbrev pub run_max_steps : Option ℕ → Option ℕ
run_max_steps none = none
run_max_steps (some n) = if leb n 0 then none else some (n * 5)

abbrev pub option_or : Option String → String → String
option_or none d = d
option_or (some s) d = if s == "" then d else s

-- The commit of a changed step: `attached` is whether the session holds the object. The attributes of an
-- object that it does not hold are set, and no row is written.
unfoldable pub save_step : Bool → ProcessStep → List ProcessStep → List ProcessStep
unfolding put_step
save_step attached step steps = if attached then put_step step steps else steps

-- `mark_step_failed` on the database. The dead-letter row is a new one, and added in either case.
unfoldable pub fail_step : Bool → ℕ → Db → ProcessStep → String → Db
unfolding mark_step_failed save_step
fail_step attached clock db step error =
    let (step', dead) = mark_step_failed clock clock step error in
    record db {
      steps = save_step attached step' db.steps;
      dlq = elim dead [ none ↦ db.dlq | some row ↦ db.dlq ++ row ∷ [] ];
    }

-- The outputs of the upstream steps, by name.
unfoldable pub step_outputs : List ProcessStep → List (String × Fields)
step_outputs steps = map (λ s. (s.step_name, s.outputs)) steps

-- `s[:n]`
unfoldable pub text_take : ℕ → String → String
text_take zero s = ""
text_take (suc n) String.[] = ""
text_take (suc n) (String.◌∷◌ c s) = String.◌∷◌ c (text_take n s)

abbrev optional_text : Option String → Json
optional_text none = null
optional_text (some s) = str s

-- `{n: step_outputs.get(n, {}) for n in upstream_names}`
unfoldable pub upstream_outputs : List (String × Fields) → List String → Fields
upstream_outputs outputs [] = end
upstream_outputs outputs (n ∷ names) =
    field n (elim (outputs_of n outputs) [ none ↦ obj end | some o ↦ obj o ])
      (upstream_outputs outputs names)

text_items : List String → Items
text_items [] = nil
text_items (s ∷ ss) = cons (str s) (text_items ss)

unfoldable pub run_outputs : AgentResult → Fields
unfolding text_items
run_outputs r = field "summary" (str r.summary) (
    field "agent_run_id" (num r.agent_run_id) (
      field "finish_reason" (str (finish_reason_text r.finish_reason)) (
        field "steps" (num r.steps) (
          field "input_tokens" (num r.input_tokens) (
            field "output_tokens" (num r.output_tokens)
              (field "intentional_files" (arr (text_items r.intentional_files)) end))))))

-- The process is paused only if it is running; a refused transition is passed over.
unfoldable pub pause_process : ℕ → Db → ProcessStep → Db
unfolding transition_process
pause_process clock db step =
    if db.process.status == ProcessStatus.running
    then elim (transition_process clock db.process ProcessStatus.paused (some "system")
        (field "step" (str step.step_name) (field "reason" (str "approval gate") end))) [
          | ok (process, event) ↦ record db { process = process; events = db.events ++ event ∷ [] }
          | err _ ↦ db
        ]
    else db

-- After a failed run: the event "step.failed" is added after the commit of the step, and it is only
-- committed where the process may end.
unfoldable pub end_failed : ℕ → Db → ProcessStep → AgentResult → Db
end_failed clock failed step result =
    let own = own_steps failed in
    let ended = maybe_complete_or_fail_process clock (
      add_event failed (some step.id) "step.failed" (
        field "finish_reason" (str (finish_reason_text result.finish_reason))
          (field "error" (optional_text result.error) end))) in
    if leb (length own) 0 || not (all (λ s. is_over s.status) own) then failed else ended

-- After a successful run. Where the look-up of a dependent step raises, `execute` raises, and what
-- `_enqueue_downstream` has changed is not committed.
unfoldable pub end_completed : ℕ → Db → ProcessDefinition → ProcessStep → AgentResult → Db
end_completed clock done definition step result =
    let completed = add_event done (some step.id) "step.completed" (
      field "finish_reason" (str (finish_reason_text result.finish_reason))
        (field "summary" (str (text_take 500 result.summary)) end)) in
    elim (enqueue_downstream completed definition step.step_name) [
      | none ↦ completed
      | some queued ↦ maybe_complete_or_fail_process clock queued
    ]

-- From the result of the run to the end: paused for approval, failed, or completed.
unfoldable pub finish_step : Bool → ℕ → Db → ProcessDefinition → ProcessStep → AgentResult → Db
unfolding mark_step_completed end_failed end_completed
finish_step attached clock db definition step result =
    if is_awaiting result.finish_reason
    then pause_process clock
        (record db {
          steps =
              save_step attached
                (record step {
                  status = StepStatus.paused;
                  error = result.error;
                  finished_at = some clock;
                })
                db.steps;
        })
        step
    else if not result.success
    then end_failed clock
        (fail_step attached clock db step (
          option_or result.error
            (String.◌++◌ "finish_reason=" (finish_reason_text result.finish_reason))))
        step result
    else end_completed clock
        (record db {
          steps = save_step attached (mark_step_completed clock step (run_outputs result)) db.steps;
        })
        definition step result

-- An exception as the text that the code formats into a message.
abbrev pub with_text {ℓ κ} : {E : Type ℓ} {A : Type κ} → (E → String) → Result E A → Result String A
with_text text (ok a) = ok a
with_text text (err e) = err (text e)

-- `ProcessDefinition.model_validate`: what Pydantic reads from the row, and then the validator.
unfoldable pub model_validate :
    (Process → Result String ProcessDefinition)
    → (DefinitionError → String)
    → Process
    → Result String ProcessDefinition
unfolding validate_definition
model_validate read_definition definition_text process = do
  definition ← read_definition process
  with_text definition_text (validate_definition definition)

-- `resolve_template` on `step.prompt_template or step_def.prompt`, split into its parts by `split`.
unfoldable pub resolved_prompt :
    (String → List Segment)
    → (Json → String)
    → (TemplateError → String)
    → StepDef
    → ProcessStep
    → Fields
    → List (String × Fields)
    → Result String String
unfolding resolve_template
resolved_prompt split str_of template_text step_def step inputs outputs =
    let template = if step.prompt_template == "" then step_def.prompt else step.prompt_template in
    with_text template_text (resolve_template str_of (split template) inputs outputs)

module _ (run_loop : RunConfig → Result String AgentResult) (clock : ℕ) (attached : Bool) where
  -- The step with its inputs filled in, after the event that announces the run.
  unfoldable pub run_step :
      Db → ProcessDefinition → StepDef → ProcessStep → List (String × Fields) → String → Db
  unfolding save_step upstream_outputs upstream
  run_step db definition step_def step outputs prompt =
      let names = upstream definition step.step_name in
      let step' = record step {
        inputs =
            field "prompt" (str prompt)
              (field "upstream_outputs" (obj (upstream_outputs outputs names)) end);
      } in
      let started =
        add_event (record db { steps = save_step attached step' db.steps }) (some step.id)
          "step.started"
          (field "attempt" (num step.attempt)
            (field "prompt_preview" (str (text_take 200 prompt)) end)) in
      if not (contains role_values step_def.role)
      then fail_step attached clock started step' (String.◌++◌ "Unknown role: " step_def.role)
      else elim (run_loop (record {
        role = step_def.role;
        user_prompt = prompt;
        user_id = db.process.user_id;
        org_id = db.process.org_id;
        max_steps = run_max_steps step_def.max_attempts;
      })) [
        | err crash ↦ fail_step attached clock started step' (String.◌++◌ "Loop crashed: " crash)
        | ok result ↦ finish_step attached clock started definition step' result
      ]

module _ (read_definition : Process → Result String ProcessDefinition)
    (definition_text : DefinitionError → String) (split : String → List Segment)
    (str_of : Json → String) (template_text : TemplateError → String)
    (run_loop : RunConfig → Result String AgentResult) (clock : ℕ) (attached : Bool) where
  -- `found` is whether the parent process still has its row, `attached` whether the session holds the
  -- step. The result is what is committed, also where the code raises at the end.
  unfoldable pub execute : Bool → Db → ProcessStep → Db
  execute found db step =
      if not found
      then fail_step attached clock db step "Parent process deleted"
      else elim (model_validate read_definition definition_text db.process) [
        | err e ↦ fail_step attached clock db step (String.◌++◌ "Invalid definition: " e)
        | ok definition ↦ elim (step_by_name definition step.step_name) [
          | none ↦
              fail_step attached clock db step (String.◌++◌ step.step_name " not in definition")
          | some step_def ↦
              let outputs = step_outputs (steps_named db (upstream definition step.step_name)) in
              elim (resolved_prompt split str_of template_text step_def step db.process.inputs
                outputs) [
                  | err e ↦ fail_step attached clock db step (String.◌++◌ "Template error: " e)
                  | ok prompt ↦
                      run_step run_loop clock attached db definition step_def step outputs prompt
                ]
        ]
      ]
