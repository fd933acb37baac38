-- ===== src/Workflow/Executor.antt =====
-- backend/app/workflow/executor.py, over the rows of one database. What the agent loop of a step returns
-- or raises is a parameter.
pub mod Enqueue
pub mod Finalize
pub mod Execute
use apex_ai.Prelude.{
  ℕ, ◌*◌, Bool, true, false, not, ◌&&◌, ◌||◌, Option, none, some, List, [], ◌∷◌, ◌++◌, map, String,
  Eq, ◌==◌, nat_eq, string_eq, if◌then◌else◌, leb, filter, find?, all, any, contains, length,
  Result, ok, err,
}
use apex_ai.Workflow.Json.{Json, str, obj, Fields, end, field, nonempty, put_field}
use apex_ai.Workflow.Records.{
  ProcessStatus, StepStatus, Process, ProcessStep, ProcessEvent, ProcessDlq, step_status_eq,
  process_status_eq,
}
use apex_ai.Workflow.Definition.{StepDef, ProcessDefinition, step_by_name, upstream, downstream}
use apex_ai.Workflow.Queue.{mark_step_completed, mark_step_failed}
use apex_ai.Workflow.State.{transition_process}

pub record Db : Type 0 where
  pub process : Process
  pub steps : List ProcessStep
  pub events : List ProcessEvent
  pub dlq : List ProcessDlq

-- A row written back under its identifier.
unfoldable pub put_step : ProcessStep → List ProcessStep → List ProcessStep
put_step s [] = []
put_step s (x ∷ xs) = (if x.id == s.id then s else x) ∷ put_step s xs

abbrev pub add_event : Db → Option ℕ → String → Fields → Db
add_event db step_id event_type payload = record db {
  events =
      db.events
      ++ (record {
        process_id = db.process.id;
        step_id = step_id;
        event_type = event_type;
        payload = payload;
        actor_id = none;
      })
        ∷ [];
}

-- `ProcessStep.process_id == process.id, ProcessStep.step_name.in_(names)`
unfoldable pub steps_named : Db → List String → List ProcessStep
steps_named db names =
    filter (λ s. s.process_id == db.process.id && contains names s.step_name) db.steps

abbrev pub is_settled : StepStatus → Bool
is_settled status = contains (StepStatus.completed ∷ StepStatus.skipped ∷ []) status

abbrev pub is_over : StepStatus → Bool
is_over status =
    contains
      (StepStatus.completed ∷ StepStatus.skipped ∷ StepStatus.failed ∷ StepStatus.cancelled ∷ [])
      status

abbrev pub is_broken : StepStatus → Bool
is_broken status = contains (StepStatus.failed ∷ StepStatus.cancelled ∷ []) status

-- `scalar_one_or_none`, and nothing where it raises, because the query finds several rows.
abbrev pub scalar_one_or_none : List ProcessStep → Option (Option ProcessStep)
scalar_one_or_none [] = some none
scalar_one_or_none (s ∷ []) = some (some s)
scalar_one_or_none (s ∷ t ∷ rest) = none

-- The body of the loop in `_enqueue_downstream`, for one dependent step; nothing where it raises.
unfoldable pub enqueue_next : ProcessDefinition → String → Db → String → Option Db
unfolding upstream steps_named put_step
enqueue_next definition completed_step db next_name =
    let upstreams = upstream definition next_name in
    if leb (length upstreams) 0
    then some db
    else if not (all (λ s. is_settled s.status) (steps_named db upstreams))
    then some db
    else elim (scalar_one_or_none
        (filter (λ s. s.process_id == db.process.id && s.step_name == next_name) db.steps)) [
          | none ↦ none
          | some none ↦ some db
          | some (some next_step) ↦
              if next_step.status == StepStatus.pending
              then some (
                  add_event
                    (record db {
                      steps =
                          put_step
                            (record next_step { status = StepStatus.queued; next_retry_at = none })
                            db.steps;
                    })
                    (some next_step.id) "step.queued"
                    (field "triggered_by" (str completed_step) end))
              else some db
        ]

unfoldable pub enqueue_each : ProcessDefinition → String → Db → List String → Option Db
unfolding enqueue_next
enqueue_each definition completed_step db [] = some db
enqueue_each definition completed_step db (name ∷ names) =
    elim (enqueue_next definition completed_step db name) [
      | none ↦ none
      | some db' ↦ enqueue_each definition completed_step db' names
    ]

unfoldable pub enqueue_downstream : Db → ProcessDefinition → String → Option Db
unfolding enqueue_each downstream
enqueue_downstream db definition completed_step =
    enqueue_each definition completed_step db (downstream definition completed_step)

-- `{s.step_name: s.outputs for s in all_steps if s.outputs}`
unfoldable pub aggregate : List ProcessStep → Fields → Fields
aggregate [] acc = acc
aggregate (s ∷ ss) acc =
    aggregate ss (if nonempty s.outputs then put_field s.step_name (obj s.outputs) acc else acc)

-- The `try` around a transition: a refused one is logged and leaves the process.
unfoldable pub try_finish : ℕ → Db → ProcessStatus → Db
unfolding transition_process
try_finish now db status = elim (transition_process now db.process status (some "system") end) [
  | ok (process, event) ↦ record db { process = process; events = db.events ++ event ∷ [] }
  | err _ ↦ db
]

unfoldable pub own_steps : Db → List ProcessStep
own_steps db = filter (λ s. s.process_id == db.process.id) db.steps

-- `_maybe_complete_or_fail_process`. The outputs are written before the transition is tried.
unfoldable pub maybe_complete_or_fail_process : ℕ → Db → Db
maybe_complete_or_fail_process now db =
    let own = own_steps db in
    if leb (length own) 0
    then db
    else if not (all (λ s. is_over s.status) own)
    then db
    else if any (λ s. is_broken s.status) own
    then try_finish now db ProcessStatus.failed
    else try_finish now
        (record db { process = record (db.process) { outputs = aggregate own end } })
        ProcessStatus.completed
