-- ===== src/Workflow/Api.antt =====
-- The handlers of backend/app/workflow/api/routes.py that change state, over the rows of one process. The
-- HTTP layer, the look-up of the process and `_serialize_process`, which only reads, are left out. New
-- identifiers come from the argument `first_id`, the clock from `now`.
pub mod Create
pub mod Start
pub mod Stop
use apex_ai.Prelude.{
  ℕ, zero, suc, ◌+◌, Bool, true, false, not, ◌&&◌, ◌||◌, Option, none, some, List, [], ◌∷◌, ◌++◌,
  map, String, Eq, ◌==◌, nat_eq, string_eq, if◌then◌else◌, find?, contains, length, Result, ok, err,
  ◌>>=◌, ◌>>◌, guard,
}
use apex_ai.Workflow.Json.{Json, num, str, obj, Fields, end, field}
use apex_ai.Workflow.Records.{
  ProcessStatus, StepStatus, Process, ProcessStep, ProcessEvent, ProcessDlq, step_status_eq,
  process_status_eq,
}
use apex_ai.Workflow.Dag.{DagValidationError, validate_dag}
use apex_ai.Workflow.Definition.Agreement.{model_dump}
use apex_ai.Workflow.Definition.{
  DefinitionError, validate_definition, StepDef, ProcessDefinition, root_steps, def_names,
}
use apex_ai.Workflow.State.{InvalidTransition, transition_process, transition_step}
use apex_ai.Workflow.Executor.{Db, put_step, add_event}

pub data ApiError : Type 0 where
  cannot_start : ProcessStatus → ApiError
  cannot_resume : ProcessStatus → ApiError
  refused : InvalidTransition → ApiError
  already_resolved : ApiError
  invalid_definition : DefinitionError → ApiError
  invalid_dag : DagValidationError → ApiError

abbrev pub lift_refusal {ℓ} : {A : Type ℓ} → Result InvalidTransition A → Result ApiError A
lift_refusal (ok a) = ok a
lift_refusal (err e) = err (refused e)

abbrev pub attempts_or_default : Option ℕ → ℕ
attempts_or_default none = 5
attempts_or_default (some n) = if n == 0 then 5 else n

-- The rows that `create_process` adds, one for each step of the definition.
unfoldable pub create_rows : ℕ → ℕ → ℕ → List StepDef → List ProcessStep
create_rows now process_id id [] = []
create_rows now process_id id (s ∷ ss) =
    (record {
      id = id;
      process_id = process_id;
      step_name = s.name;
      prompt_template = s.prompt;
      status = StepStatus.pending;
      attempt = 0;
      max_attempts = attempts_or_default s.max_attempts;
      inputs = end;
      outputs = end;
      next_retry_at = none;
      error = none;
      started_at = none;
      finished_at = none;
      created_at = now;
    })
    ∷ create_rows now process_id (id + 1) ss

-- `create_process` once the definition has been validated.
unfoldable pub create_process :
    ℕ → ℕ → ℕ → Option String → Option String → String → Fields → ProcessDefinition → Db
unfolding create_rows
create_process now process_id first_id org_id user_id name inputs pdef =
    let process : Process = record {
      id = process_id;
      org_id = org_id;
      user_id = user_id;
      name = name;
      status = ProcessStatus.draft;
      inputs = inputs;
      outputs = end;
      started_at = none;
      finished_at = none;
    } in
    record {
      process = process;
      steps = create_rows now process_id first_id pdef.steps;
      events =
          record {
            process_id = process_id;
            step_id = none;
            event_type = "process.created";
            payload = field "name" (str name) (field "step_count" (num (length pdef.steps)) end);
            actor_id = user_id;
          }
          ∷ [];
      dlq = [];
    }

abbrev pub raise_as {ℓ κ} :
    {E : Type ℓ} {A : Type κ} → (E → ApiError) → Result E A → Result ApiError A
raise_as raised (ok a) = ok a
raise_as raised (err e) = err (raised e)

module _ (strip : String → String) (sorted : List String → List String) where
  -- `create_process` with both validations, on a definition whose fields Pydantic has read.
  unfoldable pub create_checked :
      ℕ
      → ℕ
      → ℕ
      → Option String
      → Option String
      → String
      → Fields
      → ProcessDefinition
      → Result ApiError Db
  unfolding validate_definition validate_dag create_process
  create_checked now process_id first_id org_id user_id name inputs body = do
    pdef ← raise_as invalid_definition (validate_definition body)
    dag ← raise_as invalid_dag (validate_dag strip sorted (model_dump pdef))
    ok (create_process now process_id first_id org_id user_id name inputs pdef)

abbrev step_queued : ProcessStep → ProcessEvent
step_queued s = record {
  process_id = s.process_id;
  step_id = some s.id;
  event_type = "step.queued";
  payload = field "step_name" (str s.step_name) end;
  actor_id = none;
}

-- The loop over the root steps, and the events that it adds.
unfoldable pub queue_roots : ℕ → List String → List ProcessStep → List ProcessStep
queue_roots process_id root_names [] = []
queue_roots process_id root_names (s ∷ ss) =
    (if s.process_id == process_id && contains root_names s.step_name
      then record s { status = StepStatus.queued }
      else s)
    ∷ queue_roots process_id root_names ss

unfoldable pub queue_events : ℕ → List String → List ProcessStep → List ProcessEvent
queue_events process_id root_names [] = []
queue_events process_id root_names (s ∷ ss) =
    let rest = queue_events process_id root_names ss in
    if s.process_id == process_id && contains root_names s.step_name
    then step_queued s ∷ rest
    else rest

-- `start_process`
unfoldable pub start_process : ℕ → Option String → ProcessDefinition → Db → Result ApiError Db
unfolding queue_roots queue_events root_steps
start_process now actor_id pdef db = do
  guard (db.process.status == ProcessStatus.draft) (cannot_start db.process.status)
  moved ← lift_refusal (transition_process now db.process ProcessStatus.queued actor_id end)
  let root_names = def_names (root_steps pdef)
  ok (record db {
    process = moved.0;
    steps = queue_roots db.process.id root_names db.steps;
    events = (db.events ++ moved.1 ∷ []) ++ queue_events db.process.id root_names db.steps;
  })

abbrev pub is_active : StepStatus → Bool
is_active status =
    contains
      (StepStatus.pending ∷ StepStatus.queued ∷ StepStatus.running ∷ StepStatus.retrying ∷ [])
      status

-- The loop over the active steps; a refused transition is passed over.
unfoldable pub cancel_steps :
    ℕ → Option String → List ProcessStep → List ProcessStep × List ProcessEvent
unfolding transition_step
cancel_steps process_id actor_id [] = ([], [])
cancel_steps process_id actor_id (s ∷ ss) =
    let (rows, events) = cancel_steps process_id actor_id ss in
    if s.process_id == process_id && is_active s.status
    then elim (transition_step s StepStatus.cancelled actor_id end) [
      | ok (s', event) ↦ (s' ∷ rows, event ∷ events)
      | err _ ↦ (s ∷ rows, events)
    ]
    else (s ∷ rows, events)

-- `cancel_process`
unfoldable pub cancel_process : ℕ → Option String → Db → Result ApiError Db
cancel_process now actor_id db = do
  moved ← lift_refusal (transition_process now db.process ProcessStatus.cancelled actor_id end)
  let cancelled = cancel_steps db.process.id actor_id db.steps
  ok (record db {
    process = moved.0;
    steps = cancelled.0;
    events = (db.events ++ moved.1 ∷ []) ++ cancelled.1;
  })

unfoldable pub requeue_paused : ℕ → List ProcessStep → List ProcessStep
requeue_paused process_id [] = []
requeue_paused process_id (s ∷ ss) =
    (if s.process_id == process_id && s.status == StepStatus.paused
      then record s { status = StepStatus.queued; next_retry_at = none }
      else s)
    ∷ requeue_paused process_id ss

-- `resume_process`
unfoldable pub resume_process : ℕ → Option String → Db → Result ApiError Db
resume_process now actor_id db = do
  guard (contains (ProcessStatus.paused ∷ ProcessStatus.stuck ∷ []) db.process.status)
      (cannot_resume db.process.status)
  moved ← lift_refusal (transition_process now db.process ProcessStatus.running actor_id end)
  ok (record db {
    process = moved.0;
    steps = requeue_paused db.process.id db.steps;
    events = db.events ++ moved.1 ∷ [];
  })

-- The rows after `replay_dlq`: the step, if it still has failed, is pending again.
unfoldable pub replay_step : ℕ → List ProcessStep → List ProcessStep
replay_step step_id [] = []
replay_step step_id (s ∷ ss) =
    (if s.id == step_id && s.status == StepStatus.failed
      then record s { status = StepStatus.pending; attempt = 0; next_retry_at = none; error = none }
      else s)
    ∷ replay_step step_id ss

-- `replay_dlq`, on a dead-letter row and the rows of the steps.
unfoldable pub replay_dlq :
    ℕ → ProcessDlq → List ProcessStep → Result ApiError (ProcessDlq × List ProcessStep)
unfolding replay_step
replay_dlq now dlq steps = elim (dlq.resolved_at) [
  | some _ ↦ err already_resolved
  | none ↦ ok (
    record dlq { resolved_at = some now; resolution = some "replayed" },
    replay_step dlq.step_id steps,
  )
]
