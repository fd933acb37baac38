-- ===== src/Workflow/State.antt =====
-- backend/app/workflow/state.py. `datetime.utcnow()` is the argument `now`; `session.add(event)` is the
-- event in the result. A status outside the tables' strings is not a value of the status types: the
-- code gives it the empty set of targets, and puts it in no set of targets.
pub mod Traces
pub mod Replay
use Prim.Native.Char.{code}
use Prim.Native.String
use text.Mathlib.Text.{starts_with}
use apex_ai.Prelude.{
  ℕ, Bool, true, false, not, ◌&&◌, Option, none, some, List, [], ◌∷◌, String, Eq, ◌==◌, string_eq,
  nat_beq, if◌then◌else◌, contains, Result, ok, err,
}
use apex_ai.Workflow.Json.{str, end, field, Fields, merge}
use apex_ai.Workflow.Records.{
  ProcessStatus, StepStatus, Process, ProcessStep, ProcessEvent, process_status_text,
  step_status_text, process_status_eq, step_status_eq,
}

-- `PROCESS_TRANSITIONS.get(current, set())`
abbrev pub process_targets : ProcessStatus → List ProcessStatus
process_targets ProcessStatus.draft = ProcessStatus.queued ∷ ProcessStatus.cancelled ∷ []
process_targets ProcessStatus.queued =
    ProcessStatus.running ∷ ProcessStatus.cancelled ∷ ProcessStatus.stuck ∷ []
process_targets ProcessStatus.running =
    ProcessStatus.completed ∷ ProcessStatus.failed ∷ ProcessStatus.paused ∷ ProcessStatus.cancelled
    ∷ ProcessStatus.stuck ∷ []
process_targets ProcessStatus.paused = ProcessStatus.running ∷ ProcessStatus.cancelled ∷ []
process_targets ProcessStatus.completed = []
process_targets ProcessStatus.failed = []
process_targets ProcessStatus.cancelled = []
process_targets ProcessStatus.stuck = ProcessStatus.running ∷ ProcessStatus.cancelled ∷ []

-- `STEP_TRANSITIONS.get(current, set())`; the table has no row for "paused".
abbrev pub step_targets : StepStatus → List StepStatus
step_targets StepStatus.pending =
    StepStatus.queued ∷ StepStatus.running ∷ StepStatus.cancelled ∷ StepStatus.skipped ∷ []
step_targets StepStatus.queued = StepStatus.running ∷ StepStatus.cancelled ∷ []
step_targets StepStatus.running =
    StepStatus.completed ∷ StepStatus.failed ∷ StepStatus.retrying ∷ StepStatus.cancelled ∷ []
step_targets StepStatus.retrying =
    StepStatus.pending ∷ StepStatus.cancelled ∷ StepStatus.failed ∷ []
step_targets StepStatus.completed = []
step_targets StepStatus.failed = []
step_targets StepStatus.skipped = []
step_targets StepStatus.cancelled = []
step_targets StepStatus.paused = []

unfoldable pub can_transition_process : ProcessStatus → ProcessStatus → Bool
can_transition_process current target = contains (process_targets current) target

unfoldable pub can_transition_step : StepStatus → StepStatus → Bool
can_transition_step current target = contains (step_targets current) target

pub data InvalidTransition : Type 0 where
  process_transition : (id : ℕ) (from to : ProcessStatus) → InvalidTransition
  step_transition : (id : ℕ) (from to : StepStatus) → InvalidTransition

abbrev pub is_none {ℓ} : {A : Type ℓ} → Option A → Bool
is_none none = true
is_none (some a) = false

-- The statuses at which `finished_at` is written.
abbrev pub finishing : List ProcessStatus
finishing =
    ProcessStatus.completed ∷ ProcessStatus.failed ∷ ProcessStatus.cancelled ∷ ProcessStatus.stuck
    ∷ []

-- The process after its status and times are written.
unfoldable pub set_process_status : ℕ → Process → ProcessStatus → Process
set_process_status now process new_status =
    let starts = new_status == ProcessStatus.running && is_none process.started_at in
    record process {
      status = new_status;
      started_at = if starts then some now else process.started_at;
      finished_at = if contains finishing new_status then some now else process.finished_at;
    }

abbrev pub process_event_type : ProcessStatus → String
process_event_type new_status = String.◌++◌ "process." (process_status_text new_status)

abbrev pub step_event_type : StepStatus → String
step_event_type new_status = String.◌++◌ "step." (step_status_text new_status)

unfoldable pub transition_process :
    ℕ
    → Process
    → ProcessStatus
    → Option String
    → Fields
    → Result InvalidTransition (Process × ProcessEvent)
unfolding can_transition_process set_process_status merge
transition_process now process new_status actor_id payload =
    if not (can_transition_process process.status new_status)
    then err (process_transition process.id process.status new_status)
    else ok (
      set_process_status now process new_status,
      record {
        process_id = process.id;
        step_id = none;
        event_type = process_event_type new_status;
        payload =
            merge
              (field "from" (str (process_status_text process.status))
                (field "to" (str (process_status_text new_status)) end))
              payload;
        actor_id = actor_id;
      },
    )

unfoldable pub transition_step :
    ProcessStep
    → StepStatus
    → Option String
    → Fields
    → Result InvalidTransition (ProcessStep × ProcessEvent)
unfolding can_transition_step merge
transition_step step new_status actor_id payload =
    if not (can_transition_step step.status new_status)
    then err (step_transition step.id step.status new_status)
    else ok (
      record step { status = new_status },
      record {
        process_id = step.process_id;
        step_id = some step.id;
        event_type = step_event_type new_status;
        payload =
            merge
              (field "from" (str (step_status_text step.status)) (
                field "to" (str (step_status_text new_status))
                  (field "step_name" (str step.step_name) end)))
              payload;
        actor_id = actor_id;
      },
    )

-- `event_type.split(".", 1)[1]`, read where the text has a dot.
abbrev pub after_dot : String → String
after_dot String.[] = ""
after_dot (String.◌∷◌ c s) = let rest = after_dot s in if nat_beq (code c) b'.' then s else rest

-- The loop of `derive_process_status_from_events`.
unfoldable pub derive_from : String → List ProcessEvent → String
derive_from latest [] = latest
derive_from latest (ev ∷ events) =
    derive_from (if starts_with ev.event_type "process." then after_dot ev.event_type else latest)
      events

unfoldable pub derive_process_status_from_events : List ProcessEvent → String
unfolding derive_from
derive_process_status_from_events events = derive_from "draft" events
