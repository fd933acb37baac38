-- ===== src/Tests/Process.antt =====
-- The theorems on processes at concrete inputs: a definition of two steps, created, started and run.
use apex_ai.Prelude.{
  Bool, ◌<◌, ℕ, ◌≡◌, refl, ◌⊎◌, true, false, ◌&&◌, List, [], ◌∷◌, Option, none, some, String, ◌==◌,
  nat_eq, string_eq, if◌then◌else◌, find?, find?-Mem, ltb, all, any, filter, length, contains, All,
  Result, ok, err,
}
use mathlib.Core.List.{Memᴰ}
use apex_ai.Agent.Results.{FinishReason, AgentResult}
use apex_ai.Workflow.Json.{end}
use apex_ai.Workflow.Records.{
  ProcessStatus, StepStatus, Process, ProcessStep, ProcessDlq, process_status_text,
  process_status_eq,
}
use apex_ai.Workflow.State.{transition_process, derive_process_status_from_events}
use apex_ai.Workflow.State.Traces.{Request, Logged, requests}
use apex_ai.Workflow.State.Replay.{requests-IsReplayed}
use apex_ai.Workflow.Definition.Template.{Segment, TemplateError}
use apex_ai.Workflow.Definition.{DefinitionError, StepDef, ProcessDefinition}
use apex_ai.Workflow.Queue.{is_claimable, claim_ready_steps}
use apex_ai.Workflow.Executor.{Db, own_steps, maybe_complete_or_fail_process, enqueue_next}
use apex_ai.Workflow.Executor.Enqueue.{IsReady, enqueue_next-IsReady}
use apex_ai.Workflow.Executor.Finalize.{has_ended, has_broken, maybe_complete_lem}
use apex_ai.Workflow.Executor.Execute.{execute}
use apex_ai.Workflow.Executor.Execute.Outcomes.{execute-EndedRows}
use apex_ai.Workflow.Executor.Execute.Rows.{EndedRows, RowsAre, is_running}
use apex_ai.Workflow.Api.{ApiError, create_process, start_process, cancel_process, resume_process}
use apex_ai.Workflow.Api.Start.{root_names, started-claims-no_root}
use apex_ai.Workflow.Api.Stop.{
  IsStopped, IsUnpaused, cancel_process-IsStopped, resume_process-claimable,
}
use apex_ai.Tests.Queue.{test_step, two_rows}

abbrev test_process : ProcessStatus → Process
test_process status = record {
  id = 1;
  org_id = none;
  user_id = some "ada";
  name = "release";
  status = status;
  inputs = end;
  outputs = end;
  started_at = none;
  finished_at = none;
}

abbrev ask : ℕ → ProcessStatus → Request
ask now target = record { now = now; target = target; actor_id = none; payload = end }

abbrev asked : List Request
asked = ask 1 ProcessStatus.queued ∷ ask 2 ProcessStatus.running ∷ ask 3 ProcessStatus.queued ∷ []

abbrev logged : ProcessStatus → Logged
logged status = record { process = test_process status; events = [] }

abbrev begun : Logged
begun = record {
  process = record (test_process ProcessStatus.paused) { started_at = some 4 };
  events = [];
}

requests-IsReplayed_example :
    (requests (logged ProcessStatus.draft) asked ≡ logged ProcessStatus.draft)
    ⊎ (derive_process_status_from_events (requests (logged ProcessStatus.draft) asked).events
        ≡ process_status_text (requests (logged ProcessStatus.draft) asked).process.status)
requests-IsReplayed_example = requests-IsReplayed (logged ProcessStatus.draft) asked

abbrev step_def : String → StepDef
step_def name = record { name = name; role = "DEV_BE"; prompt = "do it"; max_attempts = some 2 }

abbrev two_steps : ProcessDefinition
two_steps = record {
  name = "release";
  steps = step_def "plan" ∷ step_def "build" ∷ [];
  edges = (record { from_ = "plan"; to = "build" }) ∷ [];
}

abbrev created : Db
created = create_process 5 1 10 none (some "ada") "release" end two_steps

abbrev or_created : Result ApiError Db → Db
or_created (ok db) = db
or_created (err e) = created

abbrev started : Db
started = or_created (start_process 6 none two_steps created)

abbrev by_creation : List ProcessStep → List ProcessStep
by_creation rows = rows

abbrev row_lock : ℕ → Option ProcessStep
row_lock id = find? (λ s. s.id == id) started.steps

started-claims-no_root_example :
    All
      (λ s. contains (root_names two_steps) s.step_name ≡ false)
      (claim_ready_steps by_creation row_lock 7 2 started.steps)
unfolding start_process create_process transition_process
started-claims-no_root_example =
    started-claims-no_root 5 6 1 10 none (some "ada") none "release" end two_steps started refl
      by_creation row_lock (λ id old h. find?-Mem (λ s. s.id == id) started.steps h) 7 2

abbrev running_db : Db
running_db = record {
  process = test_process ProcessStatus.running;
  steps = two_rows;
  events = [];
  dlq = [];
}

maybe_complete_lem_example : (maybe_complete_or_fail_process 9 running_db).process.status ≡ (
    if running_db.process.status == ProcessStatus.running
      && ltb 0 (length (own_steps running_db))
      && all (λ s. has_ended s.status) (own_steps running_db)
    then (if any (λ s. has_broken s.status) (own_steps running_db)
        then ProcessStatus.failed
        else ProcessStatus.completed)
    else running_db.process.status)
maybe_complete_lem_example = maybe_complete_lem 9 running_db

abbrev ready_db : Db
ready_db = record running_db {
  steps = test_step 10 "plan" StepStatus.completed ∷ test_step 11 "build" StepStatus.pending ∷ [];
}

enqueue_next-IsReady_example :
    ((db' : Db) (y : ProcessStep)
      → enqueue_next two_steps "plan" ready_db "build" ≡ some db'
      → Memᴰ y db'.steps
      → Memᴰ y ready_db.steps ⊎ IsReady two_steps ready_db "build" y)
    × (enqueue_next two_steps "plan" ready_db "build" ≡ none
        → 1 < length (filter (λ s. s.process_id == 1 && s.step_name == "build") ready_db.steps))
enqueue_next-IsReady_example = enqueue_next-IsReady two_steps "plan" ready_db "build"

abbrev run_result : AgentResult
run_result = record {
  success = true;
  agent_run_id = 3;
  summary = "built";
  steps = 2;
  input_tokens = 10;
  output_tokens = 20;
  intentional_files = [];
  error = none;
  finish_reason = FinishReason.finished;
}

abbrev definition_text : DefinitionError → String
definition_text e = "invalid"

abbrev template_text : TemplateError → String
template_text e = "bad template"

abbrev one_part : String → List Segment
one_part template = Segment.literal template ∷ []

execute-EndedRows_example :
    let after : Bool → Db = λ attached.
      execute
        (λ p. ok two_steps)
        definition_text
        one_part
        (λ v. "value")
        template_text
        (λ config. ok run_result)
        8
        attached
        true
        running_db
        (test_step 11 "build" StepStatus.running) in
    EndedRows 11 (after true).steps
    × (RowsAre is_running 11 running_db.steps → RowsAre is_running 11 (after false).steps)
execute-EndedRows_example =
    execute-EndedRows (λ p. ok two_steps) definition_text one_part (λ v. "value") template_text
      (λ config. ok run_result) 8 true running_db (test_step 11 "build" StepStatus.running)

abbrev cancelled_db : Db
cancelled_db = or_created (cancel_process 9 none running_db)

cancel_process-IsStopped_example :
    (cancelled_db.process.status ≡ ProcessStatus.cancelled)
    × (cancelled_db.process.finished_at ≡ some 9)
    × All (IsStopped 1) cancelled_db.steps
unfolding cancel_process transition_process
cancel_process-IsStopped_example =
    cancel_process-IsStopped 9 none running_db {db' = cancelled_db} refl

abbrev paused_db : Db
paused_db = record {
  process = test_process ProcessStatus.paused;
  steps = test_step 10 "plan" StepStatus.paused ∷ [];
  events = [];
  dlq = [];
}

abbrev resumed_db : Db
resumed_db = or_created (resume_process 9 none paused_db)

resume_process-claimable_example :
    (resumed_db.process.status ≡ ProcessStatus.running)
    × All (IsUnpaused 1) resumed_db.steps
    × (filter (λ s. is_claimable s.status) resumed_db.steps
        ≡ filter (λ s. is_claimable s.status) paused_db.steps)
unfolding resume_process transition_process
resume_process-claimable_example = resume_process-claimable 9 none paused_db {db' = resumed_db} refl

abbrev dead_row : ProcessDlq
dead_row = record {
  process_id = 1;
  step_id = 10;
  payload = end;
  reason = "boom";
  retry_count = 3;
  resolved_at = none;
  resolution = none;
}

abbrev replayed_row : ProcessDlq
replayed_row = record dead_row { resolved_at = some 9; resolution = some "replayed" }

abbrev failed_rows : List ProcessStep
failed_rows = test_step 10 "plan" StepStatus.failed ∷ []

abbrev plain_text : String → String
plain_text s = s

abbrev given_order : List String → List String
given_order names = names
