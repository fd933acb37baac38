-- ===== src/Workflow/Records.antt =====
-- The rows of backend/app/models/process.py. An identifier is a number, a time is a number of seconds
-- (naive UTC, as the columns store it), and a status is one of the strings that the code writes.
use apex_ai.Prelude.{ℕ, true, Option, String, nat_beq, Eq, ◌≡◌, ◌↔◌, arith}
use apex_ai.Workflow.Json.{Fields}

pub data ProcessStatus : Type 0 where
  draft queued running paused completed failed cancelled stuck : ProcessStatus

-- `paused` is written by the executor, and is in no comment of the column.
pub data StepStatus : Type 0 where
  pending queued running completed failed retrying skipped cancelled paused : StepStatus

pub record Process : Type 0 where
  pub id : ℕ
  pub org_id : Option String
  pub user_id : Option String
  pub name : String
  pub status : ProcessStatus
  pub inputs : Fields
  pub outputs : Fields
  pub started_at : Option ℕ
  pub finished_at : Option ℕ

pub record ProcessStep : Type 0 where
  pub id : ℕ
  pub process_id : ℕ
  pub step_name : String
  pub prompt_template : String
  pub status : StepStatus
  pub attempt : ℕ
  pub max_attempts : ℕ
  pub inputs : Fields
  pub outputs : Fields
  pub next_retry_at : Option ℕ
  pub error : Option String
  pub started_at : Option ℕ
  pub finished_at : Option ℕ
  pub created_at : ℕ

pub record ProcessEvent : Type 0 where
  pub process_id : ℕ
  pub step_id : Option ℕ
  pub event_type : String
  pub payload : Fields
  pub actor_id : Option String

pub record ProcessDlq : Type 0 where
  pub process_id : ℕ
  pub step_id : ℕ
  pub payload : Fields
  pub reason : String
  pub retry_count : ℕ
  pub resolved_at : Option ℕ
  pub resolution : Option String

-- The string that stands in the column.
abbrev pub process_status_text : ProcessStatus → String
process_status_text ProcessStatus.draft = "draft"
process_status_text ProcessStatus.queued = "queued"
process_status_text ProcessStatus.running = "running"
process_status_text ProcessStatus.paused = "paused"
process_status_text ProcessStatus.completed = "completed"
process_status_text ProcessStatus.failed = "failed"
process_status_text ProcessStatus.cancelled = "cancelled"
process_status_text ProcessStatus.stuck = "stuck"

abbrev pub step_status_text : StepStatus → String
step_status_text StepStatus.pending = "pending"
step_status_text StepStatus.queued = "queued"
step_status_text StepStatus.running = "running"
step_status_text StepStatus.completed = "completed"
step_status_text StepStatus.failed = "failed"
step_status_text StepStatus.retrying = "retrying"
step_status_text StepStatus.skipped = "skipped"
step_status_text StepStatus.cancelled = "cancelled"
step_status_text StepStatus.paused = "paused"

abbrev pub process_code : ProcessStatus → ℕ
process_code ProcessStatus.draft = 0
process_code ProcessStatus.queued = 1
process_code ProcessStatus.running = 2
process_code ProcessStatus.paused = 3
process_code ProcessStatus.completed = 4
process_code ProcessStatus.failed = 5
process_code ProcessStatus.cancelled = 6
process_code ProcessStatus.stuck = 7

abbrev pub step_code : StepStatus → ℕ
step_code StepStatus.pending = 0
step_code StepStatus.queued = 1
step_code StepStatus.running = 2
step_code StepStatus.completed = 3
step_code StepStatus.failed = 4
step_code StepStatus.retrying = 5
step_code StepStatus.skipped = 6
step_code StepStatus.cancelled = 7
step_code StepStatus.paused = 8

pub process_status-beq_iff :
    (a b : ProcessStatus) → (nat_beq (process_code a) (process_code b) ≡ true) ↔ (a ≡ b)
process_status-beq_iff a b = ground arith

pub step_status-beq_iff :
    (a b : StepStatus) → (nat_beq (step_code a) (step_code b) ≡ true) ↔ (a ≡ b)
step_status-beq_iff a b = ground arith

instance abbrev pub process_status_eq : Eq ProcessStatus
process_status_eq = record {
  same = λ a b. nat_beq (process_code a) (process_code b);
  same_iff = process_status-beq_iff;
}

instance abbrev pub step_status_eq : Eq StepStatus
step_status_eq = record {
  same = λ a b. nat_beq (step_code a) (step_code b);
  same_iff = step_status-beq_iff;
}
