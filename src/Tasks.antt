-- ===== src/Tasks.antt =====
-- The tasks of backend/app/models/task.py, with the store that the helpers work on: the rows of the two
-- tables. Identifiers are numbers. The columns that no modelled operation reads or writes are left out.
pub mod Dependencies
pub mod Service
pub mod Subtasks
pub mod Descendants
use apex_ai.Prelude.{
  ℕ, Bool, true, false, Option, none, some, List, [], ◌∷◌, String, Eq, nat_eq, nat_beq, ◌==◌, find?,
  ◌≡◌, ◌↔◌, arith,
}
use apex_ai.Workflow.Json.{Fields}

pub data TaskStatus : Type 0 where
  todo in_progress review done cancelled : TaskStatus

abbrev pub status_code : TaskStatus → ℕ
status_code todo = 0
status_code in_progress = 1
status_code review = 2
status_code done = 3
status_code cancelled = 4

pub task_status-beq_iff :
    (a b : TaskStatus) → (nat_beq (status_code a) (status_code b) ≡ true) ↔ (a ≡ b)
task_status-beq_iff a b = ground arith

instance abbrev pub task_status_eq : Eq TaskStatus
task_status_eq = record {
  same = λ a b. nat_beq (status_code a) (status_code b);
  same_iff = task_status-beq_iff;
}

pub record Task : Type 0 where
  pub id : ℕ
  pub org_id : Option String
  pub user_id : Option String
  pub assignee_id : Option String
  pub title : String
  pub description : Option String
  pub status : TaskStatus
  pub priority : String
  pub source : String
  pub source_id : Option ℕ
  pub due_at : Option ℕ
  pub completed_at : Option ℕ
  pub meta : Fields
  pub parent_id : Option ℕ

-- A row of `task_dependencies`.
pub record TaskDependency : Type 0 where
  pub id : ℕ
  pub blocker_id : ℕ
  pub blocked_id : ℕ

pub record Store : Type 0 where
  pub tasks : List Task
  pub dependencies : List TaskDependency

-- `session.get(Task, task_id)`
abbrev pub get_task : ℕ → List Task → Option Task
get_task task_id tasks = find? (λ t. t.id == task_id) tasks

abbrev pub is_found {ℓ} : {A : Type ℓ} → Option A → Bool
is_found none = false
is_found (some a) = true
