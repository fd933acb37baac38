-- ===== src/Tasks/Service.antt =====
-- `TaskService` of backend/app/workflow/task_service.py: the changes of a task's status. A text of a
-- status that is none of `VALID_STATUSES` has no `TaskStatus`. A set of watchers is a list without
-- repetition; the order in which Python iterates over it is not determined, and only the order of the new
-- notifications depends on it.
pub mod History
pub mod Edits
pub mod Update
pub mod Patches
pub mod Valid
use apex_ai.Prelude.{
  ℕ, Bool, true, false, not, ◌&&◌, ◌||◌, Option, none, some, List, [], ◌∷◌, ◌++◌, String, Eq, ◌==◌,
  nat_eq, string_eq, if◌then◌else◌, contains, Result, ok, err, ◌>>=◌,
}
use apex_ai.Tasks.{Task, TaskStatus, get_task, task_status_eq}

abbrev pub status_text : TaskStatus → String
status_text TaskStatus.todo = "todo"
status_text TaskStatus.in_progress = "in_progress"
status_text TaskStatus.review = "review"
status_text TaskStatus.done = "done"
status_text TaskStatus.cancelled = "cancelled"

-- `to_status not in VALID_STATUSES`, with the status that the text names.
abbrev pub named_status : List TaskStatus → String → Option TaskStatus
named_status [] text = none
named_status (status ∷ others) text =
    if status_text status == text then some status else named_status others text

abbrev pub valid_statuses : List TaskStatus
valid_statuses =
    TaskStatus.todo ∷ TaskStatus.in_progress ∷ TaskStatus.review ∷ TaskStatus.done
    ∷ TaskStatus.cancelled ∷ []

-- `ALLOWED_TASK_TRANSITIONS`
abbrev pub task_targets : TaskStatus → List TaskStatus
task_targets TaskStatus.todo = TaskStatus.in_progress ∷ TaskStatus.cancelled ∷ []
task_targets TaskStatus.in_progress =
    TaskStatus.review ∷ TaskStatus.todo ∷ TaskStatus.cancelled ∷ []
task_targets TaskStatus.review =
    TaskStatus.in_progress ∷ TaskStatus.done ∷ TaskStatus.cancelled ∷ []
task_targets TaskStatus.done = []
task_targets TaskStatus.cancelled = TaskStatus.todo ∷ []

pub data TaskError : Type 0 where
  invalid_status : String → TaskError
  task_not_found : ℕ → TaskError
  invalid_transition : (id : ℕ) (from to : TaskStatus) → TaskError
  invalid_priority invalid_source : String → TaskError

pub data NotificationKind : Type 0 where
  moved_to : TaskStatus → NotificationKind
  assigned commented : NotificationKind

pub record Notification : Type 0 where
  pub user_id : String
  pub org_id : Option String
  pub kind : NotificationKind
  pub task_id : ℕ

pub record AuditEntry : Type 0 where
  pub actor_id : String
  pub target_id : ℕ
  pub old_status : TaskStatus
  pub new_status : TaskStatus

abbrev pub is_some {ℓ} : {A : Type ℓ} → Option A → Bool
is_some none = false
is_some (some a) = true

-- The status and the completion time that an accepted change writes.
unfoldable pub set_task_status : ℕ → Task → TaskStatus → Task
set_task_status now task to_status = record task {
  status = to_status;
  completed_at =
      if to_status == TaskStatus.done
      then some now
      else if to_status == TaskStatus.todo && is_some task.completed_at
      then none
      else task.completed_at;
}

-- `uid and uid != actor_id`, for a watcher that may be missing: an empty text is false.
abbrev pub notified : Option String → Option String → List String
notified actor_id none = []
notified none (some uid) = if uid == "" then [] else uid ∷ []
notified (some actor) (some uid) = if uid == "" || uid == actor then [] else uid ∷ []

abbrev pub same_watcher : Option String → Option String → Bool
same_watcher (some a) (some b) = a == b
same_watcher none none = true
same_watcher _ _ = false

-- The loop over the set of the assignee and the creator.
unfoldable pub recipients : Option String → Task → List String
recipients actor_id task =
    notified actor_id task.assignee_id
    ++ (if same_watcher task.assignee_id task.user_id then [] else notified actor_id task.user_id)

abbrev pub notify_all : List String → Task → List Notification
notify_all [] task = []
notify_all (uid ∷ uids) task =
    (record { user_id = uid; org_id = task.org_id; kind = moved_to task.status; task_id = task.id })
    ∷ notify_all uids task

-- `actor_id or "system"`
abbrev pub actor_or_system : Option String → String
actor_or_system none = "system"
actor_or_system (some actor) = if actor == "" then "system" else actor

abbrev pub put_task : Task → List Task → List Task
put_task task [] = []
put_task task (t ∷ ts) = (if t.id == task.id then task else t) ∷ put_task task ts

-- What the call returns and adds.
pub record Moved : Type 0 where
  pub task : Task
  pub audits : List AuditEntry
  pub notifications : List Notification

-- `transition_status` once the task has been loaded.
unfoldable pub move_task : ℕ → Task → TaskStatus → Option String → Result TaskError Moved
unfolding set_task_status recipients
move_task now task to_status actor_id =
    let moved = set_task_status now task to_status in
    if to_status == task.status
    then ok (record { task = task; audits = []; notifications = [] })
    else if not (contains (task_targets task.status) to_status)
    then err (invalid_transition task.id task.status to_status)
    else ok (record {
      task = moved;
      audits =
          record {
            actor_id = actor_or_system actor_id;
            target_id = task.id;
            old_status = task.status;
            new_status = to_status;
          }
          ∷ [];
      notifications = notify_all (recipients actor_id moved) moved;
    })

abbrev pub found_or {ℓ} : {A : Type ℓ} → TaskError → Option A → Result TaskError A
found_or e none = err e
found_or e (some a) = ok a

-- `transition_status`: the tasks after the call, and what it adds.
unfoldable pub transition_status :
    ℕ → ℕ → String → Option String → List Task → Result TaskError (List Task × Moved)
unfolding move_task
transition_status now task_id text actor_id tasks = do
  to_status ← found_or (invalid_status text) (named_status valid_statuses text)
  task ← found_or (task_not_found task_id) (get_task task_id tasks)
  moved ← move_task now task to_status actor_id
  ok (put_task moved.task tasks, moved)
