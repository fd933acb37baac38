-- ===== src/Tasks/Service/Edits.antt =====
-- `create`, `add_comment` and the two helpers that create tasks, of `TaskService` in
-- backend/app/workflow/task_service.py. A call that raises is rolled back. The titles, texts and links of
-- notifications are left out.
use apex_ai.Prelude.{
  ℕ, Bool, false, ◌||◌, Option, none, some, List, [], ◌∷◌, String, ◌==◌, nat_eq, string_eq,
  if◌then◌else◌, contains, Result, ok, guard, ◌>>◌, ◌>>=◌,
}
use apex_ai.Workflow.Json.{Fields}
use apex_ai.Tasks.{Task, TaskStatus, get_task}
use apex_ai.Tasks.Service.{
  TaskError, invalid_priority, invalid_source, task_not_found, Notification, NotificationKind,
  found_or, actor_or_system, recipients,
}

-- `VALID_PRIORITIES`
abbrev pub valid_priorities : List String
valid_priorities = "low" ∷ "medium" ∷ "high" ∷ "urgent" ∷ []

-- `VALID_SOURCES`
abbrev pub valid_sources : List String
valid_sources = "manual" ∷ "agent_run" ∷ "process" ∷ []

unfoldable pub is_priority : String → Bool
is_priority priority = contains valid_priorities priority

unfoldable pub is_source : String → Bool
is_source source = contains valid_sources source

pub data TaskAudit : Type 0 where
  created : (actor_id : String) (task_id : ℕ) → TaskAudit
  updated : (actor_id : String) (task_id : ℕ) (changes : List String) → TaskAudit

-- What a call returns and adds.
pub record Edited : Type 0 where
  pub task : Task
  pub audits : List TaskAudit
  pub notifications : List Notification

-- The arguments of `create`.
pub record NewTask : Type 0 where
  pub title : String
  pub org_id : Option String
  pub user_id : Option String
  pub assignee_id : Option String
  pub description : Option String
  pub priority : String
  pub source : String
  pub source_id : Option ℕ
  pub due_at : Option ℕ
  pub meta : Fields

abbrev pub is_text : Option String → String → Bool
is_text none s = false
is_text (some t) s = t == s

-- The notification of an assignee, where there is one other than the actor.
abbrev pub assignment : Option String → Option String → Task → List Notification
assignment none actor_id task = []
assignment (some assignee) actor_id task =
    if assignee == "" || is_text actor_id assignee
    then []
    else (record {
      user_id = assignee;
      org_id = task.org_id;
      kind = NotificationKind.assigned;
      task_id = task.id;
    })
      ∷ []

-- `create`; `id` is the identifier that the database gives.
unfoldable pub create : ℕ → NewTask → Result TaskError Edited
unfolding is_priority is_source
create id n =
    let task : Task = record {
      id = id;
      org_id = n.org_id;
      user_id = n.user_id;
      assignee_id = n.assignee_id;
      title = n.title;
      description = n.description;
      status = TaskStatus.todo;
      priority = n.priority;
      source = n.source;
      source_id = n.source_id;
      due_at = n.due_at;
      completed_at = none;
      meta = n.meta;
      parent_id = none;
    } in
    guard (is_priority n.priority) (invalid_priority n.priority)
    >> guard (is_source n.source) (invalid_source n.source)
    >> ok (record {
      task = task;
      audits = created (actor_or_system n.user_id) id ∷ [];
      notifications = assignment n.assignee_id n.user_id task;
    })

-- `create_from_agent_run`
unfoldable pub create_from_agent_run :
    ℕ → ℕ → String → Option String → Option String → Option String → Result TaskError Edited
unfolding create
create_from_agent_run id agent_run_id title summary org_id user_id = create id (record {
  title = title;
  org_id = org_id;
  user_id = user_id;
  assignee_id = none;
  description = summary;
  priority = "medium";
  source = "agent_run";
  source_id = some agent_run_id;
  due_at = none;
  meta = Fields.end;
})

-- `create_from_process`
unfoldable pub create_from_process :
    ℕ → ℕ → String → Option String → Option String → Result TaskError Edited
unfolding create
create_from_process id process_id title org_id user_id = create id (record {
  title = title;
  org_id = org_id;
  user_id = user_id;
  assignee_id = none;
  description = none;
  priority = "medium";
  source = "process";
  source_id = some process_id;
  due_at = none;
  meta = Fields.end;
})

-- A row of `task_comments`.
pub record TaskComment : Type 0 where
  pub task_id : ℕ
  pub author_id : Option String
  pub author_type : String
  pub body : String

abbrev comment_all : List String → Task → List Notification
comment_all [] task = []
comment_all (uid ∷ uids) task =
    (record {
      user_id = uid;
      org_id = task.org_id;
      kind = NotificationKind.commented;
      task_id = task.id;
    })
    ∷ comment_all uids task

-- `add_comment`
unfoldable pub add_comment :
    ℕ
    → String
    → Option String
    → String
    → List Task
    → Result TaskError (TaskComment × List Notification)
unfolding recipients
add_comment task_id body author_id author_type tasks = do
  task ← found_or (task_not_found task_id) (get_task task_id tasks)
  ok (
    record { task_id = task_id; author_id = author_id; author_type = author_type; body = body },
    comment_all (recipients author_id task) task,
  )
