-- ===== src/Tasks/Service/Update.antt =====
-- `update` of `TaskService` in backend/app/workflow/task_service.py.
use apex_ai.Prelude.{
  ℕ, Option, none, some, List, [], ◌∷◌, ◌++◌, String, nat_eq, string_eq, if◌then◌else◌, Result, ok,
  guard, ◌>>◌, ◌>>=◌,
}
use apex_ai.Tasks.{Task, get_task}
use apex_ai.Tasks.Service.{
  TaskError, invalid_priority, task_not_found, found_or, put_task, actor_or_system,
}
use apex_ai.Tasks.Service.Edits.{Edited, TaskAudit, updated, is_priority, is_text, assignment}

-- The arguments of `update`.
pub record TaskPatch : Type 0 where
  pub title : Option String
  pub description : Option String
  pub assignee_id : Option String
  pub priority : Option String
  pub due_at : Option ℕ
  pub actor_id : Option String

-- The blocks of `update`, one after the other. Each takes what the blocks before it have changed.
unfoldable pub patch_title : Option String → Edited → Edited
patch_title none e = e
patch_title (some title) e = record e { task = record e.task { title = title } }

unfoldable pub patch_description : Option String → Edited → Edited
patch_description none e = e
patch_description (some description) e = record e {
  task = record e.task { description = some description };
}

unfoldable pub patch_assignee : Option String → Option String → Edited → Edited
patch_assignee none actor_id e = e
patch_assignee (some assignee) actor_id e =
    let task = record e.task { assignee_id = some assignee } in
    if is_text e.task.assignee_id assignee then e else record e {
      task = task;
      notifications = e.notifications ++ assignment (some assignee) actor_id task;
    }

unfoldable pub patch_priority : Option String → Edited → Result TaskError Edited
unfolding is_priority
patch_priority none e = ok e
patch_priority (some priority) e =
    guard (is_priority priority) (invalid_priority priority)
    >> ok (record e { task = record e.task { priority = priority } })

unfoldable pub patch_due_at : Option ℕ → Edited → Edited
patch_due_at none e = e
patch_due_at (some due_at) e = record e { task = record e.task { due_at = some due_at } }

abbrev named_change {ℓ} : {A : Type ℓ} → String → Option A → List String
named_change name none = []
named_change name (some value) = name ∷ []

abbrev assignee_change : Option String → Option String → List String
assignee_change old none = []
assignee_change old (some assignee) = if is_text old assignee then [] else "assignee_id" ∷ []

-- The keys of `changes`, in the order in which they are set.
unfoldable pub changes : Task → TaskPatch → List String
changes task p =
    let assigns = assignee_change task.assignee_id p.assignee_id in
    named_change "title" p.title
    ++ (named_change "description" p.description
        ++ (assigns ++ (named_change "priority" p.priority ++ named_change "due_at" p.due_at)))

abbrev pub audit_changes : String → ℕ → List String → List TaskAudit
audit_changes actor_id task_id [] = []
audit_changes actor_id task_id (c ∷ cs) = updated actor_id task_id (c ∷ cs) ∷ []

-- `update` once the task has been loaded.
unfoldable pub patch_task : Task → TaskPatch → Result TaskError Edited
unfolding patch_title patch_description patch_assignee patch_priority patch_due_at changes
patch_task task p =
    let loaded : Edited = record {
      task = task;
      audits = audit_changes (actor_or_system p.actor_id) task.id (changes task p);
      notifications = [];
    } in
    patch_priority p.priority (
      patch_assignee p.assignee_id p.actor_id
        (patch_description p.description (patch_title p.title loaded)))
    >>= λ e. ok (patch_due_at p.due_at e)

-- `update`: the tasks after the call, and what it adds.
unfoldable pub update_task : ℕ → TaskPatch → List Task → Result TaskError (List Task × Edited)
unfolding patch_task
update_task task_id p tasks = do
  task ← found_or (task_not_found task_id) (get_task task_id tasks)
  edited ← patch_task task p
  ok (put_task edited.task tasks, edited)
