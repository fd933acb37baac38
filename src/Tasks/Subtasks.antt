-- ===== src/Tasks/Subtasks.antt =====
-- `create_subtask` and `get_subtasks` of backend/app/workflow/task_subdeps.py. The rows stand in the order in
-- which they were created.
use apex_ai.Prelude.{
  ℕ, Bool, false, Option, none, some, List, [], ◌∷◌, ◌++◌, String, ◌==◌, nat_eq, string_eq,
  if◌then◌else◌, filter, Result, ok, err, ◌>>=◌,
}
use apex_ai.Workflow.Json.{Fields}
use apex_ai.Tasks.{Task, TaskStatus, get_task}

-- The arguments of `create_subtask`.
pub record NewSubtask : Type 0 where
  pub title : String
  pub org_id : Option String
  pub assignee_id : Option String
  pub description : Option String
  pub priority : String
  pub creator_id : Option String

-- The parent has no row.
pub data NoParent : Type 0 where
  no_parent : ℕ → NoParent

abbrev org_or : Option String → Option String → Option String
org_or none parent = parent
org_or (some org_id) parent = if org_id == "" then parent else some org_id

-- The row of the child; `id` is the identifier that the database gives.
unfoldable pub subtask_of : ℕ → Task → NewSubtask → Task
subtask_of id parent n = record {
  id = id;
  org_id = org_or n.org_id parent.org_id;
  user_id = n.creator_id;
  assignee_id = n.assignee_id;
  title = n.title;
  description = n.description;
  status = TaskStatus.todo;
  priority = n.priority;
  source = "manual";
  source_id = none;
  due_at = none;
  completed_at = none;
  meta = Fields.end;
  parent_id = some parent.id;
}

abbrev found_parent : ℕ → Option Task → Result NoParent Task
found_parent parent_id none = err (no_parent parent_id)
found_parent parent_id (some parent) = ok parent

-- `create_subtask`: the tasks after the call, and the child.
unfoldable pub create_subtask : ℕ → ℕ → NewSubtask → List Task → Result NoParent (List Task × Task)
unfolding subtask_of
create_subtask id parent_id n tasks = do
  parent ← found_parent parent_id (get_task parent_id tasks)
  ok (tasks ++ subtask_of id parent n ∷ [], subtask_of id parent n)

abbrev pub is_child_of : ℕ → Option ℕ → Bool
is_child_of parent_id none = false
is_child_of parent_id (some id) = id == parent_id

-- `get_subtasks`
unfoldable pub get_subtasks : ℕ → List Task → List Task
get_subtasks parent_id tasks = filter (λ t. is_child_of parent_id t.parent_id) tasks
