-- ===== src/Tests/Tasks.antt =====
-- The theorems on tasks at concrete inputs: three tasks, of which the first blocks the second.
use apex_ai.Prelude.{
  ℕ, ◌≡◌, ◌≢◌, ◌↔◌, refl, true, false, List, [], ◌∷◌, ◌++◌, none, some, nat_eq, string_eq, any,
  Result, ok, err, arith,
}
use apex_ai.Workflow.Json.{end}
use apex_ai.Tasks.Service.Edits.{Edited, NewTask, is_priority, is_source, create}
use apex_ai.Tasks.Service.Update.{TaskPatch, patch_task}
use apex_ai.Tasks.Service.Patches.{patched, told, patch_task-patched}
use apex_ai.Tasks.Service.Valid.{IsValid, TaskChange, patch, change_run, create-change_run}
use apex_ai.Tasks.{Task, TaskStatus, Store, get_task, is_found, task_status_eq}
use apex_ai.Tasks.Dependencies.{add_dependency, same_edge, edges_of}
use apex_ai.Tasks.Dependencies.Cycles.{IsAcyclic, added, add_dependency_accepts_iff}
use apex_ai.Tasks.Dependencies.History.{
  DependencyCall, adds, removes, run_calls, IsSound, run_calls-IsSound,
}
use apex_ai.Tasks.Descendants.{has_task_id, would_create_subtask_cycle}
use apex_ai.Tasks.Descendants.Reach.{Descends}
use apex_ai.Tasks.Descendants.Exact.{would_create_subtask_cycle_iff}
use apex_ai.Tasks.Service.{TaskError, Moved, move_task}
use apex_ai.Tasks.Service.History.{StatusCall}

abbrev test_task : ℕ → TaskStatus → Task
test_task id status = record {
  id = id;
  org_id = none;
  user_id = some "ada";
  assignee_id = some "bob";
  title = "a task";
  status = status;
  completed_at = none;
  description = none;
  priority = "low";
  source = "manual";
  source_id = none;
  due_at = none;
  meta = end;
  parent_id = none;
}

abbrev in_order : List ℕ → List ℕ
in_order nodes = nodes

abbrev test_store : Store
test_store = record {
  tasks =
      test_task 1 TaskStatus.todo
      ∷ test_task 2 TaskStatus.todo
      ∷ test_task 3 TaskStatus.review
      ∷ [];
  dependencies = [];
}

abbrev calls : List DependencyCall
calls = adds 7 1 2 ∷ adds 8 2 3 ∷ adds 9 3 1 ∷ removes 1 2 ∷ []

empty-IsSound : IsSound []
empty-IsSound = record {
  acyclic = (λ n. n, λ u v h. absurd (omega arith));
  once = λ u v. omega arith;
}

run_calls-IsSound_example : IsSound (run_calls in_order test_store calls).dependencies
run_calls-IsSound_example =
    run_calls-IsSound in_order (λ nodes n. refl) calls test_store empty-IsSound

add_dependency_accepts_iff_example :
    (add_dependency in_order 7 1 2 test_store ≡ ok (added 7 1 2 test_store)) ↔ (
      (◌≢◌ {A = ℕ} 1 2)
      × (is_found (get_task 1 test_store.tasks) ≡ true)
      × (is_found (get_task 2 test_store.tasks) ≡ true)
      × (any (same_edge 1 2) test_store.dependencies ≡ false)
      × IsAcyclic (edges_of test_store.dependencies ++ (1, 2) ∷ []))
add_dependency_accepts_iff_example =
    add_dependency_accepts_iff in_order (λ nodes n. refl) 7 1 2 test_store

abbrev blocked_store : Store
blocked_store = added 7 1 2 test_store

abbrev move : TaskStatus → StatusCall
move to_status = record { now = 9; to_status = to_status; actor_id = some "ada" }

abbrev moves : List StatusCall
moves = move TaskStatus.in_progress ∷ move TaskStatus.review ∷ move TaskStatus.done ∷ []

abbrev or_same : Task → Result TaskError Moved → Moved
or_same task (ok moved) = moved
or_same task (err e) = record { task = task; audits = []; notifications = [] }

abbrev first_move : Moved
first_move =
    or_same (test_task 1 TaskStatus.todo)
      (move_task 9 (test_task 1 TaskStatus.todo) TaskStatus.in_progress (some "ada"))

abbrev reassign : TaskPatch
reassign = record {
  title = some "plan";
  description = none;
  assignee_id = some "eve";
  priority = some "high";
  due_at = none;
  actor_id = some "ada";
}

abbrev or_unchanged : Task → Result TaskError Edited → Edited
or_unchanged task (ok e) = e
or_unchanged task (err e) = record { task = task; audits = []; notifications = [] }

abbrev reassigned : Edited
reassigned =
    or_unchanged (test_task 1 TaskStatus.todo) (patch_task (test_task 1 TaskStatus.todo) reassign)

patch_task-patched_example :
    (reassigned.task ≡ patched (test_task 1 TaskStatus.todo) reassign)
    × (reassigned.notifications
        ≡ told reassign.assignee_id reassign.actor_id (test_task 1 TaskStatus.todo))
unfolding patch_task is_priority
patch_task-patched_example =
    patch_task-patched (test_task 1 TaskStatus.todo) reassign reassigned refl

abbrev new_task : NewTask
new_task = record {
  title = "plan";
  org_id = none;
  user_id = some "ada";
  assignee_id = some "bob";
  description = none;
  priority = "urgent";
  source = "manual";
  source_id = none;
  due_at = none;
  meta = end;
}

abbrev created_task : Edited
created_task = or_unchanged (test_task 1 TaskStatus.todo) (create 5 new_task)

abbrev task_changes : List TaskChange
task_changes = TaskChange.move 9 TaskStatus.in_progress none ∷ patch reassign ∷ []

create-change_run_example : IsValid (change_run created_task.task task_changes)
unfolding create is_priority is_source
create-change_run_example = create-change_run 5 new_task created_task task_changes refl

-- A task below the task 1, and one below that.
abbrev family : List Task
family =
    test_task 1 TaskStatus.todo
    ∷ record (test_task 2 TaskStatus.todo) { parent_id = some 1 }
    ∷ record (test_task 3 TaskStatus.todo) { parent_id = some 2 }
    ∷ []

would_create_subtask_cycle_iff_example :
    (would_create_subtask_cycle 3 (some 1) family ≡ true)
    ↔ ((any (has_task_id 1) family ≡ true) × Descends family 1 3 × (◌≢◌ {A = ℕ} 3 1))
would_create_subtask_cycle_iff_example = would_create_subtask_cycle_iff family 3 1

finds_grandchild : would_create_subtask_cycle 3 (some 1) family ≡ true
unfolding would_create_subtask_cycle
finds_grandchild = refl
