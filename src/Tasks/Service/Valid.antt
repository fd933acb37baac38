-- ===== src/Tasks/Service/Valid.antt =====
-- The priority and the source of a task through the changes that `TaskService` of
-- backend/app/workflow/task_service.py makes.
use apex_ai.Prelude.{
  ℕ, ◌≡◌, sym, inl, inr, true, Option, none, some, List, [], ◌∷◌, String, ◌==◌, contains,
  Bool-cases, Result-cases, ok, err, ok-injective, >>=-eq-ok,
}
use mathlib.Core.Path.{subst}
use apex_ai.Tasks.{Task, TaskStatus, task_status_eq}
use apex_ai.Tasks.Service.{Moved, move_task, set_task_status, task_targets}
use apex_ai.Tasks.Service.Edits.{Edited, NewTask, is_priority, is_source, create}
use apex_ai.Tasks.Service.Update.{TaskPatch, patch_priority, patch_due_at, patch_task}
use apex_ai.Tasks.Service.Patches.{front, patch_task-patched, or_old}

abbrev pub IsValid : Task → Type 0
IsValid task = (is_priority task.priority ≡ true) × (is_source task.source ≡ true)

-- A call on a task: `update`, or `transition_status` at a time.
pub data TaskChange : Type 0 where
  patch : TaskPatch → TaskChange
  move : ℕ → TaskStatus → Option String → TaskChange

-- The task after a call; a call that raises leaves it.
abbrev pub change_task : Task → TaskChange → Task
change_task task (patch p) = elim (patch_task task p) [ ok e ↦ e.task | err e ↦ task ]
change_task task (move now to_status actor_id) = elim (move_task now task to_status actor_id) [
  | ok moved ↦ moved.task
  | err e ↦ task
]

-- The task after the calls, the last one first.
abbrev pub change_run : Task → List TaskChange → Task
change_run task [] = task
change_run task (c ∷ past) = change_task (change_run task past) c

patch_priority-or_old :
    (priority : Option String) (old : String) (e e' : Edited)
    → is_priority old ≡ true
    → patch_priority priority e ≡ ok e'
    → is_priority (or_old priority old) ≡ true
unfolding patch_priority
patch_priority-or_old none old e e' valid h = valid
patch_priority-or_old (some p) old e e' valid h = elim (Bool-cases (is_priority p)) [
  | inl good ↦ good
  | inr bad ↦ let h' = rw (bad, patch_priority) at h in cc
]

patch_task-IsValid :
    (task : Task) (p : TaskPatch) (e : Edited)
    → IsValid task
    → patch_task task p ≡ ok e
    → IsValid e.task
unfolding patch_task
patch_task-IsValid task p e (priority, source) h =
    let (x, checked, returned) =
      >>=-eq-ok (patch_priority p.priority (front task p)) (λ y. ok (patch_due_at p.due_at y)) h in
    let same = sym ((patch_task-patched task p e h).0) in
    subst IsValid same
      (patch_priority-or_old p.priority task.priority (front task p) x priority checked, source)

set_task_status-IsValid :
    (now : ℕ) (task : Task) (to_status : TaskStatus)
    → IsValid task
    → IsValid (set_task_status now task to_status)
unfolding set_task_status
set_task_status-IsValid now task to_status valid = valid

move_task-IsValid :
    (now : ℕ) (task : Task) (to_status : TaskStatus) (actor_id : Option String) (moved : Moved)
    → IsValid task
    → move_task now task to_status actor_id ≡ ok moved
    → IsValid moved.task
unfolding move_task
move_task-IsValid now task to_status actor_id moved valid h =
    elim (Bool-cases (to_status == task.status)) [
      | inl same ↦
          let e = ok-injective (rw (same, move_task) at h) in
          subst (λ (m : Moved). IsValid m.task) e valid
      | inr changes ↦ elim (Bool-cases (contains (task_targets task.status) to_status)) [
        | inr refused ↦ let h' = rw (changes, refused, move_task) at h in cc
        | inl allowed ↦
            let e = ok-injective (rw (changes, allowed, move_task) at h) in
            subst (λ (m : Moved). IsValid m.task) e
              (set_task_status-IsValid now task to_status valid)
      ]
    ]

change_task-IsValid : (task : Task) (c : TaskChange) → IsValid task → IsValid (change_task task c)
change_task-IsValid task (patch p) valid = elim (Result-cases (patch_task task p)) [
  | inl (e, done) ↦ rw (done, change_task) (patch_task-IsValid task p e valid done)
  | inr (e, raises) ↦ rw (raises, change_task) valid
]
change_task-IsValid task (move now to_status actor_id) valid =
    elim (Result-cases (move_task now task to_status actor_id)) [
      | inl (m, done) ↦
          rw (done, change_task) (move_task-IsValid now task to_status actor_id m valid done)
      | inr (e, raises) ↦ rw (raises, change_task) valid
    ]

change_run-IsValid :
    (task : Task) (past : List TaskChange) → IsValid task → IsValid (change_run task past)
change_run-IsValid task [] valid = valid
change_run-IsValid task (c ∷ past) valid =
    change_task-IsValid (change_run task past) c (change_run-IsValid task past valid)

create-IsValid : (id : ℕ) (n : NewTask) (e : Edited) → create id n ≡ ok e → IsValid e.task
unfolding create
create-IsValid id n e h = elim (Bool-cases (is_priority n.priority)) [
  | inr bad ↦ let h' = rw (bad, create) at h in cc
  | inl priority ↦ elim (Bool-cases (is_source n.source)) [
    | inr bad ↦ let h' = rw (priority, bad, create) at h in cc
    | inl source ↦
        let same = ok-injective (rw (priority, source, create) at h) in
        subst (λ (x : Edited). IsValid x.task) same (priority, source)
  ]
]

-- A task that `create` returns has a valid priority and a valid source, and keeps them through any sequence of
-- calls of `update` and `transition_status`, whether they succeed or raise.
pub create-change_run :
    (id : ℕ) (n : NewTask) (e : Edited) (past : List TaskChange)
    → create id n ≡ ok e
    → IsValid (change_run e.task past)
create-change_run id n e past h = change_run-IsValid e.task past (create-IsValid id n e h)
