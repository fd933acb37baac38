-- ===== src/Tasks/Service/Patches.antt =====
-- What `update` of `TaskService` in backend/app/workflow/task_service.py changes.
use apex_ai.Prelude.{
  ℕ, ◌≡◌, ◌∙◌, refl, ap, sym, inl, inr, true, Option, none, some, List, [], ◌++◌, String, ◌==◌, ◌∷◌,
  false, ==_iff, string_eq, if◌then◌else◌, Bool-cases, ok, append-nil, ok-injective, >>=-eq-ok,
}
use apex_ai.Tasks.{Task}
use apex_ai.Tasks.Service.{Notification, NotificationKind, actor_or_system}
use apex_ai.Tasks.Service.Edits.{Edited, is_priority, is_text, assignment}
use apex_ai.Tasks.Service.Update.{
  TaskPatch, patch_title, patch_description, patch_assignee, patch_priority, patch_due_at, changes,
  audit_changes, patch_task,
}

abbrev pub or_old {ℓ} : {A : Type ℓ} → Option A → A → A
or_old none old = old
or_old (some new) old = new

abbrev pub or_before {ℓ} : {A : Type ℓ} → Option A → Option A → Option A
or_before none old = old
or_before (some new) old = some new

-- The task with the fields that the call names.
abbrev pub patched : Task → TaskPatch → Task
patched task p = record task {
  title = or_old p.title task.title;
  description = or_before p.description task.description;
  assignee_id = or_before p.assignee_id task.assignee_id;
  priority = or_old p.priority task.priority;
  due_at = or_before p.due_at task.due_at;
}

-- Who is told: a non-empty assignee that differs from the old one and from the actor.
abbrev pub told : Option String → Option String → Task → List Notification
told none actor_id task = []
told (some assignee) actor_id task =
    if is_text task.assignee_id assignee
    then []
    else if assignee == ""
    then []
    else if is_text actor_id assignee
    then []
    else (record {
      user_id = assignee;
      org_id = task.org_id;
      kind = NotificationKind.assigned;
      task_id = task.id;
    })
      ∷ []

told_lem :
    (assignee : String) (actor_id : Option String) (task : Task)
    → is_text task.assignee_id assignee ≡ false
    → assignment (some assignee) actor_id task ≡ told (some assignee) actor_id task
told_lem assignee actor_id task different = elim (Bool-cases (assignee == "")) [
  | inl empty ↦ rw (different, empty) refl
  | inr given ↦ rw (different, given) refl
]

patch_title_lem :
    (title : Option String) (e : Edited)
    → patch_title title e ≡ record e { task = record e.task { title = or_old title e.task.title } }
unfolding patch_title
patch_title_lem none e = refl
patch_title_lem (some t) e = refl

patch_description_lem :
    (description : Option String) (e : Edited)
    → patch_description description e
      ≡ record e { task = record e.task { description = or_before description e.task.description } }
unfolding patch_description
patch_description_lem none e = refl
patch_description_lem (some t) e = refl

is_text-some : (old : Option String) (s : String) → is_text old s ≡ true → old ≡ some s
is_text-some none s h = cc
is_text-some (some t) s h = ap some ((==_iff t s).0 h)

patch_assignee_lem :
    (assignee actor_id : Option String) (e : Edited)
    → patch_assignee assignee actor_id e ≡ record e {
      task = record e.task { assignee_id = or_before assignee e.task.assignee_id };
      notifications = e.notifications ++ told assignee actor_id e.task;
    }
unfolding patch_assignee
patch_assignee_lem none actor_id e =
    ap (λ ns. record e { notifications = ns }) (sym (append-nil e.notifications))
patch_assignee_lem (some a) actor_id e = elim (Bool-cases (is_text e.task.assignee_id a)) [
  | inl same ↦
      rw (same, patch_assignee)
        (ap (λ old. record e { task = record e.task { assignee_id = old } })
            (is_text-some e.task.assignee_id a same)
          ∙ ap
              (λ ns. record e { task = record e.task { assignee_id = some a }; notifications = ns })
              (sym (append-nil e.notifications)))
  | inr different ↦
      let tells = told_lem a actor_id e.task different in
      rw (different, patch_assignee)
        (ap
          (λ ns. record e {
            task = record e.task { assignee_id = some a };
            notifications = e.notifications ++ ns;
          })
          (rw (different) at tells))
]

patch_priority_lem :
    (priority : Option String) (e e' : Edited)
    → patch_priority priority e ≡ ok e'
    → e' ≡ record e { task = record e.task { priority = or_old priority e.task.priority } }
unfolding patch_priority
patch_priority_lem none e e' h = sym (ok-injective h)
patch_priority_lem (some p) e e' h = elim (Bool-cases (is_priority p)) [
  | inl valid ↦ sym (ok-injective (rw (valid, patch_priority) at h))
  | inr bad ↦ let h' = rw (bad, patch_priority) at h in cc
]

patch_due_at_lem :
    (due_at : Option ℕ) (e : Edited)
    → patch_due_at due_at e
      ≡ record e { task = record e.task { due_at = or_before due_at e.task.due_at } }
unfolding patch_due_at
patch_due_at_lem none e = refl
patch_due_at_lem (some t) e = refl

told_retitled :
    (assignee actor_id : Option String) (title : String) (description : Option String) (task : Task)
    → told assignee actor_id (record task { title = title; description = description })
      ≡ told assignee actor_id task
told_retitled none actor_id title description task = refl
told_retitled (some a) actor_id title description task = refl

-- The blocks before the check of the priority.
patch_front_lem :
    (p : TaskPatch) (e : Edited)
    → patch_assignee p.assignee_id p.actor_id
        (patch_description p.description (patch_title p.title e))
      ≡ record e {
        task = record e.task {
          title = or_old p.title e.task.title;
          description = or_before p.description e.task.description;
          assignee_id = or_before p.assignee_id e.task.assignee_id;
        };
        notifications = e.notifications ++ told p.assignee_id p.actor_id e.task;
      }
patch_front_lem p e =
    let titled = record e { task = record e.task { title = or_old p.title e.task.title } } in
    ap (λ x. patch_assignee p.assignee_id p.actor_id (patch_description p.description x))
      (patch_title_lem p.title e)
    ∙ ap (patch_assignee p.assignee_id p.actor_id) (patch_description_lem p.description titled)
    ∙ patch_assignee_lem p.assignee_id p.actor_id (record titled {
      task = record titled.task { description = or_before p.description titled.task.description };
    })
    ∙ ap
        (λ ns. record e {
          task = record e.task {
            title = or_old p.title e.task.title;
            description = or_before p.description e.task.description;
            assignee_id = or_before p.assignee_id e.task.assignee_id;
          };
          notifications = e.notifications ++ ns;
        })
        (told_retitled p.assignee_id p.actor_id (or_old p.title e.task.title)
          (or_before p.description e.task.description) e.task)

-- What the check of the priority is given.
abbrev pub front : Task → TaskPatch → Edited
front task p =
    let loaded : Edited = record {
      task = task;
      audits = audit_changes (actor_or_system p.actor_id) task.id (changes task p);
      notifications = [];
    } in
    patch_assignee p.assignee_id p.actor_id
      (patch_description p.description (patch_title p.title loaded))

-- A successful `update` returns the task with the fields that the call names and all others as they were, and
-- it tells the assignee that the call names exactly if that is no empty text and differs from the old one
-- and from the actor.
pub patch_task-patched :
    (task : Task) (p : TaskPatch) (e : Edited)
    → patch_task task p ≡ ok e
    → (e.task ≡ patched task p) × (e.notifications ≡ told p.assignee_id p.actor_id task)
unfolding patch_task
patch_task-patched task p e h =
    let loaded : Edited = record {
      task = task;
      audits = audit_changes (actor_or_system p.actor_id) task.id (changes task p);
      notifications = [];
    } in
    let priced : Edited → Edited =
      λ y. record y { task = record y.task { priority = or_old p.priority y.task.priority } } in
    let dated : Edited → Edited =
      λ y. record y { task = record y.task { due_at = or_before p.due_at y.task.due_at } } in
    let (x, checked, returned) =
      >>=-eq-ok (patch_priority p.priority (front task p)) (λ y. ok (patch_due_at p.due_at y)) h in
    let whole =
      sym (ok-injective returned)
      ∙ patch_due_at_lem p.due_at x
      ∙ ap dated (
          patch_priority_lem p.priority (front task p) x checked
          ∙ ap priced (patch_front_lem p loaded)) in
    (ap (λ y. y.task) whole, ap (λ y. y.notifications) whole)
