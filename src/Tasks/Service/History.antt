-- ===== src/Tasks/Service/History.antt =====
-- What holds of a task after any sequence of calls that change its status.
use apex_ai.Prelude.{
  ℕ, ◌+◌, ◌≡◌, refl, Bool, true, false, not, ◌&&◌, ◌||◌, Option, none, some, List, [], ◌∷◌, String,
  ◌==◌, ==_iff, nat_eq, string_eq, if◌then◌else◌, contains, count, count-append, Result, ok, err,
  Bool-cases, inl, inr, ok-injective, ◌∙◌, arith,
}
use apex_ai.Tasks.{Task, TaskStatus, task_status_eq}
use apex_ai.Tasks.Service.{
  TaskError, Moved, Notification, is_some, move_task, set_task_status, recipients, notified,
  notify_all, same_watcher, task_targets,
}

pub record StatusCall : Type 0 where
  pub now : ℕ
  pub to_status : TaskStatus
  pub actor_id : Option String

abbrev moved_or : Task → Result TaskError Moved → Task
moved_or task (ok moved) = moved.task
moved_or task (err e) = task

-- The task after the calls; a refused call changes nothing.
abbrev pub run_status : Task → List StatusCall → Task
run_status task [] = task
run_status task (c ∷ calls) =
    run_status (moved_or task (move_task c.now task c.to_status c.actor_id)) calls

-- The completion time is set exactly on a task that is done.
abbrev pub IsCompleted : Task → Type 0
IsCompleted task = is_some task.completed_at ≡ (task.status == TaskStatus.done)

move_task-IsCompleted :
    (now : ℕ) (task : Task) (to_status : TaskStatus) (actor_id : Option String)
    → IsCompleted task
    → IsCompleted (moved_or task (move_task now task to_status actor_id))
unfolding move_task set_task_status
move_task-IsCompleted now task to_status actor_id h = ground arith

move_task-done :
    (now : ℕ) (task : Task) (to_status : TaskStatus) (actor_id : Option String)
    → task.status ≡ TaskStatus.done
    → moved_or task (move_task now task to_status actor_id) ≡ task
unfolding move_task
move_task-done now task to_status actor_id h = ground arith

-- Any calls keep the completion time in step with the status: it is set exactly while the task is done.
run_status-IsCompleted :
    (task : Task) (calls : List StatusCall) → IsCompleted task → IsCompleted (run_status task calls)
run_status-IsCompleted task [] h = h
run_status-IsCompleted task (c ∷ calls) h =
    run_status-IsCompleted (moved_or task (move_task c.now task c.to_status c.actor_id)) calls
      (move_task-IsCompleted c.now task c.to_status c.actor_id h)

-- A task that is done stays as it is, whatever calls are made.
run_status-done :
    (task : Task) (calls : List StatusCall)
    → task.status ≡ TaskStatus.done
    → run_status task calls ≡ task
run_status-done task [] h = refl
run_status-done task (c ∷ calls) h =
    rw (move_task-done c.now task c.to_status c.actor_id h) (run_status-done task calls h)

-- How many of the notifications are for a user.
abbrev pub notices_for : String → List Notification → ℕ
notices_for uid [] = 0
notices_for uid (n ∷ ns) = (if n.user_id == uid then 1 else 0) + notices_for uid ns

abbrev pub is_user : Option String → String → Bool
is_user none uid = false
is_user (some a) uid = a == uid

notices_for-notify_all :
    (uid : String) (uids : List String) (task : Task)
    → notices_for uid (notify_all uids task) ≡ count uid uids
notices_for-notify_all uid [] task = refl
notices_for-notify_all uid (u ∷ uids) task = ground (arith, notices_for-notify_all uid uids task)

-- A user who may get a notification: one with an identifier, who is not the one that makes the call.
abbrev pub may_notify : Option String → String → Bool
may_notify actor_id uid = not (uid == "") && not (is_user actor_id uid)

count-notified :
    (actor_id watcher : Option String) (uid : String)
    → count uid (notified actor_id watcher)
      ≡ (if may_notify actor_id uid && is_user watcher uid then 1 else 0)
count-notified actor_id none uid = ground arith
count-notified none (some w) uid = ground (arith, ==_iff w uid)
count-notified (some actor) (some w) uid =
    ground (arith, ==_iff w uid, ==_iff w actor, ==_iff actor uid, ==_iff w "", ==_iff uid "")

same_watcher_lem :
    (a b : Option String) (uid : String)
    → (same_watcher a b ≡ true → is_user a uid ≡ is_user b uid)
      × (same_watcher a b ≡ false → (is_user a uid && is_user b uid) ≡ false)
same_watcher_lem none none uid = (λ h. refl, λ h. refl)
same_watcher_lem none (some b) uid = (λ h. cc, λ h. refl)
same_watcher_lem (some a) none uid = (λ h. cc, λ h. ground arith)
same_watcher_lem (some a) (some b) uid = ground (arith, ==_iff a b, ==_iff a uid, ==_iff b uid)

count-recipients :
    (actor_id : Option String) (task : Task) (uid : String)
    → count uid (recipients actor_id task) ≡ (
        if may_notify actor_id uid && (is_user task.assignee_id uid || is_user task.user_id uid)
        then 1
        else 0)
unfolding recipients
count-recipients actor_id task uid =
    let one = count-notified actor_id task.assignee_id uid in
    let two = count-notified actor_id task.user_id uid in
    let same = same_watcher_lem task.assignee_id task.user_id uid in
    let joined =
      count-append uid (notified actor_id task.assignee_id) (
        if same_watcher task.assignee_id task.user_id
        then []
        else notified actor_id task.user_id) in
    ground (arith, one, two, same, joined)

-- An accepted change to another status notifies the assignee and the creator, each once even if they are
-- the same user, without the caller and without watchers that have no identifier; nobody else is notified.
move_task-notices :
    (now : ℕ) (task : Task) (to_status : TaskStatus) (actor_id : Option String) {moved : Moved}
    → move_task now task to_status actor_id ≡ ok moved
    → (to_status == task.status) ≡ false
    → (uid : String)
    → notices_for uid moved.notifications ≡ (
        if may_notify actor_id uid && (is_user task.assignee_id uid || is_user task.user_id uid)
        then 1
        else 0)
unfolding move_task set_task_status
move_task-notices now task to_status actor_id {moved} h differs uid =
    elim (Bool-cases (contains (task_targets task.status) to_status)) [
      | inl allowed ↦
          let e = ok-injective (rw (differs, allowed) at h) in
          rw (← e) (
            notices_for-notify_all uid (recipients actor_id (set_task_status now task to_status))
              (set_task_status now task to_status)
            ∙ count-recipients actor_id (set_task_status now task to_status) uid)
      | inr refused ↦ let refusal = rw (differs, refused) at h in cc
    ]
