-- ===== src/Workflow/Scheduler.antt =====
-- backend/app/workflow/scheduler.py: the schedules of processes, and the jobs that APScheduler holds for
-- them. The jobs are a dictionary by the schedule's identifier; whether a text is a cron expression, and which
-- processes there are, are arguments. A job that is due only writes to the log.
pub mod Rows
pub mod Synced
use apex_ai.Prelude.{
  ℕ, ◌+◌, Bool, true, false, ◌&&◌, ◌||◌, Option, none, some, List, [], ◌∷◌, ◌++◌, String, ◌==◌,
  nat_eq, if◌then◌else◌, filter, any, find?, length, not, ltb,
}

-- A row of the schedules.
pub record ScheduledProcess : Type 0 where
  pub id : ℕ
  pub process_id : ℕ
  pub cron_expr : String
  pub enabled : Bool

-- What `add_job` is given besides its identifier.
pub record Job : Type 0 where
  pub trigger : String
  pub process_id : ℕ

pub record Scheduler : Type 0 where
  pub jobs : ℕ → Option Job
  pub running : Bool

pub record Schedules : Type 0 where
  pub rows : List ScheduledProcess
  pub scheduler : Scheduler

abbrev pub job_of : ScheduledProcess → Job
job_of s = record { trigger = s.cron_expr; process_id = s.process_id }

abbrev pub is_schedule : ℕ → ScheduledProcess → Bool
is_schedule id s = s.id == id

abbrev pub update_job : (ℕ → Option Job) → ℕ → Option Job → ℕ → Option Job
update_job jobs id job k = if k == id then job else jobs k

-- `shutdown_scheduler`: the jobs are in memory.
abbrev pub fresh_scheduler : Scheduler
fresh_scheduler = record { jobs = λ _. none; running = false }

-- `scheduler.remove_job(job_id)`
abbrev pub remove_job : ℕ → Scheduler → Scheduler
remove_job id scheduler = record scheduler { jobs = update_job scheduler.jobs id none }

abbrev pub is_some : Option Job → Bool
is_some none = false
is_some (some _) = true

-- `delete_schedule`, and whether a row was deleted.
unfoldable pub delete_schedule : ℕ → Schedules → Schedules × Bool
delete_schedule id s =
    let rest = filter (λ r. not (is_schedule id r)) s.rows in
    let scheduler =
      if is_some (s.scheduler.jobs id) then remove_job id s.scheduler else s.scheduler in
    (record { rows = rest; scheduler = scheduler }, ltb (length rest) (length s.rows))

abbrev pub with_enabled : Bool → ScheduledProcess → ScheduledProcess
with_enabled enabled s = record s { enabled = enabled }

-- The row with the identifier, changed.
unfoldable pub change_row :
    ℕ → (ScheduledProcess → ScheduledProcess) → List ScheduledProcess → List ScheduledProcess
change_row id change [] = []
change_row id change (s ∷ rows) =
    let rest = change_row id change rows in if is_schedule id s then change s ∷ rows else s ∷ rest

module _ (is_crontab : String → Bool) where
  -- `add_job`, and whether it was reached: a text that is no cron expression raises before.
  unfoldable pub add_job : ScheduledProcess → Scheduler → Scheduler × Bool
  add_job s scheduler =
      if is_crontab s.cron_expr
      then (record scheduler { jobs = update_job scheduler.jobs s.id (some (job_of s)) }, true)
      else (scheduler, false)

  -- The registration of a schedule, which starts the scheduler; an exception is logged only.
  unfoldable pub register_job : ScheduledProcess → Scheduler → Scheduler
  unfolding add_job
  register_job s scheduler =
      let (scheduler', added) = add_job s scheduler in
      if added then record scheduler' { running = true } else scheduler

  -- `create_schedule`; nothing if a constraint is broken.
  unfoldable pub create_schedule :
      (known_process : ℕ → Bool) → ScheduledProcess → Schedules → Option Schedules
  unfolding register_job
  create_schedule known_process sched s =
      if any (is_schedule sched.id) s.rows || not (known_process sched.process_id)
      then none
      else some (record {
        rows = s.rows ++ sched ∷ [];
        scheduler = if sched.enabled then register_job sched s.scheduler else s.scheduler;
      })

  -- `set_schedule_enabled`; nothing if there is no such schedule.
  unfoldable pub set_schedule_enabled : ℕ → Bool → Schedules → Option Schedules
  unfolding change_row register_job
  set_schedule_enabled id enabled s = elim (find? (is_schedule id) s.rows) [
    | none ↦ none
    | some row ↦
        let registered = is_some (s.scheduler.jobs id) in
        some (record {
          rows = change_row id (with_enabled enabled) s.rows;
          scheduler =
              if enabled && not registered
              then register_job row s.scheduler
              else if not enabled && registered
              then remove_job id s.scheduler
              else s.scheduler;
        })
  ]

  -- The loop of `reload_all_schedules`, with its count.
  unfoldable pub reload_jobs : List ScheduledProcess → ℕ → Scheduler → Scheduler × ℕ
  unfolding add_job
  reload_jobs [] count scheduler = (scheduler, count)
  reload_jobs (s ∷ rows) count scheduler =
      let (scheduler', added) = add_job s scheduler in
      reload_jobs rows (if s.enabled && added then count + 1 else count)
        (if s.enabled then scheduler' else scheduler)

  unfoldable pub reload_all_schedules : List ScheduledProcess → Scheduler → Scheduler × ℕ
  unfolding reload_jobs
  reload_all_schedules rows scheduler =
      let (scheduler', count) = reload_jobs rows 0 scheduler in
      (if ltb 0 count then record scheduler' { running = true } else scheduler', count)

-- The calls that change schedules.
pub data ScheduleCall : Type 0 where
  creates : ScheduledProcess → ScheduleCall
  deletes : ℕ → ScheduleCall
  sets_enabled : ℕ → Bool → ScheduleCall

abbrev pub kept_or : Schedules → Option Schedules → Schedules
kept_or s none = s
kept_or s (some s') = s'

module _ (is_crontab : String → Bool) (known_process : ℕ → Bool) where
  abbrev pub call : ScheduleCall → Schedules → Schedules
  call (creates sched) s = kept_or s (create_schedule is_crontab known_process sched s)
  call (deletes id) s = (delete_schedule id s).0
  call (sets_enabled id enabled) s = kept_or s (set_schedule_enabled is_crontab id enabled s)

  abbrev pub run_calls : List ScheduleCall → Schedules → Schedules
  run_calls [] s = s
  run_calls (c ∷ rest) s = run_calls rest (call c s)
