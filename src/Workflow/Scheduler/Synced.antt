-- ===== src/Workflow/Scheduler/Synced.antt =====
-- The jobs of backend/app/workflow/scheduler.py are the enabled schedules.
use apex_ai.Prelude.{
  ℕ, ◌+◌, ◌≡◌, refl, inl, inr, Bool, false, ◌&&◌, ◌||◌, not, Option, none, some, List, [], ◌∷◌,
  String, ◌==◌, ==_iff, nat_eq, if◌then◌else◌, any, find?, Bool-cases, Option-cases, find?-passes,
  arith,
}
use apex_ai.Workflow.Scheduler.{
  ScheduledProcess, Job, Scheduler, Schedules, job_of, is_schedule, fresh_scheduler, add_job,
  register_job, create_schedule, delete_schedule, with_enabled, change_row, set_schedule_enabled,
  reload_jobs, reload_all_schedules, ScheduleCall, creates, deletes, sets_enabled, call, run_calls,
  remove_job, is_some, kept_or,
}
use apex_ai.Workflow.Scheduler.Rows.{
  IsKeyed, find_none, find_append, find_delete, find_change, append-IsKeyed, delete-IsKeyed,
  change-IsKeyed,
}

module _ (is_crontab : String → Bool) where
  -- The job that a row asks for.
  abbrev pub job_wanted : Option ScheduledProcess → Option Job
  job_wanted none = none
  job_wanted (some s) = if s.enabled && is_crontab s.cron_expr then some (job_of s) else none

  -- The jobs are those that the rows ask for, and identifiers are keys.
  pub record IsSynced (s : Schedules) : Type 0 where
    pub keyed : IsKeyed s.rows
    pub wanted : (k : ℕ) → s.scheduler.jobs k ≡ job_wanted (find? (is_schedule k) s.rows)

  abbrev or_job : Option Job → Option Job → Option Job
  or_job none old = old
  or_job (some job) old = some job

  register_job-jobs :
      (row : ScheduledProcess) (scheduler : Scheduler) (k : ℕ)
      → (register_job is_crontab row scheduler).jobs k
        ≡ (if is_crontab row.cron_expr && row.id == k then some (job_of row) else scheduler.jobs k)
  unfolding register_job add_job
  register_job-jobs row scheduler k = ground (arith, ==_iff row.id k, ==_iff k row.id)

  create-IsSynced :
      (known_process : ℕ → Bool) (row : ScheduledProcess) (s : Schedules)
      → IsSynced s
      → IsSynced (kept_or s (create_schedule is_crontab known_process row s))
  unfolding create_schedule
  create-IsSynced known_process row s v =
      elim (Bool-cases (any (is_schedule row.id) s.rows || not (known_process row.process_id))) [
        | inl refused ↦ rw (refused, create_schedule) v
        | inr new ↦
            let unused : any (is_schedule row.id) s.rows ≡ false = ground arith in
            rw (new, create_schedule)
              (record {
                keyed = append-IsKeyed s.rows row v.keyed unused;
                wanted = λ k. ground (
                  arith,
                  v.wanted k,
                  find_append k s.rows row unused,
                  register_job-jobs row s.scheduler k,
                  find_none (is_schedule k) s.rows,
                  ==_iff row.id k,
                );
              })
      ]

  delete-IsSynced : (id : ℕ) (s : Schedules) → IsSynced s → IsSynced (delete_schedule id s).0
  unfolding delete_schedule
  delete-IsSynced id s v = record {
    keyed = delete-IsKeyed id s.rows v.keyed;
    wanted = λ k. ground (arith, v.wanted k, find_delete k id s.rows, ==_iff id k, ==_iff k id);
  }

  set_enabled-wanted :
      (id : ℕ) (enabled : Bool) (s : Schedules) (row : ScheduledProcess)
      → IsSynced s
      → find? (is_schedule id) s.rows ≡ some row
      → (k : ℕ)
      → (if enabled && not (is_some (s.scheduler.jobs id))
            then register_job is_crontab row s.scheduler
            else if not enabled && is_some (s.scheduler.jobs id)
            then remove_job id s.scheduler
            else s.scheduler).jobs
          k
        ≡ job_wanted (find? (is_schedule k) (change_row id (with_enabled enabled) s.rows))
  set_enabled-wanted id enabled s row v found k =
      let own : row.id ≡ id =
        (==_iff row.id id).0 (find?-passes (is_schedule id) s.rows row found) in
      let before : s.scheduler.jobs id ≡ job_wanted (some row) = rw (v.wanted id, found) in
      let changed = find_change k id enabled s.rows row found in
      elim (Bool-cases (id == k)) [
        | inl same ↦
            let e : id ≡ k = (==_iff id k).0 same in
            let before' : s.scheduler.jobs k ≡ job_wanted (some row) = rw (← e) before in
            ground (
              arith,
              before,
              before',
              changed,
              register_job-jobs row s.scheduler k,
              ==_iff row.id k,
              ==_iff id k,
              ==_iff k id,
            )
        | inr other ↦ ground (
          arith,
          v.wanted k,
          changed,
          register_job-jobs row s.scheduler k,
          ==_iff row.id k,
          ==_iff id k,
          ==_iff k id,
        )
      ]

  set_enabled-IsSynced :
      (id : ℕ) (enabled : Bool) (s : Schedules)
      → IsSynced s
      → IsSynced (kept_or s (set_schedule_enabled is_crontab id enabled s))
  unfolding set_schedule_enabled
  set_enabled-IsSynced id enabled s v = elim (Option-cases (find? (is_schedule id) s.rows)) [
    | inl missing ↦ rw (missing, set_schedule_enabled) v
    | inr (row, found) ↦
        rw (found, set_schedule_enabled)
          (record {
            keyed = change-IsKeyed id enabled s.rows v.keyed;
            wanted = λ k. set_enabled-wanted id enabled s row v found k;
          })
  ]

  call-IsSynced :
      (known_process : ℕ → Bool) (c : ScheduleCall) (s : Schedules)
      → IsSynced s
      → IsSynced (call is_crontab known_process c s)
  call-IsSynced known_process (creates row) s v = create-IsSynced known_process row s v
  call-IsSynced known_process (deletes id) s v = delete-IsSynced id s v
  call-IsSynced known_process (sets_enabled id enabled) s v = set_enabled-IsSynced id enabled s v

  calls-IsSynced :
      (known_process : ℕ → Bool) (calls : List ScheduleCall) (s : Schedules)
      → IsSynced s
      → IsSynced (run_calls is_crontab known_process calls s)
  calls-IsSynced known_process [] s v = v
  calls-IsSynced known_process (c ∷ rest) s v =
      calls-IsSynced known_process rest (call is_crontab known_process c s)
        (call-IsSynced known_process c s v)

  reload_jobs-wanted :
      (rows : List ScheduledProcess) (count : ℕ) (scheduler : Scheduler) (k : ℕ)
      → IsKeyed rows
      → (reload_jobs is_crontab rows count scheduler).0.jobs k
        ≡ or_job (job_wanted (find? (is_schedule k) rows)) (scheduler.jobs k)
  unfolding reload_jobs add_job
  reload_jobs-wanted [] count scheduler k h = refl
  reload_jobs-wanted (s ∷ rows) count scheduler k (own, h) =
      let (scheduler', added) = add_job is_crontab s scheduler in
      let ih =
        reload_jobs-wanted rows (if s.enabled && added then count + 1 else count)
          (if s.enabled then scheduler' else scheduler) k h in
      elim (Bool-cases (s.id == k)) [
        | inl same ↦
            let e : s.id ≡ k = (==_iff s.id k).0 same in
            let none_left : find? (is_schedule k) rows ≡ none =
              find_none (is_schedule k) rows (rw (← e) own) in
            ground (arith, ih, none_left, ==_iff s.id k, ==_iff k s.id)
        | inr other ↦ ground (arith, ih, ==_iff s.id k, ==_iff k s.id)
      ]

-- No schedules yet.
abbrev pub no_schedules : Schedules
no_schedules = record { rows = []; scheduler = fresh_scheduler }

-- After any calls, the jobs are exactly those of the schedules that are enabled and whose text is a cron
-- expression, and identifiers of schedules are keys.
pub run_calls-IsSynced :
    (is_crontab : String → Bool) (known_process : ℕ → Bool) (calls : List ScheduleCall)
    → IsSynced is_crontab (run_calls is_crontab known_process calls no_schedules)
run_calls-IsSynced is_crontab known_process calls =
    calls-IsSynced is_crontab known_process calls no_schedules
      (record { keyed = tt; wanted = λ k. refl })

-- After any calls, a restart that reloads all schedules restores every job, and no other.
pub reload_all_schedules-restores :
    (is_crontab : String → Bool) (known_process : ℕ → Bool) (calls : List ScheduleCall) (k : ℕ)
    → let s = run_calls is_crontab known_process calls no_schedules in
      (reload_all_schedules is_crontab s.rows fresh_scheduler).0.jobs k ≡ s.scheduler.jobs k
unfolding reload_all_schedules
reload_all_schedules-restores is_crontab known_process calls k =
    let s = run_calls is_crontab known_process calls no_schedules in
    let v = run_calls-IsSynced is_crontab known_process calls in
    let reloaded = reload_jobs-wanted is_crontab s.rows 0 fresh_scheduler k v.keyed in
    ground (arith, reloaded, v.wanted k)
