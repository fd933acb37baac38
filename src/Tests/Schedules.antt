-- ===== src/Tests/Schedules.antt =====
-- The theorems about backend/app/workflow/scheduler.py at concrete inputs.
use apex_ai.Prelude.{ℕ, ◌≡◌, Bool, true, false, List, [], ◌∷◌, String, ◌==◌, string_eq, not, ltb}
use apex_ai.Workflow.Scheduler.{
  ScheduledProcess, ScheduleCall, creates, deletes, sets_enabled, fresh_scheduler,
  reload_all_schedules, run_calls,
}
use apex_ai.Workflow.Scheduler.Synced.{
  IsSynced, no_schedules, run_calls-IsSynced, reload_all_schedules-restores,
}

abbrev schedule : ℕ → String → ScheduledProcess
schedule id text = record { id = id; process_id = 5; cron_expr = text; enabled = true }

abbrev is_crontab : String → Bool
is_crontab text = not (text == "soon")

abbrev is_known : ℕ → Bool
is_known id = ltb id 10

abbrev calls : List ScheduleCall
calls =
    creates (schedule 1 "0 9 * * 1")
    ∷ creates (schedule 2 "soon")
    ∷ sets_enabled 1 false
    ∷ creates (schedule 3 "0 0 * * *")
    ∷ sets_enabled 1 true
    ∷ deletes 3
    ∷ []

run_calls-IsSynced_example : IsSynced is_crontab (run_calls is_crontab is_known calls no_schedules)
run_calls-IsSynced_example = run_calls-IsSynced is_crontab is_known calls

reload_all_schedules-restores_example :
    (reload_all_schedules is_crontab
        (run_calls is_crontab is_known calls no_schedules).rows
        fresh_scheduler).0.jobs
      1
    ≡ (run_calls is_crontab is_known calls no_schedules).scheduler.jobs 1
reload_all_schedules-restores_example = reload_all_schedules-restores is_crontab is_known calls 1
