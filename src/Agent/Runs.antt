-- ===== src/Agent/Runs.antt =====
-- The rows of agent runs: `mark_stuck_runs` of backend/app/agent/cleanup.py, the queries of
-- backend/app/agent/checkpoint.py, and `resume_run` and `cancel_run` of backend/app/agent/api/routes.py. The
-- texts of errors are arguments where they carry a number.
pub mod Marks
pub mod Resumption
use apex_ai.Prelude.{
  ℕ, ◌+◌, Bool, true, false, not, ◌&&◌, ◌||◌, Option, none, some, List, [], ◌∷◌, ◌++◌, map, String,
  Eq, ◌==◌, string_eq, nat_eq, if◌then◌else◌, ltb, leb, contains, filter, length, Result, ok, err,
}
use Prim.Native.String
use apex_ai.Agent.Results.{finish_reason_text}
use apex_ai.Agent.Roles.{Role, role_text}
use apex_ai.Agent.Memory.{Message, plain_message}
use apex_ai.Agent.Memory.Store.{Row, append_row}
use apex_ai.Agent.Loop.State.{Services, LoopState}
use apex_ai.Agent.Loop.Run.{LoopConfig, Past, run_agent, final_status}

-- The columns of `AgentRun` that the operations read or write.
pub record AgentRun : Type 0 where
  pub id : ℕ
  pub org_id : Option String
  pub role : Role
  pub status : String
  pub error : Option String
  pub started_at : ℕ
  pub finished_at : Option ℕ

-- The query for running rows that started more than `threshold` before `now`.
unfoldable pub is_old : ℕ → ℕ → AgentRun → Bool
is_old now threshold run = run.status == "running" && ltb (run.started_at + threshold) now

-- The body of the loop over the rows that the query finds, on any row.
unfoldable pub mark_row : String → (AgentRun → String) → ℕ → ℕ → AgentRun → AgentRun
unfolding is_old
mark_row status text now threshold run =
    if is_old now threshold run
    then record run { status = status; error = some (text run); finished_at = some now }
    else run

abbrev pub mark_rows : String → (AgentRun → String) → ℕ → ℕ → List AgentRun → List AgentRun
mark_rows status text now threshold [] = []
mark_rows status text now threshold (run ∷ runs) =
    mark_row status text now threshold run ∷ mark_rows status text now threshold runs

-- `mark_stuck_runs`, with the number it returns; `STUCK_THRESHOLD` is an hour of 3600 seconds.
unfoldable pub mark_stuck_runs : ℕ → List AgentRun → List AgentRun × ℕ
mark_stuck_runs now runs = (
  mark_rows "stuck" (λ run. "Marked stuck by cleanup (running > 1 hour)") now 3600 runs,
  length (filter (is_old now 3600) runs),
)

-- `mark_stuck_runs_interrupted`
unfoldable pub mark_stuck_runs_interrupted :
    (AgentRun → String) → ℕ → ℕ → List AgentRun → List AgentRun × ℕ
mark_stuck_runs_interrupted text now threshold_seconds runs = (
  mark_rows "interrupted" text now threshold_seconds runs,
  length (filter (is_old now threshold_seconds) runs),
)

-- The condition of `list_resumable_runs`.
unfoldable pub is_listed : AgentRun → Bool
is_listed run = contains ("interrupted" ∷ "awaiting_approval" ∷ []) run.status

-- The condition of `resume_run`.
unfoldable pub is_resumable : AgentRun → Bool
is_resumable run = contains ("awaiting_approval" ∷ "paused" ∷ "stuck" ∷ []) run.status

pub data RunError : Type 0 where
  cannot_resume cannot_cancel : (status : String) → RunError

-- `coalesce(max(sequence), 0)`
unfoldable pub max_sequence : List Row → ℕ
max_sequence [] = 0
max_sequence (row ∷ rows) =
    let rest = max_sequence rows in if leb row.sequence rest then rest else row.sequence

-- The message that `resume_run` adds.
abbrev pub resume_message : String → Message
resume_message approval_comment =
    plain_message "system" (String.◌++◌ "[RESUMED by user] " approval_comment)

unfoldable pub resumed_rows : List Row → String → List Row
unfolding max_sequence
resumed_rows rows approval_comment =
    append_row rows (resume_message approval_comment) (max_sequence rows + 1)

abbrev pub resume_config : AgentRun → LoopConfig
resume_config run = record {
  role = run.role;
  user_prompt = role_text run.role;
  max_steps = none;
  has_org = elim run.org_id [ none ↦ false | some org_id ↦ not (org_id == "") ];
}

-- `resume_run`: an error, or what the loop returns. The row is running meanwhile.
unfoldable pub resume_run :
    Services
    → (Role → String)
    → (List Row → List Row)
    → AgentRun
    → Past
    → String
    → Result RunError (Option LoopState)
unfolding is_resumable resumed_rows run_agent
resume_run w system_prompt by_sequence run past approval_comment =
    if not (is_resumable run)
    then err (cannot_resume run.status)
    else ok (
        run_agent w system_prompt by_sequence (resume_config run) (
          some (record {
            rows = resumed_rows past.rows approval_comment;
            checkpoints = past.checkpoints;
          })))

-- `cancel_run`
unfoldable pub cancel_run : ℕ → AgentRun → Result RunError AgentRun
cancel_run now run =
    if not (run.status == "running")
    then err (cannot_cancel run.status)
    else ok (record run {
      status = "cancelled";
      error = some "Cancelled by user";
      finished_at = some now;
    })

-- What `run` of the loop writes to the row at its end.
unfoldable pub end_run : ℕ → AgentRun → LoopState → AgentRun
end_run now run s = record run {
  status = finish_reason_text (final_status s.finish_reason);
  error = s.error_msg;
  finished_at = some now;
}
