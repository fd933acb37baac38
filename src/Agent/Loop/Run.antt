-- ===== src/Agent/Loop/Run.antt =====
-- The rest of `AgentLoop.run` and `_ensure_conversation` in backend/app/agent/runtime.py: what a new and a
-- resumed run start with, and what a run reports. The text of a role's prompt is the argument
-- `system_prompt`, and the order in which the database returns the rows is `by_sequence`.
use apex_ai.Prelude.{
  ℕ, Bool, true, false, Option, none, some, List, [], ◌∷◌, String, ◌==◌, string_eq, nat_eq,
  if◌then◌else◌, ltb,
}
use Prim.Native.String
use apex_ai.Workflow.Json.{Json, bool, num, str, arr, Items, nil, cons, Fields, nonempty, get_field}
use apex_ai.Agent.Results.{FinishReason, AgentResult, finish_reason_text}
use apex_ai.Agent.Roles.{Role, role_max_steps}
use apex_ai.Agent.Memory.{Message, plain_message}
use apex_ai.Agent.Memory.Store.{Row, append_row, get_messages}
use apex_ai.Agent.Safety.Circuit.{fresh_breaker}
use apex_ai.Agent.Safety.Edits.{fresh_tracker}
use apex_ai.Agent.Safety.Repetition.{fresh_detector}
use apex_ai.Agent.Safety.Budget.{default_run_limit}
use apex_ai.Agent.Loop.State.{Services, LoopState, Checkpoint}
use apex_ai.Agent.Loop.Rounds.{run_steps}

-- The part of `AgentLoopConfig` that decides how the loop runs.
pub record LoopConfig : Type 0 where
  pub role : Role
  pub user_prompt : String
  pub max_steps : Option ℕ
  pub has_org : Bool

-- What a conversation that is resumed has in the database.
pub record Past : Type 0 where
  pub rows : List Row
  pub checkpoints : List Checkpoint

-- `config.max_steps or role_cfg.max_steps`
unfoldable pub effective_max_steps : LoopConfig → ℕ
unfolding role_max_steps
effective_max_steps config = elim config.max_steps [
  | none ↦ role_max_steps config.role
  | some n ↦ if n == 0 then role_max_steps config.role else n
]

abbrev greater_step : Checkpoint → Option Checkpoint → Option Checkpoint
greater_step c none = some c
greater_step c (some best) = if ltb c.step best.step then some best else some c

-- `load_latest_checkpoint`: one with the greatest step.
unfoldable pub load_latest_checkpoint : List Checkpoint → Option Checkpoint
load_latest_checkpoint [] = none
load_latest_checkpoint (c ∷ cs) = greater_step c (load_latest_checkpoint cs)

-- `int(state.get("step", 0))`, where it does not raise.
abbrev pub restored_step : (String → Option ℕ) → Option Json → Option ℕ
restored_step parse_int none = some 0
restored_step parse_int (some (num n)) = some n
restored_step parse_int (some (bool true)) = some 1
restored_step parse_int (some (bool false)) = some 0
restored_step parse_int (some (str s)) = parse_int s
restored_step parse_int (some _) = none

abbrev pub texts : Items → List String
texts nil = []
texts (cons (str s) items) = s ∷ texts items
texts (cons _ items) = texts items

-- `state.get("intentional_files") or []`; the loop saves a list of texts, and other values are left out.
abbrev pub restored_files : Option Json → List String
restored_files (some (arr items)) = texts items
restored_files _ = []

-- The variables before the loop.
abbrev pub fresh_state : LoopConfig → List Message → List Row → List Checkpoint → LoopState
fresh_state config messages rows checkpoints = record {
  messages = messages;
  stored = rows;
  checkpoints = checkpoints;
  run_status = "running";
  steps = 0;
  circuit = fresh_breaker 3;
  repetition = fresh_detector;
  edit_tracker = fresh_tracker 5;
  budget = record {
    per_run_limit = default_run_limit;
    has_org = config.has_org;
    usage = record { input_tokens = 0; output_tokens = 0 };
  };
  all_intentional = [];
  last_content = "";
  finish_reason = none;
  error_msg = none;
}

-- The counter and the files of a checkpoint.
unfoldable pub seed : Services → Fields → LoopState → LoopState
seed w state s = elim (restored_step w.parse_int (get_field "step" state)) [
  | none ↦ s
  | some n ↦ record s {
    steps = n;
    all_intentional = restored_files (get_field "intentional_files" state);
  }
]

module _ (w : Services) (system_prompt : Role → String) (by_sequence : List Row → List Row) where
  -- A conversation that starts with the prompts, in a conversation that may have rows.
  unfoldable pub new_state : LoopConfig → Past → LoopState
  new_state config past =
      let system = plain_message "system" (system_prompt config.role) in
      let user = plain_message "user" config.user_prompt in
      fresh_state config (system ∷ user ∷ []) (append_row (append_row past.rows system 0) user 1)
        past.checkpoints

  -- Everything before the loop; the state of no checkpoint is empty.
  unfoldable pub prepare : LoopConfig → Option Past → LoopState
  unfolding new_state seed load_latest_checkpoint get_messages
  prepare config none = new_state config (record { rows = []; checkpoints = [] })
  prepare config (some past) = elim (load_latest_checkpoint past.checkpoints) [
    | none ↦ new_state config past
    | some checkpoint ↦
        if nonempty checkpoint.state
        then seed w checkpoint.state
            (fresh_state config (get_messages by_sequence past.rows) past.rows past.checkpoints)
        else new_state config past
  ]

  -- `run` up to its report.
  unfoldable pub run_agent : LoopConfig → Option Past → Option LoopState
  unfolding prepare run_steps effective_max_steps
  run_agent config past =
      let max_steps = effective_max_steps config in
      run_steps w max_steps max_steps (prepare config past)

-- `finish_reason or "finished"`
abbrev pub final_status : Option FinishReason → FinishReason
final_status none = FinishReason.finished
final_status (some reason) = reason

abbrev pub is_finished : FinishReason → Bool
is_finished FinishReason.finished = true
is_finished _ = false

abbrev pub with_prefix : FinishReason → String → String
with_prefix FinishReason.safety_tripped summary = String.◌++◌ "[Safety tripped] " summary
with_prefix _ summary = summary

abbrev pub with_error : FinishReason → Option String → String → String
with_error status none summary = summary
with_error status (some e) summary =
    if e == ""
    then summary
    else String.◌++◌ "[" (
        String.◌++◌ (finish_reason_text status)
          (String.◌++◌ "] " (String.◌++◌ summary (String.◌++◌ "\n" e))))

-- The result that `run` returns.
unfoldable pub report : ℕ → LoopState → AgentResult
report agent_run_id s =
    let status = final_status s.finish_reason in
    let text =
      if s.last_content == "" then "Run finished without text output" else s.last_content in
    record {
      success = is_finished status;
      agent_run_id = agent_run_id;
      summary = with_error status s.error_msg (with_prefix status text);
      steps = s.steps;
      input_tokens = s.budget.usage.input_tokens;
      output_tokens = s.budget.usage.output_tokens;
      intentional_files = s.all_intentional;
      error = s.error_msg;
      finish_reason = status;
    }
