-- ===== src/Tests/Loop.antt =====
-- The theorems on the agent loop, its tool calls, its runs and its cache at concrete inputs.
use Prim.Native.Nat.{max}
use mathlib.Core.Path.{subst}
use apex_ai.Prelude.{
  ℕ, ◌+◌, ◌≤◌, ◌≡◌, ◌↔◌, ◌⊎◌, refl, true, false, Option, none, some, List, [], ◌∷◌, String, ◌==◌,
  string_eq, nat_eq, if◌then◌else◌, ok, ok-injective, arith,
}
use apex_ai.Workflow.Json.{num, str, obj, Fields, end, field, get_field}
use apex_ai.Agent.Results.{FinishReason}
use apex_ai.Agent.Roles.{Role}
use apex_ai.Agent.Memory.{plain_message}
use apex_ai.Agent.Memory.Store.{Row}
use apex_ai.Agent.Parser.{Syntax, normalize_all, normalize_tool_call}
use apex_ai.Agent.Safety.Budget.{total, default_run_limit, check_budget, record_tokens}
use apex_ai.Agent.Safety.Circuit.{break_success}
use apex_ai.Agent.Safety.Repetition.{record_use}
use apex_ai.Agent.Gates.{evaluate_migration_gate}
use apex_ai.Agent.Loop.State.{Services, LlmResponse, Tool, ToolResult, LoopState}
use apex_ai.Agent.Loop.Run.{
  LoopConfig, effective_max_steps, prepare, run_agent, report, fresh_state,
}
use apex_ai.Agent.Loop.Rounds.{begin_step}
use apex_ai.Agent.Loop.Steps.{run_agent-total}
use apex_ai.Agent.Loop.Ends.{run_agent-limit, report-success_iff}
use apex_ai.Agent.Loop.Usage.{IsBounded, received, run_agent-usage}
use apex_ai.Agent.Loop.Resume.{prepare-begin_step}

abbrev no_syntax : Syntax
no_syntax = record { loads = λ text. none; tool_call_blocks = λ text. []; json_blocks = λ text. [] }

abbrev migrate : Fields
migrate =
    field "name" (str "run_command")
      (field "arguments" (obj (field "command" (str "alembic upgrade head") end)) end)

abbrev finish : Fields
finish = field "name" (str "finish") end

abbrev pub response : List Fields → LlmResponse
response calls = record {
  content = "on it";
  tool_calls = calls;
  finish_reason = "stop";
  input_tokens = 30;
  output_tokens = 20;
  cost_usd = num 0;
  model = "m";
}

abbrev done_result : ToolResult
done_result = record { is_ok = true; output = "done"; error = ""; intentional = false; path = "" }

abbrev shell : Tool
shell = record { is_mutating = true; handler = λ moment args. ok done_result }

-- A model that runs a migration, and then finishes.
abbrev pub services : Services
services = record {
  completion = λ moment messages. ok (response ((if moment == 2 then migrate else finish) ∷ []));
  tools = λ name. if name == "run_command" then some shell else none;
  syntax = no_syntax;
  args_hash = λ args. "";
  repr = λ name. name;
  strip = λ text. text;
  parse_int = λ text. none;
  is_migration = λ command. command == "alembic upgrade head";
  summary_text = λ messages. "";
  guidance_text = λ guidance. "";
  exceeded_text = λ exceeded. "";
  org_setting = none;
  summed_today = λ moment. 0;
}

abbrev pub prompt : Role → String
prompt role = "be brief"

abbrev pub as_stored : List Row → List Row
as_stored rows = rows

abbrev config : Option ℕ → LoopConfig
config max_steps = record {
  role = Role.developer_be;
  user_prompt = "upgrade";
  max_steps = max_steps;
  has_org = false;
}

abbrev or_start : LoopState → Option LoopState → LoopState
or_start start none = start
or_start start (some r) = r

abbrev result : Option ℕ → LoopState
result max_steps =
    or_start (prepare services prompt as_stored (config max_steps) none)
      (run_agent services prompt as_stored (config max_steps) none)

run_agent-total_example :
    (r : LoopState) × (run_agent services prompt as_stored (config (some 2)) none ≡ some r)
    × (r.steps
        ≤ max
            (effective_max_steps (config (some 2)))
            (prepare services prompt as_stored (config (some 2)) none).steps)
run_agent-total_example = run_agent-total services prompt as_stored (config (some 2)) none

-- One step is not enough for the model to finish: the run awaits the approval.
run_agent-limit_example : effective_max_steps (config (some 1)) ≤ (result (some 1)).steps
unfolding run_agent normalize_all normalize_tool_call get_field evaluate_migration_gate
    break_success record_use check_budget record_tokens
run_agent-limit_example =
    run_agent-limit services prompt as_stored (config (some 1)) none (result (some 1)) refl refl

-- With a second step it finishes without an approval.
report-success_iff_example :
    let start = prepare services prompt as_stored (config (some 2)) none in
    ((report 7 (result (some 2))).success ≡ true) ↔ (
      ((result (some 2)).finish_reason ≡ some FinishReason.finished)
      ⊎ (((result (some 2)).finish_reason ≡ none)
          × (result (some 2) ≡ start)
          × (effective_max_steps (config (some 2)) ≤ start.steps)))
unfolding run_agent normalize_all normalize_tool_call get_field evaluate_migration_gate
    break_success record_use check_budget record_tokens
report-success_iff_example =
    report-success_iff services prompt as_stored (config (some 2)) none 7 (result (some 2)) refl

finished_without_approval : (result (some 2)).finish_reason ≡ some FinishReason.finished
unfolding run_agent normalize_all normalize_tool_call get_field evaluate_migration_gate
    break_success record_use check_budget record_tokens
finished_without_approval = refl

services-IsBounded : IsBounded services 50
services-IsBounded moment messages r e =
    subst (λ (x : LlmResponse). x.input_tokens + x.output_tokens ≤ 50) (ok-injective e)
      (omega arith)

run_agent-usage_example :
    let limit = effective_max_steps (config (some 2)) in
    (received services limit limit (prepare services prompt as_stored (config (some 2)) none)
      ≤ default_run_limit + 50)
    × (total (result (some 2)).budget.usage ≤ default_run_limit + 50)
unfolding run_agent normalize_all normalize_tool_call get_field evaluate_migration_gate
    break_success record_use check_budget record_tokens
run_agent-usage_example =
    run_agent-usage services prompt as_stored (config (some 2)) none 50 (result (some 2))
      services-IsBounded refl

abbrev row : Row
row = record { sequence = 1; message = plain_message "user" "upgrade" }

-- The state before a step that saves a checkpoint.
abbrev fourth : LoopState
fourth = record (fresh_state (config none) [] (row ∷ []) []) {
  steps = 4;
  all_intentional = "a.py" ∷ [];
}

prepare-begin_step_example :
    let saved = begin_step services fourth in
    let start =
      prepare services prompt as_stored
        (config none)
        (some (record { rows = saved.stored; checkpoints = saved.checkpoints })) in
    (start.messages ≡ plain_message "user" "upgrade" ∷ [])
    × (start.all_intentional ≡ "a.py" ∷ [])
    × (start.steps ≡ 0)
    × (start.budget.usage ≡ record { input_tokens = 0; output_tokens = 0 })
prepare-begin_step_example =
    prepare-begin_step services prompt as_stored (config none) fourth refl tt
