-- ===== src/Tests/Agent.antt =====
-- The theorems on the agent loop's guards and memory at concrete inputs.
use apex_ai.Prelude.{
  ℕ, ◌+◌, ◌≤◌, ◌<◌, ◌≡◌, ◌↔◌, ◌⊎◌, Bool, true, false, List, [], ◌∷◌, Option, none, some, String,
  filter, length, ◌++◌, refl,
}
use apex_ai.Workflow.Json.{num, Fields, end, field}
use apex_ai.Agent.Memory.{Message, plain_message, is_system, is_other}
use apex_ai.Agent.Memory.Tokens.{
  count_message_tokens, token_aware_trim, content_cost, token_aware_trim-newest,
}
use apex_ai.Agent.Safety.{is_set}
use apex_ai.Agent.Safety.Circuit.{Outcome, break_run, streak, break_run-streak}
use apex_ai.Agent.Safety.Repetition.{
  ToolUse, default_mutating_limit, default_read_limit, mutations, reads, detect_run,
  detect_run-tripped_iff,
}
use apex_ai.Agent.Safety.Budget.{TokenBudgetEnforcer}

abbrev outcome : String → Bool → Outcome
outcome tool_name succeeded = record { tool_name = tool_name; succeeded = succeeded }

abbrev outcomes : List Outcome
outcomes = outcome "edit_file" false ∷ outcome "read_file" true ∷ outcome "edit_file" false ∷ []

break_run-streak_example :
    ((t : String) → (break_run 3 outcomes).consecutive t ≡ streak t outcomes)
    × ((t : String) → (break_run 3 outcomes).tripped_for ≡ some t → 3 ≤ streak t outcomes)
    × ((t : String)
        → 3 ≤ streak t outcomes + 1
        → (break_run 3 (outcome t false ∷ outcomes)).tripped_for ≡ some t)
break_run-streak_example = break_run-streak 3 outcomes

abbrev first_key : Fields → String
first_key end = ""
first_key (field key value rest) = key

abbrev uses : List ToolUse
uses =
    (record { tool_name = "read_file"; args = field "a.py" (num 1) end; is_mutating = false }) ∷ []

detect_run-tripped_iff_example : (is_set (detect_run first_key uses).tripped_for ≡ true) ↔ (
    ((t : String) × (default_mutating_limit < mutations first_key t uses))
    ⊎ ((t : String) × (hash : String) × (default_read_limit < reads first_key t hash uses)))
detect_run-tripped_iff_example = detect_run-tripped_iff first_key uses

abbrev no_text : String → Option ℕ
no_text s = none

abbrev small_budget : TokenBudgetEnforcer
small_budget = record {
  per_run_limit = 100;
  has_org = true;
  usage = record { input_tokens = 0; output_tokens = 0 };
}

abbrev responses : List (ℕ × ℕ)
responses = (30, 20) ∷ (10, 5) ∷ []

abbrev chat : List Message
chat =
    plain_message "system" "be brief"
    ∷ plain_message "user" "hi"
    ∷ plain_message "assistant" "hello"
    ∷ []

abbrev ten : String → ℕ
ten text = 10

abbrev no_dump : List Fields → String
no_dump calls = ""

abbrev summary : List Message → String
summary messages = "earlier messages"

-- Of the two messages that are not the system's only the newest fits into 30 tokens.
token_aware_trim-newest_example :
    let trimmed = token_aware_trim ten no_dump summary chat 30 in
    let kept = filter is_other trimmed in
    let system = count_message_tokens ten no_dump summary (filter is_system chat) in
    ((added : List Message) × (filter is_system trimmed ≡ filter is_system chat ++ added)
      × (length added ≤ 1))
    × ((older : List Message) × (older ++ kept ≡ filter is_other chat))
    × (system ≤ 30 → system + content_cost ten no_dump summary kept ≤ 30)
unfolding count_message_tokens
token_aware_trim-newest_example = token_aware_trim-newest ten no_dump summary chat 30 refl
