-- ===== src/Agent/Loop/State.antt =====
-- What `AgentLoop.run` of backend/app/agent/runtime.py works on. What it calls is a record of `Services`:
-- the model, the handlers of the tools (each call is told the number of rows that the conversation has by
-- then, so the same call may be answered differently later), the parts of the standard library that it
-- formats and reads texts with, and the rows that the check of the budget queries.
use apex_ai.Prelude.{ℕ, Bool, Option, List, String, string_eq, nat_eq, Result}
use apex_ai.Workflow.Json.{Json, Fields}
use apex_ai.Agent.Results.{FinishReason}
use apex_ai.Agent.Memory.{Message}
use apex_ai.Agent.Memory.Store.{Row}
use apex_ai.Agent.Parser.{Syntax}
use apex_ai.Agent.Safety.{Guidance}
use apex_ai.Agent.Safety.Circuit.{CircuitBreaker}
use apex_ai.Agent.Safety.Edits.{EditFailureTracker}
use apex_ai.Agent.Safety.Repetition.{RepetitionDetector}
use apex_ai.Agent.Safety.Budget.{TokenBudgetEnforcer, TokenBudgetExceeded}

-- `ToolResult`; of its metadata the loop reads whether the change was intentional, and
-- the path; `error` is the text that the message gets.
pub record ToolResult : Type 0 where
  pub is_ok : Bool
  pub output : String
  pub error : String
  pub intentional : Bool
  pub path : String

-- The part of `Tool` that the loop reads.
pub record Tool : Type 0 where
  pub is_mutating : Bool
  pub handler : ℕ → Fields → Result String ToolResult

-- `LLMResponse` without the object of the library; the cost, which is a float, is the value it has in JSON.
pub record LlmResponse : Type 0 where
  pub content : String
  pub tool_calls : List Fields
  pub finish_reason : String
  pub input_tokens : ℕ
  pub output_tokens : ℕ
  pub cost_usd : Json
  pub model : String

pub record Services : Type 0 where
  pub completion : ℕ → List Message → Result String LlmResponse
  pub tools : String → Option Tool
  pub syntax : Syntax
  pub args_hash : Fields → String
  pub repr : String → String
  pub strip : String → String
  pub parse_int : String → Option ℕ
  pub is_migration : String → Bool
  pub summary_text : List Message → String
  pub guidance_text : Guidance → String
  pub exceeded_text : TokenBudgetExceeded → String
  pub org_setting : Option Json
  pub summed_today : ℕ → ℕ

pub record Checkpoint : Type 0 where
  pub step : ℕ
  pub state : Fields

-- The variables of `run` that the loop changes, and the rows that it writes.
pub record LoopState : Type 0 where
  pub messages : List Message
  pub stored : List Row
  pub checkpoints : List Checkpoint
  pub run_status : String
  pub steps : ℕ
  pub circuit : CircuitBreaker
  pub repetition : RepetitionDetector
  pub edit_tracker : EditFailureTracker
  pub budget : TokenBudgetEnforcer
  pub all_intentional : List String
  pub last_content : String
  pub finish_reason : Option FinishReason
  pub error_msg : Option String
