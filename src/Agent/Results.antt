-- ===== src/Agent/Results.antt =====
-- What a finished run reports (`AgentResult` in backend/app/agent/runtime.py), as far as the executor and
-- the loop read it, and the roles of backend/app/agent/roles.py.
use apex_ai.Prelude.{ℕ, Bool, true, false, Option, List, [], ◌∷◌, String}

pub data FinishReason : Type 0 where
  finished max_steps safety_tripped budget_exceeded error awaiting_approval : FinishReason

abbrev pub finish_reason_text : FinishReason → String
finish_reason_text FinishReason.finished = "finished"
finish_reason_text FinishReason.max_steps = "max_steps"
finish_reason_text FinishReason.safety_tripped = "safety_tripped"
finish_reason_text FinishReason.budget_exceeded = "budget_exceeded"
finish_reason_text FinishReason.error = "error"
finish_reason_text FinishReason.awaiting_approval = "awaiting_approval"

abbrev pub is_awaiting : FinishReason → Bool
is_awaiting FinishReason.awaiting_approval = true
is_awaiting _ = false

pub record AgentResult : Type 0 where
  pub success : Bool
  pub agent_run_id : ℕ
  pub summary : String
  pub steps : ℕ
  pub input_tokens : ℕ
  pub output_tokens : ℕ
  pub intentional_files : List String
  pub error : Option String
  pub finish_reason : FinishReason

-- The values of the enumeration `Role`.
abbrev pub role_values : List String
role_values = "MGR" ∷ "ANL" ∷ "DEV_FE" ∷ "DEV_BE" ∷ "QA" ∷ "PM" ∷ "SUP" ∷ []
