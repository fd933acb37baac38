-- ===== src/Agent/Safety.antt =====
-- backend/app/agent/safety.py: the guards of the agent loop. A dictionary that is only read by
-- `get(key, 0)` is a function with 0 for a missing key. The text of a guidance message is left out: a
-- message is the tool and the number that it reports.
pub mod Circuit
pub mod Edits
pub mod Repetition
pub mod Budget
use apex_ai.Prelude.{ℕ, Bool, true, false, Option, none, some, String}

pub data Guidance : Type 0 where
  keeps_failing : (tool_name : String) (times : ℕ) → Guidance
  mutates_too_often : (tool_name : String) (times : ℕ) → Guidance
  reads_too_often : (tool_name : String) (times : ℕ) → Guidance
  edits_keep_failing : (times : ℕ) → Guidance

abbrev pub is_set {ℓ} : {A : Type ℓ} → Option A → Bool
is_set none = false
is_set (some a) = true
