-- ===== src/Agent/Memory/Summary.antt =====
-- `maybe_summarize` of backend/app/agent/memory.py. The text of a summary lists what regular expressions
-- find in the messages: it is the argument `summary_text`.
use apex_ai.Prelude.{
  ℕ, ◌/◌, List, ◌∷◌, ◌++◌, String, if◌then◌else◌, leb, length, filter, drop, take,
}
use apex_ai.Agent.Memory.{Message, plain_message, is_system, is_other}

module _ (summary_text : List Message → String) where
  -- `maybe_summarize`
  unfoldable pub maybe_summarize : List Message → ℕ → List Message
  maybe_summarize messages threshold =
      let system = filter is_system messages in
      let non_system = filter is_other messages in
      let head = take (threshold / 2) non_system in
      let tail = drop (threshold / 2) non_system in
      if leb (length messages) threshold
      then messages
      else system ++ plain_message "system" (summary_text head) ∷ tail
