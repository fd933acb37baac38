-- ===== src/Agent/Memory/Store.antt =====
-- `ConversationStore` of backend/app/agent/memory.py: the rows of one conversation, the last one last.
-- The order in which the database returns rows is the argument `by_sequence`, a sort by the sequence.
use apex_ai.Prelude.{ℕ, List, [], ◌∷◌, ◌++◌, map}
use apex_ai.Agent.Memory.{Message}

pub record Row : Type 0 where
  pub sequence : ℕ
  pub message : Message

-- `append`
abbrev pub append_row : List Row → Message → ℕ → List Row
append_row rows message sequence = rows ++ (record { sequence = sequence; message = message }) ∷ []

-- `get_messages`
unfoldable pub get_messages : (List Row → List Row) → List Row → List Message
get_messages by_sequence rows = map (λ r. r.message) (by_sequence rows)
