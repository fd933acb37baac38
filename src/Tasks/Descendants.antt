-- ===== src/Tasks/Descendants.antt =====
-- `get_descendants` and `would_create_subtask_cycle` of backend/app/workflow/task_subdeps.py. The rows stand
-- in the order in which they were created. The recursive query keeps the rows that it has found and the rows
-- of its last round; identifiers stand for rows.
pub mod Reach
pub mod Closure
pub mod Exact
use apex_ai.Prelude.{
  ℕ, suc, zero, Bool, true, false, not, ◌&&◌, Option, none, some, List, [], ◌∷◌, ◌++◌, map, ◌==◌,
  nat_eq, filter, any, contains, length,
}
use apex_ai.Tasks.{Task}

-- `t.parent_id = d.id` for a row of the last round.
abbrev pub is_child : List ℕ → Option ℕ → Bool
is_child ids none = false
is_child ids (some parent_id) = contains ids parent_id

abbrev pub id_of : Task → ℕ
id_of t = t.id

abbrev pub is_new_child : List ℕ → List ℕ → Task → Bool
is_new_child found last t = is_child last t.parent_id && not (contains found t.id)

-- One round: the children of the last round's rows, without those that were found before.
unfoldable pub next_round : List Task → List ℕ → List ℕ → List ℕ
next_round tasks found last = map id_of (filter (is_new_child found last) tasks)

-- The rounds, until one finds nothing.
unfoldable pub rounds : ℕ → List Task → List ℕ → List ℕ → List ℕ
unfolding next_round
rounds zero tasks found last = found
rounds (suc fuel) tasks found [] = found
rounds (suc fuel) tasks found (id ∷ ids) =
    let next = next_round tasks found (id ∷ ids) in rounds fuel tasks (found ++ next) next

abbrev pub has_task_id : ℕ → Task → Bool
has_task_id id t = t.id == id

-- `descendants`, the rows of the recursive query, with a round for each task.
unfoldable pub descendants : ℕ → List Task → List ℕ
unfolding rounds
descendants root_id tasks =
    let roots = map id_of (filter (has_task_id root_id) tasks) in
    rounds (suc (length tasks)) tasks roots roots

unfoldable pub get_descendants : ℕ → List Task → List Task
unfolding descendants
get_descendants root_id tasks =
    let ids = filter (λ id. not (id == root_id)) (descendants root_id tasks) in
    filter (λ t. contains ids t.id) tasks

unfoldable pub would_create_subtask_cycle : ℕ → Option ℕ → List Task → Bool
unfolding get_descendants
would_create_subtask_cycle parent_id none tasks = false
would_create_subtask_cycle parent_id (some new_child_id) tasks =
    any (has_task_id parent_id) (get_descendants new_child_id tasks)
