-- ===== src/Tasks/Dependencies.antt =====
-- backend/app/workflow/task_subdeps.py, the part on dependencies. The order in which Python iterates over
-- the set of nodes is the argument `set_order`; the new row's identifier is `new_id`.
pub mod Nodes
pub mod Cycles
pub mod History
use apex_ai.Prelude.{
  ℕ, ◌+◌, Bool, true, false, not, ◌&&◌, ◌||◌, Option, none, some, List, [], ◌∷◌, ◌++◌, map, Eq,
  nat_eq, ◌==◌, if◌then◌else◌, contains, any, filter, find?, length, Result, ok, err, ◌>>=◌, ◌>>◌,
  guard,
}
use apex_ai.Kahn.{kahn, visit_count}
use apex_ai.Tasks.{Task, TaskStatus, TaskDependency, Store, get_task, is_found}

pub data DependencyError : Type 0 where
  blocks_itself : DependencyError
  blocker_not_found : ℕ → DependencyError
  blocked_not_found : ℕ → DependencyError
  already_exists : DependencyError
  creates_cycle : DependencyError
  -- No outcome of the code: the fuel of the loop ran out. `Dependencies.Cycles` excludes it.
  no_fuel : DependencyError

-- `nodes.add(node)`, on the elements in the order in which they were added.
abbrev pub add_node : ℕ → List ℕ → List ℕ
add_node node nodes = if contains nodes node then nodes else nodes ++ node ∷ []

-- The set that the first loop of `_would_create_cycle` builds.
unfoldable pub collect_nodes : List ℕ → List (ℕ × ℕ) → List ℕ
collect_nodes nodes [] = nodes
collect_nodes nodes ((blk, bld) ∷ es) = collect_nodes (add_node bld (add_node blk nodes)) es

abbrev pub edges_of : List TaskDependency → List (ℕ × ℕ)
edges_of = map (λ d. (d.blocker_id, d.blocked_id))

abbrev pub cycle_of : ℕ → Option ((ℕ → ℕ) × ℕ) → Option Bool
cycle_of size none = none
cycle_of size (some (deg, visited)) = some (not (visited == size))

abbrev pub same_edge : ℕ → ℕ → TaskDependency → Bool
same_edge blocker_id blocked_id d = d.blocker_id == blocker_id && d.blocked_id == blocked_id

abbrev pub refuse_cycle : Option Bool → Result DependencyError (Unit {0})
refuse_cycle none = err no_fuel
refuse_cycle (some true) = err creates_cycle
refuse_cycle (some false) = ok tt

module _ (set_order : List ℕ → List ℕ) where
  -- `_would_create_cycle`; `none` is for fuel that ran out.
  unfoldable pub would_create_cycle : ℕ → ℕ → List TaskDependency → Option Bool
  unfolding collect_nodes kahn
  would_create_cycle new_blocker new_blocked rows =
      let edges = edges_of rows ++ (new_blocker, new_blocked) ∷ [] in
      let nodes = set_order (collect_nodes [] edges) in
      cycle_of (length nodes) (kahn visit_count 0 (length nodes) nodes edges)

  -- `add_dependency`
  unfoldable pub add_dependency : ℕ → ℕ → ℕ → Store → Result DependencyError Store
  unfolding would_create_cycle
  add_dependency new_id blocker_id blocked_id store = do
    guard (not (blocker_id == blocked_id)) blocks_itself
    let blocker = get_task blocker_id store.tasks
    let blocked = get_task blocked_id store.tasks
    guard (is_found blocker) (blocker_not_found blocker_id)
    guard (is_found blocked) (blocked_not_found blocked_id)
    guard (not (any (same_edge blocker_id blocked_id) store.dependencies)) already_exists
    refuse_cycle (would_create_cycle blocker_id blocked_id store.dependencies)
    let dep : TaskDependency = record {
      id = new_id;
      blocker_id = blocker_id;
      blocked_id = blocked_id;
    }
    ok (record store { dependencies = store.dependencies ++ dep ∷ [] })

-- `remove_dependency`: the rows that stay, and whether one was deleted.
unfoldable pub remove_dependency : ℕ → ℕ → Store → Store × Bool
remove_dependency blocker_id blocked_id store =
    let kept = filter (λ d. not (same_edge blocker_id blocked_id d)) store.dependencies in
    (record store { dependencies = kept }, any (same_edge blocker_id blocked_id) store.dependencies)

-- `get_blockers`, without its order: the join of the tasks with the dependencies on `task_id`.
unfoldable pub get_blockers : ℕ → List TaskDependency → List Task → List Task
get_blockers task_id rows [] = []
get_blockers task_id rows (t ∷ ts) =
    map (λ d. t) (filter (λ d. same_edge t.id task_id d) rows) ++ get_blockers task_id rows ts

abbrev pub is_open : TaskStatus → Bool
is_open TaskStatus.done = false
is_open TaskStatus.cancelled = false
is_open _ = true

-- `is_task_blocked`
unfoldable pub is_task_blocked : ℕ → Store → Bool
unfolding get_blockers
is_task_blocked task_id store =
    any (λ b. is_open b.status) (get_blockers task_id store.dependencies store.tasks)
