-- ===== src/Tasks/Dependencies/Cycles.antt =====
-- The dependencies of tasks stay free of cycles.
use apex_ai.Prelude.{
  ℕ, ◌≡◌, ◌≢◌, ◌↔◌, ap, Bool, true, false, not, List, [], ◌∷◌, ◌++◌, some, nat_eq, ◌==◌, ==_iff,
  any, count, length, ok, arith,
}
use apex_ai.Kahn.Rank.{IsRanking}
use apex_ai.Kahn.Counter.{kahn_count_lem}
use apex_ai.Tasks.{TaskDependency, Store, get_task, is_found}
use apex_ai.Tasks.Dependencies.{
  collect_nodes, edges_of, cycle_of, same_edge, would_create_cycle, add_dependency,
}
use apex_ai.Tasks.Dependencies.Nodes.{collect_nodes-IsGraph}

-- The rows can be ranked: every blocker comes before what it blocks.
abbrev pub IsAcyclic : List (ℕ × ℕ) → Type 0
IsAcyclic es = (rank : ℕ → ℕ) × IsRanking es rank

-- The store with the new row at its end.
abbrev pub added : ℕ → ℕ → ℕ → Store → Store
added new_id blocker_id blocked_id store = record store {
  dependencies =
      store.dependencies
      ++ (record { id = new_id; blocker_id = blocker_id; blocked_id = blocked_id }) ∷ [];
}

module _ (set_order : List ℕ → List ℕ)
    (same : (xs : List ℕ) (n : ℕ) → count n (set_order xs) ≡ count n xs) where
  -- The check returns, and says whether the rows with the new edge have a cycle.
  would_create_cycle_lem :
      (new_blocker new_blocked : ℕ) (rows : List TaskDependency)
      → (found : Bool) × (would_create_cycle set_order new_blocker new_blocked rows ≡ some found)
        × ((found ≡ false) ↔ IsAcyclic (edges_of rows ++ (new_blocker, new_blocked) ∷ []))
  unfolding would_create_cycle
  would_create_cycle_lem new_blocker new_blocked rows =
      let edges = edges_of rows ++ (new_blocker, new_blocked) ∷ [] in
      let nodes = set_order (collect_nodes [] edges) in
      let (deg, visited, returned, iff) =
        kahn_count_lem nodes edges (collect_nodes-IsGraph set_order same edges) in
      (
        not (visited == length nodes),
        ap (cycle_of (length nodes)) returned,
        (λ h. iff.0 (ground (arith, h)), λ ranked. ground (arith, iff.1 ranked)),
      )

  -- A dependency is added exactly if the two tasks differ and exist, the row is not there yet, and the
  -- rows with the new one have no cycle; the store then has the new row at its end. The order in which a
  -- set is iterated over may be any that loses and repeats nothing.
  pub add_dependency_accepts_iff :
      (new_id blocker_id blocked_id : ℕ) (store : Store)
      → (add_dependency set_order new_id blocker_id blocked_id store
          ≡ ok (added new_id blocker_id blocked_id store))
        ↔ ((blocker_id ≢ blocked_id)
            × (is_found (get_task blocker_id store.tasks) ≡ true)
            × (is_found (get_task blocked_id store.tasks) ≡ true)
            × (any (same_edge blocker_id blocked_id) store.dependencies ≡ false)
            × IsAcyclic (edges_of store.dependencies ++ (blocker_id, blocked_id) ∷ []))
  unfolding add_dependency
  add_dependency_accepts_iff new_id blocker_id blocked_id store =
      let (found, returned, iff) =
        would_create_cycle_lem blocker_id blocked_id store.dependencies in
      (
        λ h. (
          ground (arith, ==_iff blocker_id blocked_id),
          ground arith,
          ground arith,
          ground arith,
          iff.0 (ground (arith, returned)),
        ),
        λ (differ, has_blocker, has_blocked, fresh, ranked).
            ground (arith, ==_iff blocker_id blocked_id, returned, iff.1 ranked),
      )
