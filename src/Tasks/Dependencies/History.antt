-- ===== src/Tasks/Dependencies/History.antt =====
-- What holds of the dependencies after any sequence of calls.
use apex_ai.Prelude.{
  ℕ, ◌+◌, ◌≤◌, ◌≡◌, ◌↔◌, refl, ap, Bool, true, false, not, ◌&&◌, ◌||◌, List, [], ◌∷◌, ◌++◌, map,
  nat_eq, ==_iff, if◌then◌else◌, any, filter, count, Result, ok, err, Result-cases, inl, inr, arith,
}
use apex_ai.Kahn.Degrees.{edge_count}
use apex_ai.Tasks.{Task, TaskDependency, Store}
use apex_ai.Tasks.Dependencies.{
  DependencyError, edges_of, same_edge, add_dependency, remove_dependency, get_blockers,
  is_task_blocked, is_open,
}
use apex_ai.Tasks.Dependencies.Cycles.{IsAcyclic, added, add_dependency_accepts_iff}

pub data DependencyCall : Type 0 where
  adds : (new_id blocker_id blocked_id : ℕ) → DependencyCall
  removes : (blocker_id blocked_id : ℕ) → DependencyCall

abbrev kept_or : Store → Result DependencyError Store → Store
kept_or store (ok store') = store'
kept_or store (err e) = store

-- The store after calls of `add_dependency` and `remove_dependency`; a refused call changes nothing.
abbrev pub run_calls : (List ℕ → List ℕ) → Store → List DependencyCall → Store
run_calls set_order store [] = store
run_calls set_order store (adds new_id blocker_id blocked_id ∷ calls) =
    run_calls set_order
      (kept_or store (add_dependency set_order new_id blocker_id blocked_id store)) calls
run_calls set_order store (removes blocker_id blocked_id ∷ calls) =
    run_calls set_order (remove_dependency blocker_id blocked_id store).0 calls

-- The rows form a graph without cycles and without a repeated row.
pub record IsSound (rows : List TaskDependency) : Type 0 where
  pub acyclic : IsAcyclic (edges_of rows)
  pub once : (u v : ℕ) → edge_count (edges_of rows) u v ≤ 1

any-edge_count :
    (rows : List TaskDependency) (u v : ℕ)
    → (any (same_edge u v) rows ≡ false) ↔ (edge_count (edges_of rows) u v ≡ 0)
any-edge_count [] u v = (λ h. refl, λ h. refl)
any-edge_count (d ∷ rows) u v = ground (arith, any-edge_count rows u v)

edge_count-snoc :
    (rows : List TaskDependency) (d : TaskDependency) (u v : ℕ)
    → edge_count (edges_of (rows ++ d ∷ [])) u v
      ≡ edge_count (edges_of rows) u v + (if same_edge u v d then 1 else 0)
edge_count-snoc [] d u v = omega arith
edge_count-snoc (r ∷ rows) d u v = omega (arith, edge_count-snoc rows d u v)

edges_of-snoc :
    (rows : List TaskDependency) (d : TaskDependency)
    → edges_of (rows ++ d ∷ []) ≡ edges_of rows ++ (d.blocker_id, d.blocked_id) ∷ []
edges_of-snoc [] d = refl
edges_of-snoc (r ∷ rows) d = ap (λ t. (r.blocker_id, r.blocked_id) ∷ t) (edges_of-snoc rows d)

edge_count-filter :
    (p : TaskDependency → Bool) (rows : List TaskDependency) (u v : ℕ)
    → edge_count (edges_of (filter p rows)) u v ≤ edge_count (edges_of rows) u v
edge_count-filter p [] u v = omega arith
edge_count-filter p (r ∷ rows) u v = ground (arith, edge_count-filter p rows u v)

module _ (set_order : List ℕ → List ℕ)
    (same : (xs : List ℕ) (n : ℕ) → count n (set_order xs) ≡ count n xs) where
  -- A call that returns has added the row.
  add_dependency-added :
      (new_id blocker_id blocked_id : ℕ) (store : Store) {store' : Store}
      → add_dependency set_order new_id blocker_id blocked_id store ≡ ok store'
      → added new_id blocker_id blocked_id store ≡ store'
  unfolding add_dependency
  add_dependency-added new_id blocker_id blocked_id store h = ground arith

  add_dependency-IsSound :
      (new_id blocker_id blocked_id : ℕ) (store : Store)
      → IsSound store.dependencies
      → IsSound
          (kept_or store (add_dependency set_order new_id blocker_id blocked_id store)).dependencies
  add_dependency-IsSound new_id blocker_id blocked_id store sound =
      elim (Result-cases (add_dependency set_order new_id blocker_id blocked_id store)) [
        | inl (store', h) ↦
            let e = add_dependency-added new_id blocker_id blocked_id store h in
            let (differ, has_blocker, has_blocked, fresh, ranked) =
              (add_dependency_accepts_iff set_order same new_id blocker_id blocked_id store).0
                (rw (h, e) refl) in
            let d : TaskDependency = record {
              id = new_id;
              blocker_id = blocker_id;
              blocked_id = blocked_id;
            } in
            rw (h, ← e)
              (record {
                acyclic = rw (edges_of-snoc store.dependencies d) ranked;
                once = λ u v. ground (
                  arith,
                  edge_count-snoc store.dependencies d u v,
                  sound.once u v,
                  any-edge_count store.dependencies blocker_id blocked_id,
                  ==_iff blocker_id u,
                  ==_iff blocked_id v,
                );
              })
        | inr (e, h) ↦ rw h sound
      ]

  -- Whatever calls are made, the rows never get a cycle or a repeated row, if they had none before. The
  -- order in which a set is iterated over may be any that loses and repeats nothing.
  pub run_calls-IsSound :
      (calls : List DependencyCall) (store : Store)
      → IsSound store.dependencies
      → IsSound (run_calls set_order store calls).dependencies
  unfolding remove_dependency
  run_calls-IsSound [] store sound = sound
  run_calls-IsSound (adds new_id blocker_id blocked_id ∷ calls) store sound =
      run_calls-IsSound calls
        (kept_or store (add_dependency set_order new_id blocker_id blocked_id store))
        (add_dependency-IsSound new_id blocker_id blocked_id store sound)
  run_calls-IsSound (removes blocker_id blocked_id ∷ calls) store sound =
      let (rank, grows) = sound.acyclic in
      let fewer =
        edge_count-filter (λ d. not (same_edge blocker_id blocked_id d)) store.dependencies in
      run_calls-IsSound calls (remove_dependency blocker_id blocked_id store).0 (record {
        acyclic = (rank, λ u v p. grows u v (omega (arith, fewer u v)));
        once = λ u v. omega (arith, fewer u v, sound.once u v);
      })

-- A task may start: each task that blocks it is done or cancelled.
abbrev pub IsFree : ℕ → List TaskDependency → List Task → Type 0
IsFree task_id rows [] = Unit
IsFree task_id rows (t ∷ ts) =
    (is_open t.status ≡ true → edge_count (edges_of rows) t.id task_id ≡ 0) × IsFree task_id rows ts

any-map_const :
    (t : Task) (rows : List TaskDependency) (others : List Task) (u v : ℕ)
    → any (λ b. is_open b.status) (map (λ d. t) (filter (λ d. same_edge u v d) rows) ++ others)
      ≡ ((is_open t.status && any (same_edge u v) rows) || any (λ b. is_open b.status) others)
any-map_const t [] others u v = ground arith
any-map_const t (d ∷ rows) others u v = ground (arith, any-map_const t rows others u v)

get_blockers_iff :
    (task_id : ℕ) (rows : List TaskDependency) (ts : List Task)
    → (any (λ b. is_open b.status) (get_blockers task_id rows ts) ≡ false) ↔ IsFree task_id rows ts
unfolding get_blockers
get_blockers_iff task_id rows [] = (λ h. tt, λ h. refl)
get_blockers_iff task_id rows (t ∷ ts) =
    let ih = get_blockers_iff task_id rows ts in
    let split = any-map_const t rows (get_blockers task_id rows ts) t.id task_id in
    let edges = any-edge_count rows t.id task_id in
    (
      λ h. (λ opened. ground (arith, split, edges), ih.0 (ground (arith, split))),
      λ (free, rest). ground (arith, split, edges, ih.1 rest),
    )

-- A task is not blocked exactly if no open task has a dependency that blocks it.
is_task_blocked_iff :
    (task_id : ℕ) (store : Store)
    → (is_task_blocked task_id store ≡ false) ↔ IsFree task_id store.dependencies store.tasks
unfolding is_task_blocked
is_task_blocked_iff task_id store = get_blockers_iff task_id store.dependencies store.tasks
