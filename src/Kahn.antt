-- ===== src/Kahn.antt =====
-- Kahn's algorithm, which the backend writes three times: `validate_dag` in
-- backend/app/workflow/dag.py, `ProcessDefinition._validate_dag` in
-- backend/app/workflow/definition.py and `_would_create_cycle` in
-- backend/app/workflow/task_subdeps.py. The loop is generic in the keys and in what `visited` keeps:
-- the list of the nodes in dag.py, their number in the other two.
-- Dictionaries are functions with an update; a `defaultdict` is one with its default everywhere.
pub mod Degrees
pub mod Relax
pub mod Invariant
pub mod Order
pub mod Loop
pub mod Rank
pub mod Counter
use apex_ai.Prelude.{
  nat_eq, ℕ, zero, suc, ◌+◌, ◌-◌, Bool, true, false, List, [], ◌∷◌, ◌++◌, Option, none, some, Eq,
  ◌==◌, if◌then◌else◌, filter, length,
}

module _ {ℓ} {A : Type ℓ} ⦃e : Eq A⦄ where
  -- `d[k] = v`
  abbrev pub update {κ} : {V : Type κ} → (A → V) → A → V → A → V
  update d k v j = if k == j then v else d j

  -- The two dictionaries before the loop: `in_degree[to] += 1; adjacency[from].append(to)`.
  unfoldable pub in_degrees : (A → ℕ) → List (A × A) → A → ℕ
  in_degrees d [] = d
  in_degrees d ((src, dst) ∷ es) = in_degrees (update d dst (d dst + 1)) es

  unfoldable pub adjacency : (A → List A) → List (A × A) → A → List A
  adjacency adj [] = adj
  adjacency adj ((src, dst) ∷ es) = adjacency (update adj src (adj src ++ dst ∷ [])) es

  -- `for nxt in adjacency[node]: in_degree[nxt] -= 1; if in_degree[nxt] == 0: queue.append(nxt)`.
  -- The subtraction is exact: `Kahn.Relax` shows that no degree is 0 when it is decremented.
  unfoldable pub relax : List A → (A → ℕ) → List A → (A → ℕ) × List A
  relax [] deg queue = (deg, queue)
  relax (nxt ∷ ts) deg queue =
      let d = deg nxt - 1 in
      relax ts (update deg nxt d) (if d == 0 then queue ++ nxt ∷ [] else queue)

  -- The `while queue` loop, on fuel: `none` is for fuel that ran out.
  unfoldable pub drain {κ} :
      {V : Type κ} → (V → A → V) → (A → List A) → ℕ → (A → ℕ) → List A → V → Option ((A → ℕ) × V)
  drain visit adj fuel deg [] visited = some (deg, visited)
  drain visit adj zero deg (node ∷ queue) visited = none
  drain visit adj (suc fuel) deg (node ∷ queue) visited =
      let (deg', queue') = relax (adj node) deg queue in
      drain visit adj fuel deg' queue' (visit visited node)

  -- The whole algorithm over `nodes`, from the dictionaries to the end of the loop.
  unfoldable pub kahn {κ} :
      {V : Type κ} → (V → A → V) → V → ℕ → List A → List (A × A) → Option ((A → ℕ) × V)
  unfolding in_degrees adjacency relax drain
  kahn visit start fuel nodes edges =
      let deg = in_degrees (λ _. 0) edges in
      drain visit (adjacency (λ _. []) edges) fuel deg (filter (λ n. deg n == 0) nodes) start

  -- `visited_order.append(node)`
  abbrev pub visit_list : List A → A → List A
  visit_list visited node = visited ++ node ∷ []

  -- `visited += 1`
  abbrev pub visit_count : ℕ → A → ℕ
  visit_count visited node = visited + 1
