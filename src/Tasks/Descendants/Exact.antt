-- ===== src/Tasks/Descendants/Exact.antt =====
-- The descendants of a task are exactly the tasks below it.
use apex_ai.Prelude.{
  ℕ, suc, ◌≡◌, ◌≢◌, ◌↔◌, ◌∙◌, refl, sym, ap, inl, inr, Bool, true, false, not, ◌&&◌, ◌||◌, some,
  List, [], ◌∷◌, map, ◌==◌, ==_iff, nat_eq, filter, any, contains, length, length-filter-le,
  Bool-cases, filter_none, arith,
}
use mathlib.Core.Path.{subst}
use apex_ai.Tasks.{Task}
use apex_ai.Tasks.Descendants.{
  id_of, rounds, has_task_id, descendants, get_descendants, would_create_subtask_cycle,
}
use apex_ai.Tasks.Descendants.Reach.{
  Descends, here, child, contains_ids, ids_contain, AllDescend, rounds-AllDescend,
}
use apex_ai.Tasks.Descendants.Closure.{rounds-IsClosed, rounds-found, Descends-found}

any_ids : (a : ℕ) (xs : List Task) → any (has_task_id a) xs ≡ contains (map id_of xs) a
any_ids a [] = refl
any_ids a (x ∷ xs) = ap (λ b. x.id == a || b) (any_ids a xs)

any_found :
    (a : ℕ) (xs : List Task)
    → any (has_task_id a) xs ≡ true
    → contains (map id_of (filter (has_task_id a) xs)) a ≡ true
any_found a [] h = cc
any_found a (x ∷ xs) h = elim (Bool-cases (has_task_id a x)) [
  | inl hit ↦ rw (hit, hit)
  | inr miss ↦ rw miss (any_found a xs (rw (miss) at h))
]

contains_others :
    (root_id a : ℕ) (ids : List ℕ)
    → contains (filter (λ id. not (id == root_id)) ids) a ≡ (contains ids a && not (a == root_id))
contains_others root_id a [] = refl
contains_others root_id a (x ∷ ids) =
    ground (arith, contains_others root_id a ids, ==_iff x a, ==_iff x root_id, ==_iff a root_id)

module _ (tasks : List Task) (root_id : ℕ) where
  abbrev roots : List ℕ
  roots = map id_of (filter (has_task_id root_id) tasks)

  roots-AllDescend : AllDescend tasks root_id roots
  roots-AllDescend a e =
      let (t, m, p, own) = ids_contain (has_task_id root_id) tasks a e in
      let same : root_id ≡ a = sym ((==_iff t.id root_id).0 p) ∙ own in
      subst (Descends tasks root_id) same here

  roots_found : any (has_task_id root_id) tasks ≡ true → contains roots root_id ≡ true
  roots_found = any_found root_id tasks

  descendants-AllDescend : AllDescend tasks root_id (descendants root_id tasks)
  unfolding descendants
  descendants-AllDescend =
      rounds-AllDescend tasks root_id (suc (length tasks)) roots roots roots-AllDescend
        roots-AllDescend

  descendants_complete :
      {a : ℕ}
      → any (has_task_id root_id) tasks ≡ true
      → Descends tasks root_id a
      → contains (descendants root_id tasks) a ≡ true
  unfolding descendants
  descendants_complete h below =
      let closed =
        rounds-IsClosed tasks (suc (length tasks)) roots roots (λ t m e. inl e)
          (omega (arith, length-filter-le (λ (t : Task). not (contains roots t.id)) tasks)) in
      let known = rounds-found tasks (suc (length tasks)) roots roots root_id (roots_found h) in
      Descends-found tasks root_id (rounds (suc (length tasks)) tasks roots roots) closed known
        below

  descendants_of_none :
      any (has_task_id root_id) tasks ≡ false
      → (a : ℕ) → contains (descendants root_id tasks) a ≡ false
  unfolding descendants rounds
  descendants_of_none h a = rw (filter_none (has_task_id root_id) tasks h)

  is_below : Task → Bool
  is_below t = contains (filter (λ id. not (id == root_id)) (descendants root_id tasks)) t.id

  found_below :
      (a : ℕ)
      → any (has_task_id a) (filter is_below tasks) ≡ true
      → (any (has_task_id root_id) tasks ≡ true) × Descends tasks root_id a × (a ≢ root_id)
  unfolding is_below
  found_below a h =
      let (t, m, p, own) =
        ids_contain is_below tasks a (sym (any_ids a (filter is_below tasks)) ∙ h) in
      let both : (contains (descendants root_id tasks) a && not (a == root_id)) ≡ true =
        sym (contains_others root_id a (descendants root_id tasks))
        ∙ subst
            (λ (n : ℕ).
              contains (filter (λ id. not (id == root_id)) (descendants root_id tasks)) n ≡ true)
            own p in
      elim (Bool-cases (any (has_task_id root_id) tasks)) [
        | inr no_row ↦ let e = descendants_of_none no_row a in ground arith
        | inl row ↦
            (row, descendants-AllDescend a (ground arith), λ e. ground (arith, ==_iff a root_id))
      ]

  below_found :
      {a : ℕ}
      → any (has_task_id root_id) tasks ≡ true
      → Descends tasks root_id a
      → a ≢ root_id
      → any (has_task_id a) (filter is_below tasks) ≡ true
  unfolding is_below
  below_found row here other = absurd (other refl)
  below_found {a} row (child t m own up below) other =
      let hit : contains (descendants root_id tasks) a ≡ true =
        descendants_complete row (child t m own up below) in
      let p : is_below t ≡ true = rw own (
        contains_others root_id a (descendants root_id tasks) ∙ ground (arith, ==_iff a root_id)) in
      any_ids a (filter is_below tasks)
      ∙ subst (λ (n : ℕ). contains (map id_of (filter is_below tasks)) n ≡ true) own
          (contains_ids is_below tasks t m p)

-- A row of a task is returned exactly if the root has a row, the task is below it, and it is not the root.
get_descendants_iff :
    (tasks : List Task) (root_id id : ℕ)
    → (any (has_task_id id) (get_descendants root_id tasks) ≡ true)
      ↔ ((any (has_task_id root_id) tasks ≡ true) × Descends tasks root_id id × (id ≢ root_id))
unfolding get_descendants is_below
get_descendants_iff tasks root_id id =
    (λ h. found_below tasks root_id id h, λ h. below_found tasks root_id h.0 h.1 h.2)

-- To put a task under a parent is called a cycle exactly if the task has a row, the parent is below it by any
-- number of steps of `parent_id`, and the two differ. The rounds of the query are enough, also where the rows
-- already form a cycle.
pub would_create_subtask_cycle_iff :
    (tasks : List Task) (parent_id new_child_id : ℕ)
    → (would_create_subtask_cycle parent_id (some new_child_id) tasks ≡ true) ↔ (
        (any (has_task_id new_child_id) tasks ≡ true)
        × Descends tasks new_child_id parent_id
        × (parent_id ≢ new_child_id))
unfolding would_create_subtask_cycle
would_create_subtask_cycle_iff tasks parent_id new_child_id =
    get_descendants_iff tasks new_child_id parent_id
