-- ===== src/Workflow/Dag/Correct.antt =====
-- `validate_dag` accepts exactly the definitions that pass its checks and have no cycle.
use apex_ai.Prelude.{
  ℕ, ◌<◌, ◌≡◌, ◌≢◌, ◌↔◌, sym, ◌∙◌, ap, false, false≢true, List, [], map, String, string_eq, nat_eq,
  filter, if◌then◌else◌, some, length, count, count-filter, ok, err, Result-cases, inl, inr, ltb,
  arith,
}
use apex_ai.Kahn.{kahn, visit_list}
use apex_ai.Kahn.Degrees.{edge_count}
use apex_ai.Kahn.Invariant.{IsGraph}
use apex_ai.Kahn.Order.{IsTopological, position}
use apex_ai.Kahn.Loop.{kahn-Ends}
use apex_ai.Kahn.Rank.{IsRanking, length-order_of_ranking, order-IsTopological, stuck_source}
use apex_ai.Workflow.Dag.{
  RawDefinition, ValidDag, DagValidationError, cycle, out_of_fuel, check_names, check_edges,
  conclude, validate_dag,
}
use apex_ai.Workflow.Dag.Checks.{
  IsDistinct, AllEdges, AllNamed, edge_pair, step_names, checked-IsGraph, check_names-eq-ok,
  is_check_error, check_names-IsDistinct, check_names_of_IsDistinct, check_edges-eq-ok,
  check_edges_of_AllEdges, check_names-is_check_error, check_edges-is_check_error,
}

module _ (strip : String → String) (d : RawDefinition) where
  abbrev names : List String
  names = step_names strip d.steps

  -- The pairs that the edges stand for.
  abbrev pub pairs : List (String × String)
  pairs = map edge_pair d.edges

  -- What the two checking loops ask for.
  pub record IsChecked : Type 0 where
    pub named : AllNamed strip d.steps
    pub distinct : IsDistinct (step_names strip d.steps)
    pub edges : AllEdges (step_names strip d.steps) d.edges

  pub checked_graph : IsChecked → IsGraph (step_names strip d.steps) pairs
  checked_graph c = checked-IsGraph names d.edges c.distinct c.edges

  module _ (sorted : List String → List String) where
    -- With the checks passed, what is left is the end of the loop.
    pub validate_dag_of_IsChecked :
        IsChecked
        → validate_dag strip sorted d
          ≡ conclude sorted d.steps (step_names strip d.steps) pairs (
              kahn visit_list []
                (length (step_names strip d.steps))
                (step_names strip d.steps)
                pairs)
    unfolding validate_dag
    validate_dag_of_IsChecked c =
        rw (check_names_of_IsDistinct strip [] d.steps c.distinct c.named)
          (rw (check_edges_of_AllEdges names d.edges c.edges))

    checked_of_results :
        {ns : List String} {ps : List (String × String)}
        → check_names strip [] d.steps ≡ ok ns
        → check_edges ns d.edges ≡ ok ps
        → IsChecked
    checked_of_results {ns} hn he =
        let (e, named) = check_names-eq-ok strip [] d.steps hn in
        let distinct = check_names-IsDistinct strip [] d.steps (λ n. omega arith) hn in
        let (e', good) = check_edges-eq-ok ns d.edges he in
        record { named = named; distinct = rw e at distinct; edges = rw e at good }

    -- A result that no check raises was reached with the checks passed.
    pub checked_of_result :
        ((x : DagValidationError) → validate_dag strip sorted d ≡ err x → is_check_error x ≡ false)
        → IsChecked
    unfolding validate_dag
    checked_of_result h = elim (Result-cases (check_names strip [] d.steps)) [
      | inl (ns, e1) ↦ elim (Result-cases (check_edges ns d.edges)) [
        | inl (ps, e2) ↦ checked_of_results e1 e2
        | inr (x, e2) ↦
            let raised : is_check_error x ≡ false = h x (rw e1 (rw e2)) in
            absurd (false≢true (sym raised ∙ check_edges-is_check_error ns d.edges e2))
      ]
      | inr (x, e1) ↦
          let raised : is_check_error x ≡ false = h x (rw e1) in
          absurd (false≢true (sym raised ∙ check_names-is_check_error strip [] d.steps e1))
    ]

    -- The end of the function once the checks have passed: no cycle, or the nodes left over.
    ending :
        (c : IsChecked)
        → let ends = kahn-Ends names pairs (checked_graph c) in
          validate_dag strip sorted d
          ≡ conclude sorted d.steps names pairs (some (ends.deg, ends.order))
    ending c =
        let ends = kahn-Ends names pairs (checked_graph c) in
        validate_dag_of_IsChecked c ∙ ap (conclude sorted d.steps names pairs) ends.returned

    all_visited_of_ok :
        (c : IsChecked) {v : ValidDag}
        → validate_dag strip sorted d ≡ ok v
        → let ends = kahn-Ends names pairs (checked_graph c) in
          (length ends.order ≡ length names)
          × (v ≡ record { steps = d.steps; edges = pairs; topological_order = ends.order })
    unfolding conclude
    all_visited_of_ok c h = ground (arith, ending c)

module _ (strip : String → String) (sorted : List String → List String) (d : RawDefinition) where
  -- An accepted definition comes back with its steps, with the pairs of its edges, and with a
  -- topological order: every step name, as often as the steps have it, and every edge going forward.
  pub validate_dag-IsTopological :
      {v : ValidDag}
      → validate_dag strip sorted d ≡ ok v
      → (v.steps ≡ d.steps)
        × (v.edges ≡ pairs strip d)
        × IsTopological (step_names strip d.steps) v.edges v.topological_order
  validate_dag-IsTopological {v} h =
      let c = checked_of_result strip d sorted (λ x h'. ground arith) in
      let ends = kahn-Ends (names strip d) (pairs strip d) (checked_graph strip d c) in
      let (all, e) = all_visited_of_ok strip d sorted c h in
      let top =
        order-IsTopological (names strip d) (pairs strip d) (checked_graph strip d c) ends.deg
          ends.order ends.inv ends.ordered all in
      (cc, cc, rw e top)

  -- A definition is accepted exactly if its step names are non-empty and distinct, its edges join
  -- two different steps of it, and its edges can be ranked, which a cycle excludes.
  pub validate_dag_accepts_iff :
      ((v : ValidDag) × (validate_dag strip sorted d ≡ ok v))
      ↔ (IsChecked strip d × ((rank : String → ℕ) × IsRanking (pairs strip d) rank))
  unfolding conclude
  validate_dag_accepts_iff = (
    λ (v, h).
        let (e1, e2, top) = validate_dag-IsTopological h in
        (
          checked_of_result strip d sorted (λ x h'. ground arith),
          (λ n. position n v.topological_order, rw e2 at top.before),
        ),
    λ (c, (rank, grows)).
        let g = checked_graph strip d c in
        let ends = kahn-Ends (names strip d) (pairs strip d) g in
        let all =
          length-order_of_ranking (names strip d) (pairs strip d) g ends.deg ends.order ends.inv
            rank grows in
        (
          record { steps = d.steps; edges = pairs strip d; topological_order = ends.order },
          ground (arith, ending strip d sorted c, all),
        ),
  )

  -- The loop needs no more rounds than there are steps.
  validate_dag-ne-out_of_fuel : validate_dag strip sorted d ≢ err out_of_fuel
  unfolding conclude
  validate_dag-ne-out_of_fuel h =
      let c = checked_of_result strip d sorted (λ x h'. ground arith) in
      ground (arith, ending strip d sorted c)

  left_over :
      (deg : String → ℕ) (order : List String) (n : String)
      → ((m : String) (l : List String) → count m (sorted l) ≡ count m l)
      → {ns : List String}
      → conclude sorted d.steps (names strip d) (pairs strip d) (some (deg, order)) ≡ err (cycle ns)
      → count n ns ≡ (if ltb 0 (deg n) then count n (names strip d) else 0)
  unfolding conclude
  left_over deg order n s {ns} h =
      let l = filter (λ m. ltb 0 (deg m)) (names strip d) in
      let e : ns ≡ sorted l = ground arith in
      rw e (s n l ∙ count-filter (λ m. ltb 0 (deg m)) n (names strip d))

  -- The error for a cycle is raised only where no ranking exists, and each step that it names has an
  -- incoming edge from a step that it names. `sorted` only reorders.
  validate_dag-cycle :
      ((n : String) (l : List String) → count n (sorted l) ≡ count n l)
      → {ns : List String} → validate_dag strip sorted d ≡ err (cycle ns)
      → ¬ ((rank : String → ℕ) × IsRanking (pairs strip d) rank)
        × ((n : String)
            → 0 < count n ns
            → (u : String) × (0 < edge_count (pairs strip d) u n) × (0 < count u ns))
  unfolding conclude
  validate_dag-cycle s {ns} h =
      let c = checked_of_result strip d sorted (λ x h'. ground arith) in
      let g = checked_graph strip d c in
      let ends = kahn-Ends (names strip d) (pairs strip d) g in
      let reported : (n : String)
          → count n ns ≡ (if ltb 0 (ends.deg n) then count n (names strip d) else 0) =
        λ n. left_over ends.deg ends.order n s (sym (ending strip d sorted c) ∙ h) in
      (
        λ r. let (v, e) = validate_dag_accepts_iff.1 (c, r) in cc,
        λ n p.
            let (u, edge, known, left) =
              stuck_source (names strip d) (pairs strip d) g ends.deg ends.order ends.inv n
                (ground (arith, reported n)) in
            (u, edge, ground (arith, reported u)),
      )
