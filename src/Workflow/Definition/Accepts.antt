-- ===== src/Workflow/Definition/Accepts.antt =====
-- `_validate_dag` accepts exactly the definitions without duplicates, dangling edges and cycles.
use apex_ai.Prelude.{
  ℕ, zero, suc, ◌≤◌, ◌<◌, ◌≡◌, ◌≢◌, ◌↔◌, refl, ap, ◌∙◌, Bool, true, not, List, [], ◌∷◌, map, some,
  String, string_eq, nat_eq, ◌==◌, ==_iff, ==_refl, if◌then◌else◌, nat_beq, filter, length,
  length-filter-le, contains, contains-count, count, count-filter, count_head, ok, Bool-cases,
  arith, inl, inr,
}
use apex_ai.Kahn.{kahn, visit_count}
use apex_ai.Kahn.Degrees.{edge_count}
use apex_ai.Kahn.Invariant.{IsGraph}
use apex_ai.Kahn.Rank.{IsRanking}
use apex_ai.Kahn.Counter.{kahn_count_lem}
use apex_ai.Workflow.Definition.{
  StepDef, EdgeDef, ProcessDefinition, to_set, def_names, def_pairs, known_edges, check_visited,
  validate_definition, root_steps, downstream, upstream,
}

abbrev pub IsDistinct : List String → Type 0
IsDistinct names = (n : String) → count n names ≤ 1

abbrev pub AllKnown : List String → List EdgeDef → Type 0
AllKnown names [] = Unit
AllKnown names (edge ∷ es) =
    (contains names edge.from_ ≡ true) × (contains names edge.to ≡ true) × AllKnown names es

-- A set holds what the list holds, once.
count-to_set :
    (n : String) (xs : List String) → count n (to_set xs) ≡ (if contains xs n then 1 else 0)
unfolding to_set
count-to_set n [] = refl
count-to_set n (x ∷ xs) =
    ground (arith, ==_iff x n, count-filter (λ y. not (x == y)) n (to_set xs), count-to_set n xs)

length-to_set_le : (xs : List String) → length (to_set xs) ≤ length xs
unfolding to_set
length-to_set_le [] = omega arith
length-to_set_le (x ∷ xs) =
    omega (arith, length-filter-le (λ y. not (x == y)) (to_set xs), length-to_set_le xs)

filter_all :
    (p : String → Bool) (xs : List String) → length xs ≤ length (filter p xs) → filter p xs ≡ xs
filter_all p [] h = refl
filter_all p (x ∷ xs) h = ground (arith, length-filter-le p xs, filter_all p xs)

-- A set as long as its list is the list, which has no duplicates.
to_set_full : (xs : List String) → length (to_set xs) ≡ length xs → to_set xs ≡ xs
unfolding to_set
to_set_full [] h = refl
to_set_full (x ∷ xs) h =
    let l = length-filter-le (λ y. not (x == y)) (to_set xs) in
    let e = to_set_full xs (omega (arith, l, length-to_set_le xs)) in
    let f = filter_all (λ y. not (x == y)) (to_set xs) (omega (arith, length-to_set_le xs)) in
    ap (λ t. x ∷ t) (f ∙ e)

filter_none : (x : String) (xs : List String) → count x xs ≡ 0 → filter (λ y. not (x == y)) xs ≡ xs
filter_none x [] h = refl
filter_none x (y ∷ xs) h = ground (arith, ==_iff x y, ==_iff y x, filter_none x xs)

to_set_distinct : (xs : List String) → IsDistinct xs → to_set xs ≡ xs
unfolding to_set
to_set_distinct [] d = refl
to_set_distinct (x ∷ xs) d =
    let e = to_set_distinct xs (λ n. ground (arith, d n)) in
    rw e (ap (λ t. x ∷ t) (filter_none x xs (omega (arith, d x, count_head x xs))))

to_set-IsDistinct : (xs : List String) → length (to_set xs) ≡ length xs → IsDistinct xs
to_set-IsDistinct xs h n = let e = to_set_full xs h in rw (← e) (ground (arith, count-to_set n xs))

known_edges_iff :
    (names : List String) (es : List EdgeDef) → (known_edges names es ≡ ok tt) ↔ AllKnown names es
unfolding known_edges
known_edges_iff names [] = (λ h. tt, λ h. refl)
known_edges_iff names (edge ∷ es) =
    let ih = known_edges_iff names es in
    (
      λ h. (ground arith, ground arith, ih.0 (ground arith)),
      λ (src, dst, rest). rw (src, dst) (ih.1 rest),
    )

edge_known :
    (names : List String) (es : List EdgeDef) (u v : String)
    → AllKnown names es
    → 0 < edge_count (def_pairs es) u v
    → (0 < count u names) × (0 < count v names)
edge_known names [] u v h p = absurd (omega arith)
edge_known names (edge ∷ es) u v h p = ground (
  arith,
  ==_iff edge.from_ u,
  ==_iff edge.to v,
  contains-count u names,
  contains-count v names,
  edge_known names es u v h.2,
)

pub known-IsGraph :
    (names : List String) (es : List EdgeDef)
    → IsDistinct names
    → AllKnown names es
    → IsGraph names (def_pairs es)
known-IsGraph names es d h = record {
  distinct = d;
  closed = λ u v p. let k = edge_known names es u v h p in (omega (arith, d u), omega (arith, d v));
}

-- What the three checks of the validator see, each on its own.
passes :
    (p : ProcessDefinition)
    → validate_definition p ≡ ok p
    → let names = to_set (def_names p.steps) in
      (length names ≡ length p.steps)
      × (known_edges names p.edges ≡ ok tt)
      × (check_visited names (kahn visit_count 0 (length names) names (def_pairs p.edges)) ≡ ok tt)
unfolding validate_definition
passes p h = ground arith

accepts_of :
    (p : ProcessDefinition)
    → let names = to_set (def_names p.steps) in
      length names ≡ length p.steps
      → known_edges names p.edges ≡ ok tt
      → check_visited names (kahn visit_count 0 (length names) names (def_pairs p.edges)) ≡ ok tt
      → validate_definition p ≡ ok p
unfolding validate_definition
accepts_of p full known visited = ground arith

check_visited_iff :
    (names : List String) (deg : String → ℕ) (visited : ℕ)
    → (check_visited names (some (deg, visited)) ≡ ok tt) ↔ (visited ≡ length names)
unfolding check_visited
check_visited_iff names deg visited = ground arith

length-def_names : (steps : List StepDef) → length (def_names steps) ≡ length steps
length-def_names [] = refl
length-def_names (s ∷ steps) = ap suc (length-def_names steps)

module _ (p : ProcessDefinition) where
  abbrev names : List String
  names = def_names p.steps

  -- The validator accepts exactly the definitions whose step names are distinct, whose edges join steps
  -- of the definition, and whose edges can be ranked, which a cycle and a self-loop exclude.
  pub validate_definition_accepts_iff : (validate_definition p ≡ ok p) ↔ (
      IsDistinct (def_names p.steps)
      × AllKnown (def_names p.steps) p.edges
      × ((rank : String → ℕ) × IsRanking (def_pairs p.edges) rank))
  validate_definition_accepts_iff = (
    λ h.
        let (full, known, visited) = passes p h in
        let long : length (to_set names) ≡ length names = omega (arith, length-def_names p.steps) in
        let e = to_set_full names long in
        let d = to_set-IsDistinct names long in
        let k = (known_edges_iff names p.edges).0 (rw e at known) in
        let (deg, n, run, all) =
          kahn_count_lem names (def_pairs p.edges) (known-IsGraph names p.edges d k) in
        let seen = rw run at (rw e at visited) in
        (d, k, all.0 ((check_visited_iff names deg n).0 seen)),
    λ (d, k, ranking).
        let e = to_set_distinct names d in
        let (deg, n, run, all) =
          kahn_count_lem names (def_pairs p.edges) (known-IsGraph names p.edges d k) in
        let known = (known_edges_iff names p.edges).1 k in
        let seen = (check_visited_iff names deg n).1 (all.1 ranking) in
        accepts_of p (rw e (length-def_names p.steps)) (rw e known) (rw e (rw run seen)),
  )

  no_step_below :
      (rank : String → ℕ)
      → IsRanking (def_pairs p.edges) rank
      → AllKnown (def_names p.steps) p.edges
      → ((n : String)
          → 0 < count n (def_names p.steps)
          → (u : String) × (0 < edge_count (def_pairs p.edges) u n))
      → (k : ℕ) (n : String) → rank n < k
      → count n (def_names p.steps) ≡ 0
  no_step_below rank r known into zero n b = absurd (omega arith)
  no_step_below rank r known into (suc k) n b = elim (Bool-cases (nat_beq 0 (count n names))) [
    | inl gone ↦ ground arith
    | inr here ↦
        let (u, edge) = into n (ground arith) in
        let u_gone = no_step_below rank r known into k u (omega (arith, r u n edge)) in
        absurd (omega (arith, (edge_known names p.edges u n known edge).0, u_gone))
  ]

  incoming_edge :
      (es : List EdgeDef) (n : String)
      → contains (map (λ (e : EdgeDef). e.to) es) n ≡ true
      → (u : String) × (0 < edge_count (def_pairs es) u n)
  incoming_edge [] n h = cc
  incoming_edge (edge ∷ es) n h = elim (Bool-cases (edge.to == n)) [
    | inl here ↦ (edge.from_, rw (here, ==_refl edge.from_) (omega arith))
    | inr past ↦ let (u, q) = incoming_edge es n (ground arith) in (u, omega (arith, q))
  ]

  no_root :
      (incoming : List String) (steps : List StepDef)
      → filter (λ s. not (contains incoming s.name)) steps ≡ []
      → (n : String) → 0 < count n (def_names steps)
      → contains incoming n ≡ true
  no_root incoming [] h n c = absurd (omega arith)
  no_root incoming (s ∷ steps) h n c =
      ground (arith, ==_iff s.name n, no_root incoming steps (ground arith) n)

  some_name : (steps : List StepDef) → steps ≢ [] → (n : String) × (0 < count n (def_names steps))
  some_name [] h = absurd (h refl)
  some_name (s ∷ steps) h = (s.name, omega (arith, count_head s.name (def_names steps)))

  -- An accepted definition, which has a step, has a step to start with.
  root_steps-ne-nil : validate_definition p ≡ ok p → p.steps ≢ [] → root_steps p ≢ []
  unfolding root_steps
  root_steps-ne-nil h some_step none_root =
      let (d, known, (rank, grows)) = validate_definition_accepts_iff.0 h in
      let gone = λ (n : String).
        no_step_below rank grows known
          (λ m c. incoming_edge p.edges m (no_root _ p.steps none_root m c)) (suc (rank n)) n
          (omega arith) in
      let (n, c) = some_name p.steps some_step in omega (arith, gone n)

downstream_edges :
    (es : List EdgeDef) (u v : String)
    → contains (map (λ (e : EdgeDef). e.to) (filter (λ e. e.from_ == u) es)) v
      ≡ contains (map (λ (e : EdgeDef). e.from_) (filter (λ e. e.to == v) es)) u
downstream_edges [] u v = refl
downstream_edges (edge ∷ es) u v =
    ground (arith, ==_iff edge.from_ u, ==_iff edge.to v, downstream_edges es u v)

-- A step is downstream of another exactly if the other is upstream of it.
downstream-upstream :
    (p : ProcessDefinition) (u v : String) → contains (downstream p u) v ≡ contains (upstream p v) u
unfolding downstream upstream
downstream-upstream p = downstream_edges p.edges
