-- ===== src/Workflow/Dag/Checks.antt =====
-- The two checking loops of dag.py against what they check.
use apex_ai.Prelude.{
  ◌≤◌, ◌<◌, ◌≡◌, refl, Bool, true, false, List, [], ◌∷◌, ◌++◌, map, String, string_eq, ◌==◌, ==_iff,
  count, count-append, count_head, contains, contains-count, not-contains, contains_of_count, ok,
  err, >>=-eq-ok, ◌∙◌, ap, arith,
}
use mathlib.Core.List.{append_assoc, append-nil}
use apex_ai.Kahn.Degrees.{edge_count}
use apex_ai.Kahn.Invariant.{IsGraph}
use apex_ai.Workflow.Dag.{
  RawStep, RawEdge, DagValidationError, truthy, text_or_empty, edge_src, step_name, check_names,
  check_edge, check_edges,
}

abbrev pub IsDistinct : List String → Type 0
IsDistinct names = (n : String) → count n names ≤ 1

-- The pair of names that an edge stands for.
abbrev pub edge_pair : RawEdge → String × String
edge_pair edge = (text_or_empty (edge_src edge), text_or_empty edge.to)

-- An edge with both ends, in the names, and no self-loop.
pub record IsEdge (names : List String) (edge : RawEdge) : Type 0 where
  pub has_src : truthy (edge_src edge) ≡ true
  pub has_dst : truthy edge.to ≡ true
  pub src_known : contains names (edge_pair edge).0 ≡ true
  pub dst_known : contains names (edge_pair edge).1 ≡ true
  pub no_loop : ((edge_pair edge).0 == (edge_pair edge).1) ≡ false

abbrev pub AllEdges : List String → List RawEdge → Type 0
AllEdges names [] = Unit
AllEdges names (edge ∷ es) = IsEdge names edge × AllEdges names es

check_edge-eq-ok :
    (names : List String) (edge : RawEdge) {p : String × String}
    → check_edge names edge ≡ ok p
    → (p ≡ edge_pair edge) × IsEdge names edge
unfolding check_edge
check_edge-eq-ok names edge h = ground arith

check_edge_of_IsEdge :
    (names : List String) (edge : RawEdge)
    → IsEdge names edge
    → check_edge names edge ≡ ok (edge_pair edge)
unfolding check_edge
check_edge_of_IsEdge names edge h = ground arith

-- The loop over the edges accepts exactly the lists of good edges, and returns their pairs.
pub check_edges-eq-ok :
    (names : List String) (es : List RawEdge) {ps : List (String × String)}
    → check_edges names es ≡ ok ps
    → (ps ≡ map edge_pair es) × AllEdges names es
unfolding check_edges
check_edges-eq-ok names [] h = (cc, tt)
check_edges-eq-ok names (edge ∷ es) h =
    let (p, first, h') = >>=-eq-ok (check_edge names edge) _ h in
    let (rest, others, last) = >>=-eq-ok (check_edges names es) _ h' in
    let (e1, good) = check_edge-eq-ok names edge first in
    let (e2, all_good) = check_edges-eq-ok names es others in (cc, (good, all_good))

pub check_edges_of_AllEdges :
    (names : List String) (es : List RawEdge)
    → AllEdges names es
    → check_edges names es ≡ ok (map edge_pair es)
unfolding check_edges
check_edges_of_AllEdges names [] h = refl
check_edges_of_AllEdges names (edge ∷ es) h =
    rw (check_edge_of_IsEdge names edge h.0) (rw (check_edges_of_AllEdges names es h.1))

edge_known :
    (names : List String) (es : List RawEdge) (u v : String)
    → AllEdges names es
    → 0 < edge_count (map edge_pair es) u v
    → (0 < count u names) × (0 < count v names)
edge_known names [] u v h p = absurd (omega arith)
edge_known names (edge ∷ es) u v h p = ground (
  arith,
  ==_iff (edge_pair edge).0 u,
  ==_iff (edge_pair edge).1 v,
  contains-count u names,
  contains-count v names,
  edge_known names es u v,
)

pub checked-IsGraph :
    (names : List String) (es : List RawEdge)
    → IsDistinct names
    → AllEdges names es
    → IsGraph names (map edge_pair es)
checked-IsGraph names es d h = record {
  distinct = d;
  closed = λ u v p. let k = edge_known names es u v h p in (omega (arith, d u), omega (arith, d v));
}

module _ (strip : String → String) where
  abbrev pub AllNamed : List RawStep → Type 0
  AllNamed [] = Unit
  AllNamed (step ∷ steps) = ((step_name strip step == "") ≡ false) × AllNamed steps

  unfoldable pub step_names : List RawStep → List String
  step_names = map (step_name strip)

  check_names_step :
      (seen : List String) (step : RawStep) (steps : List RawStep) {ns : List String}
      → check_names strip seen (step ∷ steps) ≡ ok ns
      → ((step_name strip step == "") ≡ false)
        × (contains seen (step_name strip step) ≡ false)
        × (check_names strip (seen ++ step_name strip step ∷ []) steps ≡ ok ns)
  unfolding check_names
  check_names_step seen step steps h = ground arith

  -- What `check_names` accepts: the names seen before, followed by the names of the steps.
  pub check_names-eq-ok :
      (seen : List String) (steps : List RawStep) {ns : List String}
      → check_names strip seen steps ≡ ok ns
      → (ns ≡ seen ++ step_names steps) × AllNamed steps
  unfolding check_names step_names
  check_names-eq-ok seen [] h = (rw append-nil (cc), tt)
  check_names-eq-ok seen (step ∷ steps) {ns} h =
      let (named, fresh, rest) = check_names_step seen step steps h in
      let (e, all_named) = check_names-eq-ok (seen ++ step_name strip step ∷ []) steps rest in
      (e ∙ append_assoc seen (step_name strip step ∷ []) (step_names steps), (named, all_named))

  snoc-IsDistinct :
      (seen : List String) (name : String)
      → IsDistinct seen
      → contains seen name ≡ false
      → IsDistinct (seen ++ name ∷ [])
  snoc-IsDistinct seen name d h n =
      ground (arith, ==_iff name n, d n, not-contains name seen, count-append n seen (name ∷ []))

  pub check_names-IsDistinct :
      (seen : List String) (steps : List RawStep) {ns : List String}
      → IsDistinct seen
      → check_names strip seen steps ≡ ok ns
      → IsDistinct ns
  unfolding check_names
  check_names-IsDistinct seen [] d h = λ n. ground (arith, d n)
  check_names-IsDistinct seen (step ∷ steps) d h =
      let (named, fresh, rest) = check_names_step seen step steps h in
      check_names-IsDistinct (seen ++ step_name strip step ∷ []) steps
        (snoc-IsDistinct seen (step_name strip step) d fresh) rest

  pub check_names_of_IsDistinct :
      (seen : List String) (steps : List RawStep)
      → IsDistinct (seen ++ step_names steps)
      → AllNamed steps
      → check_names strip seen steps ≡ ok (seen ++ step_names steps)
  unfolding check_names step_names
  check_names_of_IsDistinct seen [] d h = rw append-nil
  check_names_of_IsDistinct seen (step ∷ steps) d h =
      let name = step_name strip step in
      let fresh : contains seen name ≡ false = contains_of_count name seen (
        omega (
          arith,
          d name,
          count-append name seen (name ∷ step_names steps),
          count_head name (step_names steps),
        )) in
      let shift = append_assoc seen (name ∷ []) (step_names steps) in
      let ih = check_names_of_IsDistinct (seen ++ name ∷ []) steps (rw shift d) h.1 in
      rw (h.0, fresh) (ih ∙ ap ok shift)

-- The errors that the checking loops raise.
abbrev pub is_check_error : DagValidationError → Bool
is_check_error (DagValidationError.cycle _) = false
is_check_error DagValidationError.out_of_fuel = false
is_check_error _ = true

pub check_names-is_check_error :
    (strip : String → String) (seen : List String) (steps : List RawStep) {x : DagValidationError}
    → check_names strip seen steps ≡ err x
    → is_check_error x ≡ true
unfolding check_names
check_names-is_check_error strip seen [] h = cc
check_names-is_check_error strip seen (step ∷ steps) {x} h =
    ground
      (arith, check_names-is_check_error strip (seen ++ step_name strip step ∷ []) steps {x = x})

check_edge-is_check_error :
    (names : List String) (edge : RawEdge) {x : DagValidationError}
    → check_edge names edge ≡ err x
    → is_check_error x ≡ true
unfolding check_edge
check_edge-is_check_error names edge h = ground arith

pub check_edges-is_check_error :
    (names : List String) (es : List RawEdge) {x : DagValidationError}
    → check_edges names es ≡ err x
    → is_check_error x ≡ true
unfolding check_edges
check_edges-is_check_error names [] h = cc
check_edges-is_check_error names (edge ∷ es) {x} h = ground (
  arith,
  check_edge-is_check_error names edge {x = x},
  check_edges-is_check_error names es {x = x},
)
