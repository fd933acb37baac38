-- ===== src/Workflow/Dag.antt =====
-- backend/app/workflow/dag.py. A definition is a dictionary from outside, so a key may be missing.
-- `str.strip` and `sorted` are Python's: parameters. Sets of names are lists, tested by `contains`.
pub mod Checks
pub mod Correct
use apex_ai.Prelude.{
  ℕ, ◌≡◌, Bool, true, false, not, ◌&&◌, ◌||◌, List, [], ◌∷◌, ◌++◌, map, Option, none, some, String,
  Eq, ◌==◌, string_eq, nat_eq, if◌then◌else◌, filter, length, contains, Result, ok, err, ◌>>=◌,
  ◌>>◌, guard, ltb,
}
use apex_ai.Kahn.{kahn, visit_list}

pub record RawStep : Type 0 where
  pub name : Option String

pub record RawEdge : Type 0 where
  pub from : Option String
  pub from_ : Option String
  pub to : Option String

pub record RawDefinition : Type 0 where
  pub steps : List RawStep
  pub edges : List RawEdge

pub data DagValidationError : Type 0 where
  empty_name : DagValidationError
  duplicate_name : String → DagValidationError
  missing_endpoint : RawEdge → DagValidationError
  unknown_step : String → DagValidationError
  self_loop : String → DagValidationError
  cycle : List String → DagValidationError
  -- No outcome of the code: the fuel of the loop ran out. `Dag.Correct` excludes it.
  out_of_fuel : DagValidationError

pub record ValidDag : Type 0 where
  pub steps : List RawStep
  pub edges : List (String × String)
  pub topological_order : List String

-- A string that may be missing, as a truth value.
abbrev pub truthy : Option String → Bool
truthy none = false
truthy (some s) = not (s == "")

-- `a or b`
abbrev pub or_else : Option String → Option String → Option String
or_else a b = if truthy a then a else b

abbrev pub text_or_empty : Option String → String
text_or_empty none = ""
text_or_empty (some s) = s

-- `edge.get("from") or edge.get("from_")`
abbrev pub edge_src : RawEdge → Option String
edge_src edge = or_else edge.from edge.from_

-- The body of the loop over `edges`.
unfoldable pub check_edge : List String → RawEdge → Result DagValidationError (String × String)
check_edge name_set edge =
    let src = text_or_empty (edge_src edge) in
    let dst = text_or_empty edge.to in
    if not (truthy (edge_src edge)) || not (truthy edge.to)
    then err (missing_endpoint edge)
    else if not (contains name_set src)
    then err (unknown_step src)
    else if not (contains name_set dst)
    then err (unknown_step dst)
    else if src == dst
    then err (self_loop src)
    else ok (src, dst)

unfoldable pub check_edges :
    List String → List RawEdge → Result DagValidationError (List (String × String))
check_edges name_set [] = ok []
check_edges name_set (edge ∷ es) = do
  pair ← check_edge name_set edge
  rest ← check_edges name_set es
  ok (pair ∷ rest)

module _ (strip : String → String) where
  -- `step.get("name", "").strip()`
  abbrev pub step_name : RawStep → String
  step_name step = strip (text_or_empty step.name)

  -- The loop over `steps`; `step_names` and `seen_names` hold the same names.
  unfoldable pub check_names : List String → List RawStep → Result DagValidationError (List String)
  check_names seen [] = ok seen
  check_names seen (step ∷ steps) =
      let name = step_name step in
      let rest = check_names (seen ++ name ∷ []) steps in
      if name == ""
      then err empty_name
      else if contains seen name
      then err (duplicate_name name)
      else rest

module _ (sorted : List String → List String) where
  -- The end of the function, from the loop's result on.
  unfoldable pub conclude :
      List RawStep
      → List String
      → List (String × String)
      → Option ((String → ℕ) × List String)
      → Result DagValidationError ValidDag
  conclude steps names edges none = err out_of_fuel
  conclude steps names edges (some (deg, order)) =
      if length order == length names
      then ok (record { steps = steps; edges = edges; topological_order = order })
      else err (cycle (sorted (filter (λ n. ltb 0 (deg n)) names)))

module _ (strip : String → String) (sorted : List String → List String) where
  unfoldable pub validate_dag : RawDefinition → Result DagValidationError ValidDag
  unfolding check_names check_edges check_edge kahn conclude
  validate_dag definition = do
    names ← check_names strip [] definition.steps
    edges ← check_edges names definition.edges
    conclude sorted definition.steps names edges (kahn visit_list [] (length names) names edges)

-- `find_root_steps`: the steps that no edge enters. A step whose name is missing or empty is left out.
has_incoming : List RawEdge → List String
has_incoming [] = []
has_incoming (edge ∷ es) =
    let rest = has_incoming es in if truthy edge.to then text_or_empty edge.to ∷ rest else rest

unfoldable pub find_root_steps : RawDefinition → List String
unfolding has_incoming
find_root_steps definition =
    let incoming = has_incoming definition.edges in
    map (λ s. text_or_empty s.name)
      (filter (λ s. truthy s.name && not (contains incoming (text_or_empty s.name)))
        definition.steps)
