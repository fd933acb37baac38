-- ===== src/Workflow/Definition.antt =====
-- backend/app/workflow/definition.py: the validated definition of a process. The `Field` limits on the
-- lengths and forms of strings are Pydantic's to check, before `_validate_dag` runs. A set of names is a
-- list of its first occurrences; the code does not use the order in which Python iterates over a set.
pub mod Template
pub mod Accepts
pub mod Agreement
use apex_ai.Prelude.{
  ℕ, zero, suc, ◌+◌, ◌≡◌, Bool, true, false, not, ◌&&◌, ◌||◌, List, [], ◌∷◌, ◌++◌, map, Option,
  none, some, String, Eq, ◌==◌, string_eq, nat_eq, if◌then◌else◌, filter, find?, length, contains,
  Result, ok, err, ◌>>=◌, ◌>>◌, guard,
}
use apex_ai.Kahn.{kahn, visit_count}

pub record StepDef : Type 0 where
  pub name : String
  pub role : String
  pub prompt : String
  pub max_attempts : Option ℕ

pub record EdgeDef : Type 0 where
  pub from_ : String
  pub to : String

pub record ProcessDefinition : Type 0 where
  pub name : String
  pub steps : List StepDef
  pub edges : List EdgeDef

pub data DefinitionError : Type 0 where
  duplicate_names : DefinitionError
  unknown_step : String → DefinitionError
  has_cycle : DefinitionError
  -- No outcome of the code: the fuel of the loop ran out. `Definition.Accepts` excludes it.
  out_of_fuel : DefinitionError

-- `{x for x in xs}`
unfoldable pub to_set : List String → List String
to_set [] = []
to_set (x ∷ xs) = x ∷ filter (λ y. not (x == y)) (to_set xs)

abbrev pub def_names : List StepDef → List String
def_names = map (λ s. s.name)

abbrev pub def_pairs : List EdgeDef → List (String × String)
def_pairs = map (λ e. (e.from_, e.to))

-- The loop that looks both ends of every edge up.
unfoldable pub known_edges : List String → List EdgeDef → Result DefinitionError (Unit {0})
known_edges names [] = ok tt
known_edges names (edge ∷ es) =
    let rest = known_edges names es in
    if not (contains names edge.from_)
    then err (unknown_step edge.from_)
    else if not (contains names edge.to)
    then err (unknown_step edge.to)
    else rest

unfoldable pub check_visited :
    List String → Option ((String → ℕ) × ℕ) → Result DefinitionError (Unit {0})
check_visited names none = err out_of_fuel
check_visited names (some (deg, visited)) = if visited == length names then ok tt else err has_cycle

-- `ProcessDefinition._validate_dag`; it returns the definition unchanged.
unfoldable pub validate_definition : ProcessDefinition → Result DefinitionError ProcessDefinition
unfolding to_set known_edges kahn check_visited
validate_definition p = do
  let names = to_set (def_names p.steps)
  guard (length names == length p.steps) duplicate_names
  known_edges names p.edges
  check_visited names (kahn visit_count 0 (length names) names (def_pairs p.edges))
  ok p

unfoldable pub root_steps : ProcessDefinition → List StepDef
root_steps p =
    let incoming = map (λ (e : EdgeDef). e.to) p.edges in
    filter (λ s. not (contains incoming s.name)) p.steps

unfoldable pub downstream : ProcessDefinition → String → List String
downstream p step_name = map (λ (e : EdgeDef). e.to) (filter (λ e. e.from_ == step_name) p.edges)

unfoldable pub upstream : ProcessDefinition → String → List String
upstream p step_name = map (λ (e : EdgeDef). e.from_) (filter (λ e. e.to == step_name) p.edges)

unfoldable pub step_by_name : ProcessDefinition → String → Option StepDef
step_by_name p name = find? (λ s. s.name == name) p.steps
