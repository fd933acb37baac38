-- ===== src/Tests/Dag.antt =====
-- The theorems on definitions at concrete inputs: a pipeline of three steps, and one with a cycle.
use apex_ai.Prelude.{ℕ, ◌≡◌, ◌↔◌, refl, List, [], ◌∷◌, none, some, String, string_eq, ok}
use apex_ai.Kahn.Order.{IsTopological}
use apex_ai.Kahn.Rank.{IsRanking}
use apex_ai.Workflow.Json.{Json, num, str, obj, Fields, end, field}
use apex_ai.Workflow.Dag.{RawStep, RawEdge, RawDefinition, ValidDag, validate_dag}
use apex_ai.Workflow.Dag.Checks.{step_names}
use apex_ai.Workflow.Dag.Correct.{
  IsChecked, pairs, validate_dag-IsTopological, validate_dag_accepts_iff,
}
use apex_ai.Workflow.Definition.{
  StepDef, EdgeDef, ProcessDefinition, def_names, def_pairs, validate_definition,
}
use apex_ai.Workflow.Definition.Accepts.{IsDistinct, AllKnown, validate_definition_accepts_iff}
use apex_ai.Workflow.Definition.Agreement.{model_dump, validate_dag-model_dump}

abbrev raw_step : String → RawStep
raw_step name = record { name = some name }

abbrev raw_edge : String → String → RawEdge
raw_edge src dst = record { from = some src; from_ = none; to = some dst }

abbrev pipeline : RawDefinition
pipeline = record {
  steps = raw_step "plan" ∷ raw_step "build" ∷ raw_step "test" ∷ [];
  edges = raw_edge "plan" "build" ∷ raw_edge "build" "test" ∷ [];
}

abbrev looping : RawDefinition
looping = record {
  steps = raw_step "plan" ∷ raw_step "build" ∷ raw_step "test" ∷ [];
  edges = raw_edge "build" "test" ∷ raw_edge "test" "build" ∷ [];
}

abbrev same_text : String → String
same_text s = s

abbrev same_order : List String → List String
same_order names = names

abbrev pipeline_valid : ValidDag
pipeline_valid = record {
  steps = pipeline.steps;
  edges = ("plan", "build") ∷ ("build", "test") ∷ [];
  topological_order = "plan" ∷ "build" ∷ "test" ∷ [];
}

validate_dag-IsTopological_example :
    (pipeline_valid.steps ≡ pipeline.steps)
    × (pipeline_valid.edges ≡ pairs same_text pipeline)
    × IsTopological
        (step_names same_text pipeline.steps)
        pipeline_valid.edges
        pipeline_valid.topological_order
unfolding validate_dag
validate_dag-IsTopological_example =
    validate_dag-IsTopological same_text same_order pipeline {v = pipeline_valid} refl

validate_dag_accepts_iff_example :
    ((v : ValidDag) × (validate_dag same_text same_order pipeline ≡ ok v)) ↔ (
      IsChecked same_text pipeline
      × ((rank : String → ℕ) × IsRanking (pairs same_text pipeline) rank))
validate_dag_accepts_iff_example = validate_dag_accepts_iff same_text same_order pipeline

abbrev step_def : String → StepDef
step_def name = record { name = name; role = "DEV_BE"; prompt = "do it"; max_attempts = some 2 }

abbrev edge_def : String → String → EdgeDef
edge_def src dst = record { from_ = src; to = dst }

abbrev definition : ProcessDefinition
definition = record {
  name = "release";
  steps = step_def "plan" ∷ step_def "build" ∷ [];
  edges = edge_def "plan" "build" ∷ [];
}

validate_definition_accepts_iff_example : (validate_definition definition ≡ ok definition) ↔ (
    IsDistinct (def_names definition.steps)
    × AllKnown (def_names definition.steps) definition.edges
    × ((rank : String → ℕ) × IsRanking (def_pairs definition.edges) rank))
validate_definition_accepts_iff_example = validate_definition_accepts_iff definition

abbrev nested : Json
nested = obj (field "a" (obj (field "b" (num 3) end)) end)

abbrev plan_outputs : List (String × Fields)
plan_outputs = ("plan", field "summary" (str "done") end) ∷ []

validate_dag-model_dump_example :
    (v : ValidDag) × (validate_dag same_text same_order (model_dump definition) ≡ ok v)
unfolding validate_definition
validate_dag-model_dump_example =
    validate_dag-model_dump same_text same_order definition ((refl, refl), ((refl, refl), tt)) refl
