-- ===== src/Workflow/Definition/Agreement.antt =====
-- `create_process` of backend/app/workflow/api/routes.py validates a definition twice: with
-- `ProcessDefinition._validate_dag`, and then with `validate_dag` on `pdef.model_dump()`.
use apex_ai.Prelude.{
  ℕ, ◌≡◌, refl, ap, true, false, List, [], ◌∷◌, map, none, some, String, string_eq, nat_eq, ◌==◌,
  ==_iff, ==_refl, contains, ok, All, arith,
}
use apex_ai.Kahn.Degrees.{edge_count}
use apex_ai.Kahn.Rank.{IsRanking}
use apex_ai.Workflow.Dag.{RawStep, RawEdge, RawDefinition, ValidDag, validate_dag}
use apex_ai.Workflow.Dag.Checks.{AllNamed, AllEdges, edge_pair, step_names}
use apex_ai.Workflow.Dag.Correct.{validate_dag_accepts_iff}
use apex_ai.Workflow.Definition.{
  StepDef, EdgeDef, ProcessDefinition, def_names, def_pairs, validate_definition,
}
use apex_ai.Workflow.Definition.Accepts.{AllKnown, validate_definition_accepts_iff}

abbrev pub dump_steps : List StepDef → List RawStep
dump_steps [] = []
dump_steps (s ∷ ss) = (record { name = some s.name }) ∷ dump_steps ss

-- The key of an edge is the field's name, `from_`, and not its alias.
abbrev pub dump_edges : List EdgeDef → List RawEdge
dump_edges [] = []
dump_edges (e ∷ es) = (record { from = none; from_ = some e.from_; to = some e.to }) ∷ dump_edges es

-- `pdef.model_dump()`
abbrev pub model_dump : ProcessDefinition → RawDefinition
model_dump p = record { steps = dump_steps p.steps; edges = dump_edges p.edges }

module _ (strip : String → String) where
  -- A name as the pattern of the field lets it through: not empty, and without blanks to strip.
  abbrev pub IsPlain : StepDef → Type 0
  IsPlain s = (strip s.name ≡ s.name) × ((s.name == "") ≡ false)

  step_names-dump_steps :
      (ss : List StepDef) → All IsPlain ss → step_names strip (dump_steps ss) ≡ def_names ss
  unfolding step_names
  step_names-dump_steps [] h = refl
  step_names-dump_steps (s ∷ ss) (plain, h) = rw (plain.0, step_names-dump_steps ss h) refl

  dump_steps-AllNamed : (ss : List StepDef) → All IsPlain ss → AllNamed strip (dump_steps ss)
  dump_steps-AllNamed [] h = tt
  dump_steps-AllNamed (s ∷ ss) (plain, h) = (rw (plain.0) (plain.1), dump_steps-AllNamed ss h)

  contains-ne :
      (ss : List StepDef) (x : String)
      → All IsPlain ss
      → contains (def_names ss) x ≡ true
      → (x == "") ≡ false
  contains-ne [] x h c = cc
  contains-ne (s ∷ ss) x (plain, h) c = ground (arith, plain.1, ==_iff s.name x, contains-ne ss x h)

pairs-dump_edges : (es : List EdgeDef) → map edge_pair (dump_edges es) ≡ def_pairs es
pairs-dump_edges [] = refl
pairs-dump_edges (e ∷ es) = ap (λ t. (e.from_, e.to) ∷ t) (pairs-dump_edges es)

no_loop_of_ranking :
    (pairs_ : List (String × String)) (rank : String → ℕ)
    → IsRanking pairs_ rank
    → (n : String) → edge_count pairs_ n n ≡ 0
no_loop_of_ranking pairs_ rank r n = grind (arith, r n n)

dump_edges-AllEdges :
    (names : List String) (es : List EdgeDef)
    → ((x : String) → contains names x ≡ true → (x == "") ≡ false)
    → ((n : String) → edge_count (def_pairs es) n n ≡ 0)
    → AllKnown names es
    → AllEdges names (dump_edges es)
dump_edges-AllEdges names [] plain loops h = tt
dump_edges-AllEdges names (e ∷ es) plain loops (src, dst, rest) = (
  record {
    has_src = ground (arith, plain e.from_ src);
    has_dst = ground (arith, plain e.to dst);
    src_known = src;
    dst_known = dst;
    no_loop = ground (arith, loops e.from_, ==_refl e.from_, ==_iff e.from_ e.to);
  },
  dump_edges-AllEdges names es plain (λ n. omega (arith, loops n)) rest,
)

-- The second validation never refuses what the first accepted: a definition whose names are as the
-- pattern of their field lets them through, and which `_validate_dag` accepts, is accepted by
-- `validate_dag` on its dump.
pub validate_dag-model_dump :
    (strip : String → String) (sorted : List String → List String) (p : ProcessDefinition)
    → All (IsPlain strip) p.steps
    → validate_definition p ≡ ok p
    → (v : ValidDag) × (validate_dag strip sorted (model_dump p) ≡ ok v)
validate_dag-model_dump strip sorted p plain h =
    let (distinct, known, (rank, grows)) = (validate_definition_accepts_iff p).0 h in
    let names = step_names-dump_steps strip p.steps plain in
    (validate_dag_accepts_iff strip sorted (model_dump p)).1 (
      record {
        named = dump_steps-AllNamed strip p.steps plain;
        distinct = rw names distinct;
        edges = rw names (
            dump_edges-AllEdges (def_names p.steps) p.edges (λ x. contains-ne strip p.steps x plain)
              (no_loop_of_ranking (def_pairs p.edges) rank grows) known);
      },
      (rank, rw (pairs-dump_edges p.edges) grows),
    )
