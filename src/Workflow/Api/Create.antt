-- ===== src/Workflow/Api/Create.antt =====
-- What `create_process` accepts.
use apex_ai.Prelude.{
  ℕ, ◌≡◌, ◌↔◌, refl, ap, ◌∙◌, Option, List, String, ok, All, Result-cases, inl, inr, arith,
}
use apex_ai.Workflow.Json.{Fields}
use apex_ai.Workflow.Definition.{ProcessDefinition, validate_definition}
use apex_ai.Workflow.Definition.Agreement.{IsPlain, validate_dag-model_dump}
use apex_ai.Workflow.Api.{create_checked, create_process}

validate_definition-same :
    (p : ProcessDefinition) {d : ProcessDefinition} → validate_definition p ≡ ok d → d ≡ p
unfolding validate_definition
validate_definition-same p h = ground arith

-- For a definition whose names are as the pattern of their field lets them through, the process and its
-- rows are created exactly if `_validate_dag` accepts the definition: the second validation, on the dump,
-- refuses nothing more.
create_checked-eq-ok :
    (strip : String → String) (sorted : List String → List String) (now process_id first_id : ℕ)
    (org_id user_id : Option String) (name : String) (inputs : Fields) (body : ProcessDefinition)
    → All (IsPlain strip) body.steps
    → (create_checked strip sorted now process_id first_id org_id user_id name inputs body
        ≡ ok (create_process now process_id first_id org_id user_id name inputs body))
      ↔ (validate_definition body ≡ ok body)
unfolding create_checked
create_checked-eq-ok strip sorted now process_id first_id org_id user_id name inputs body plain = (
  λ h. elim (Result-cases (validate_definition body)) [
    | inl (d, e) ↦ e ∙ ap ok (validate_definition-same body e)
    | inr (x, e) ↦ let refused = rw (e) at h in cc
  ],
  λ h.
      let (v, accepted) = validate_dag-model_dump strip sorted body plain h in
      rw (h, accepted) refl,
)
