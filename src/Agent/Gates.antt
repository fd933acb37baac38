-- ===== src/Agent/Gates.antt =====
-- backend/app/agent/gates.py. Whether one of the regular expressions of `_MIGRATION_PATTERNS` is found in a
-- command is the argument `is_migration`.
pub mod Permission
use apex_ai.Prelude.{
  ◌≡◌, ◌↔◌, ◌⊎◌, refl, Bool, true, false, not, ◌&&◌, ◌||◌, List, [], ◌∷◌, String, string_eq,
  contains, Option, none, some, Result, ok, err, filter, if◌then◌else◌, ◌==◌, all, length, inl, inr,
  Bool-cases,
}
use apex_ai.Agent.Roles.{Role, role_text}

-- The part of a tool's description that the gate reads.
pub record Restrictions : Type 0 where
  pub required_permissions : List String
  pub role_visibility : List String

pub data ToolPermissionError : Type 0 where
  not_visible : (role : String) → ToolPermissionError
  missing_permissions : List String → ToolPermissionError

abbrev pub is_empty {ℓ} : {A : Type ℓ} → List A → Bool
is_empty [] = true
is_empty (x ∷ xs) = false

-- `tool.role_visibility and role is not None and role not in tool.role_visibility`
abbrev pub hidden_from : List String → Option Role → Bool
hidden_from visible none = false
hidden_from visible (some role) = not (is_empty visible) && not (contains visible (role_text role))

-- `set(required) - held`
abbrev pub missing : List String → List String → List String
missing required held = filter (λ p. not (contains held p)) required

abbrev pub role_name : Option Role → String
role_name none = ""
role_name (some role) = role_text role

-- `check_tool_permission`
unfoldable pub check_tool_permission :
    Restrictions → List String → Option Role → Bool → Result ToolPermissionError (Unit {0})
check_tool_permission tool user_permissions role is_platform_admin =
    let lacks = missing tool.required_permissions user_permissions in
    if is_platform_admin
    then ok tt
    else if hidden_from tool.role_visibility role
    then err (ToolPermissionError.not_visible (role_name role))
    else if not (is_empty lacks)
    then err (ToolPermissionError.missing_permissions lacks)
    else ok tt

pub data Gate : Type 0 where
  migration plan_approval : Gate

-- The texts of a decision are determined by its gate.
pub record GateDecision : Type 0 where
  pub trip : Bool
  pub gate : Option Gate

abbrev pub gate_reason : Gate → String
gate_reason Gate.migration = "Schema migration detected"
gate_reason Gate.plan_approval = "ANL plan complete; awaiting user approval"

-- Without the variation selector behind the sign.
abbrev pub gate_guidance : Gate → String
gate_guidance Gate.migration =
    "⚠ This command is a schema migration (alembic / prisma / django). Migrations cannot be rolled back automatically. The run is now awaiting your approval. Call POST /agent/runs/{id}/resume with {\"approval_comment\": \"approved\"} to proceed, or cancel the run."
gate_guidance Gate.plan_approval =
    "⚠ The analyst has produced a plan. Review it via GET /agent/runs/{id}/export, then POST /agent/runs/{id}/resume to spawn a developer agent, or cancel if the plan needs rework."

abbrev pub passes : GateDecision
passes = record { trip = false; gate = none }

-- `evaluate_migration_gate`
unfoldable pub evaluate_migration_gate : (String → Bool) → String → GateDecision
evaluate_migration_gate is_migration command =
    if is_migration command then record { trip = true; gate = some Gate.migration } else passes

abbrev pub finished_plan : Option String → Bool
finished_plan none = false
finished_plan (some tool) = tool == "plan_finished" || tool == "request_plan_approval"

-- `evaluate_plan_approval_gate`
unfoldable pub evaluate_plan_approval_gate : String → Option String → GateDecision
evaluate_plan_approval_gate role last_tool_name =
    if role == "ANL" && finished_plan last_tool_name
    then record { trip = true; gate = some Gate.plan_approval }
    else passes
