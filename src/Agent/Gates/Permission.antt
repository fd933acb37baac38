-- ===== src/Agent/Gates/Permission.antt =====
-- When the permission gate of backend/app/agent/gates.py lets a call pass.
use apex_ai.Prelude.{
  ◌≡◌, ◌↔◌, ◌⊎◌, refl, inl, inr, Bool, true, not, List, [], ◌∷◌, String, string_eq, contains, all,
  Option, none, some, ok, Bool-cases, arith,
}
use apex_ai.Agent.Roles.{Role, role_text}
use apex_ai.Agent.Gates.{Restrictions, is_empty, hidden_from, missing, check_tool_permission}

is_empty-missing :
    (required held : List String) → is_empty (missing required held) ≡ all (contains held) required
is_empty-missing [] held = refl
is_empty-missing (p ∷ required) held = elim (Bool-cases (contains held p)) [
  | inl has ↦ rw (has) (is_empty-missing required held)
  | inr lacks ↦ rw (lacks) refl
]

-- A tool is visible to every role if it names none, and else to the roles that it names.
abbrev pub is_visible : List String → Option Role → Bool
is_visible visible none = true
is_visible [] (some role) = true
is_visible (r ∷ visible) (some role) = contains (r ∷ visible) (role_text role)

hidden_from-is_visible :
    (visible : List String) (role : Option Role)
    → hidden_from visible role ≡ not (is_visible visible role)
hidden_from-is_visible visible none = refl
hidden_from-is_visible [] (some role) = refl
hidden_from-is_visible (r ∷ visible) (some role) = refl

-- A call passes exactly if the user is a platform administrator, or if the tool is visible to the role and
-- the user has every permission that the tool requires.
check_tool_permission_ok_iff :
    (tool : Restrictions) (user_permissions : List String) (role : Option Role)
    (is_platform_admin : Bool)
    → (check_tool_permission tool user_permissions role is_platform_admin ≡ ok tt) ↔ (
        (is_platform_admin ≡ true)
        ⊎ ((is_visible tool.role_visibility role ≡ true)
            × (all (contains user_permissions) tool.required_permissions ≡ true)))
unfolding check_tool_permission
check_tool_permission_ok_iff tool held role admin =
    rw
      (
        hidden_from-is_visible tool.role_visibility role,
        is_empty-missing tool.required_permissions held,
        check_tool_permission,
      )
      (ground arith)
