-- ===== src/Agent/Roles/Edits.antt =====
-- Which roles of backend/app/agent/roles.py may change files.
use apex_ai.Prelude.{◌≡◌, refl, Bool, true, false, any, all, string_eq, contains}
use apex_ai.Agent.Safety.Edits.{edit_tools}
use apex_ai.Agent.Roles.{Role, tool_names}

abbrev pub is_developer : Role → Bool
is_developer Role.developer_fe = true
is_developer Role.developer_be = true
is_developer _ = false

-- A role is given a tool that edits files exactly if it is one of the two developers', and these are given
-- every such tool.
tool_names-edit_tools :
    (role : Role)
    → (any (contains (tool_names role)) edit_tools ≡ is_developer role)
      × (all (contains (tool_names role)) edit_tools ≡ is_developer role)
unfolding tool_names
tool_names-edit_tools Role.manager = (refl, refl)
tool_names-edit_tools Role.analyst = (refl, refl)
tool_names-edit_tools Role.developer_fe = (refl, refl)
tool_names-edit_tools Role.developer_be = (refl, refl)
tool_names-edit_tools Role.qa = (refl, refl)
tool_names-edit_tools Role.pm = (refl, refl)
tool_names-edit_tools Role.support = (refl, refl)
