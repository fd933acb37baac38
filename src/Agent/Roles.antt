-- ===== src/Agent/Roles.antt =====
-- The roles of backend/app/agent/roles.py, with the tools and the number of steps that each is given. The
-- texts of the prompts are left out, and the model of a role, which it reads from the environment.
pub mod Edits
use apex_ai.Prelude.{
  ℕ, ◌≡◌, ◌↔◌, refl, Bool, true, false, List, [], ◌∷◌, ◌++◌, String, string_eq, contains, Option,
  none, some, Result, ok, err,
}
use apex_ai.Agent.Safety.Edits.{edit_tools}

pub data Role : Type 0 where
  manager analyst developer_fe developer_be qa pm support : Role

abbrev pub role_text : Role → String
role_text Role.manager = "MGR"
role_text Role.analyst = "ANL"
role_text Role.developer_fe = "DEV_FE"
role_text Role.developer_be = "DEV_BE"
role_text Role.qa = "QA"
role_text Role.pm = "PM"
role_text Role.support = "SUP"

-- `_DEFAULT_TOOLS_READ_ONLY`
abbrev pub read_only_tools : List String
read_only_tools =
    "read_file" ∷ "list_dir" ∷ "find_files" ∷ "grep_search" ∷ "ast_grep" ∷ "git_status" ∷ "git_diff"
    ∷ "list_todos" ∷ "update_todo" ∷ "ask_user" ∷ "finish" ∷ []

-- `_DEFAULT_TOOLS_FULL`
abbrev pub full_tools : List String
full_tools =
    read_only_tools
    ++ "write_file" ∷ "edit_file" ∷ "apply_patch" ∷ "run_command" ∷ "run_tests" ∷ "run_subagent"
      ∷ "http_request" ∷ []

-- `tool_names`
unfoldable pub tool_names : Role → List String
tool_names Role.manager = read_only_tools ++ "run_subagent" ∷ []
tool_names Role.analyst = read_only_tools
tool_names Role.developer_fe = full_tools
tool_names Role.developer_be = full_tools
tool_names Role.qa = read_only_tools ++ "run_command" ∷ "run_tests" ∷ []
tool_names Role.pm = "read_file" ∷ "ask_user" ∷ "list_todos" ∷ "update_todo" ∷ "finish" ∷ []
tool_names Role.support = read_only_tools ++ "run_command" ∷ []

-- `max_steps`
unfoldable pub role_max_steps : Role → ℕ
role_max_steps Role.manager = 40
role_max_steps Role.analyst = 25
role_max_steps Role.developer_fe = 60
role_max_steps Role.developer_be = 60
role_max_steps Role.qa = 30
role_max_steps Role.pm = 15
role_max_steps Role.support = 25
