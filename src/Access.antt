-- ===== src/Access.antt =====
-- The roles and permissions of backend/app/enums.py, and the checks of backend/app/core/rbac.py. A decorator
-- is the test that it makes before the call: the wrapped function runs exactly if the test passes. The values
-- that are bound to its parameters are arguments, nothing where a role is missing.
pub mod Grants
use apex_ai.Prelude.{
  ℕ, ◌≡◌, ◌↔◌, Bool, true, false, not, ◌&&◌, ◌||◌, Option, none, some, List, [], ◌∷◌, Eq, nat_beq,
  nat_eq, if◌then◌else◌, any, contains, Result, ok, err, arith,
}

-- `Role`
pub data OrgRole : Type 0 where
  admin manager developer analyst tech_support hr : OrgRole

pub data TeamRole : Type 0 where
  lead member observer : TeamRole

pub data Permission : Type 0 where
  org_manage org_view users_invite users_manage users_view teams_manage teams_view tasks_create
        tasks_view_all tasks_view_team tasks_view_own tasks_approve keys_manage_org keys_manage_own
        keys_view_all keys_view_own integrations_manage_org integrations_manage_own
        integrations_view audit_view settings_manage_org settings_manage_own :
      Permission

abbrev pub org_role_code : OrgRole → ℕ
org_role_code OrgRole.admin = 0
org_role_code OrgRole.manager = 1
org_role_code OrgRole.developer = 2
org_role_code OrgRole.analyst = 3
org_role_code OrgRole.tech_support = 4
org_role_code OrgRole.hr = 5

abbrev pub team_role_code : TeamRole → ℕ
team_role_code TeamRole.lead = 0
team_role_code TeamRole.member = 1
team_role_code TeamRole.observer = 2

abbrev pub permission_code : Permission → ℕ
permission_code Permission.org_manage = 0
permission_code Permission.org_view = 1
permission_code Permission.users_invite = 2
permission_code Permission.users_manage = 3
permission_code Permission.users_view = 4
permission_code Permission.teams_manage = 5
permission_code Permission.teams_view = 6
permission_code Permission.tasks_create = 7
permission_code Permission.tasks_view_all = 8
permission_code Permission.tasks_view_team = 9
permission_code Permission.tasks_view_own = 10
permission_code Permission.tasks_approve = 11
permission_code Permission.keys_manage_org = 12
permission_code Permission.keys_manage_own = 13
permission_code Permission.keys_view_all = 14
permission_code Permission.keys_view_own = 15
permission_code Permission.integrations_manage_org = 16
permission_code Permission.integrations_manage_own = 17
permission_code Permission.integrations_view = 18
permission_code Permission.audit_view = 19
permission_code Permission.settings_manage_org = 20
permission_code Permission.settings_manage_own = 21

pub org_role-beq_iff :
    (a b : OrgRole) → (nat_beq (org_role_code a) (org_role_code b) ≡ true) ↔ (a ≡ b)
org_role-beq_iff a b = ground arith

instance abbrev pub org_role_eq : Eq OrgRole
org_role_eq = record {
  same = λ a b. nat_beq (org_role_code a) (org_role_code b);
  same_iff = org_role-beq_iff;
}

pub team_role-beq_iff :
    (a b : TeamRole) → (nat_beq (team_role_code a) (team_role_code b) ≡ true) ↔ (a ≡ b)
team_role-beq_iff a b = ground arith

instance abbrev pub team_role_eq : Eq TeamRole
team_role_eq = record {
  same = λ a b. nat_beq (team_role_code a) (team_role_code b);
  same_iff = team_role-beq_iff;
}

pub permission-beq_iff :
    (a b : Permission) → (nat_beq (permission_code a) (permission_code b) ≡ true) ↔ (a ≡ b)
permission-beq_iff a b = ground arith

instance abbrev pub permission_eq : Eq Permission
permission_eq = record {
  same = λ a b. nat_beq (permission_code a) (permission_code b);
  same_iff = permission-beq_iff;
}

-- `ROLE_PERMISSIONS`
unfoldable pub role_permissions : OrgRole → List Permission
role_permissions OrgRole.admin =
    Permission.org_manage ∷ Permission.org_view ∷ Permission.users_invite ∷ Permission.users_manage
    ∷ Permission.users_view ∷ Permission.teams_manage ∷ Permission.teams_view
    ∷ Permission.tasks_create ∷ Permission.tasks_view_all ∷ Permission.tasks_view_team
    ∷ Permission.tasks_view_own ∷ Permission.tasks_approve ∷ Permission.keys_manage_org
    ∷ Permission.keys_manage_own ∷ Permission.keys_view_all ∷ Permission.keys_view_own
    ∷ Permission.integrations_manage_org ∷ Permission.integrations_manage_own
    ∷ Permission.integrations_view ∷ Permission.audit_view ∷ Permission.settings_manage_org
    ∷ Permission.settings_manage_own ∷ []
role_permissions OrgRole.manager =
    Permission.org_view ∷ Permission.users_view ∷ Permission.teams_view ∷ Permission.tasks_create
    ∷ Permission.tasks_view_all ∷ Permission.tasks_view_team ∷ Permission.tasks_view_own
    ∷ Permission.tasks_approve ∷ Permission.keys_manage_own ∷ Permission.keys_view_own
    ∷ Permission.integrations_manage_own ∷ Permission.integrations_view
    ∷ Permission.settings_manage_own ∷ []
role_permissions OrgRole.developer =
    Permission.org_view ∷ Permission.teams_view ∷ Permission.tasks_create
    ∷ Permission.tasks_view_team ∷ Permission.tasks_view_own ∷ Permission.keys_manage_own
    ∷ Permission.keys_view_own ∷ Permission.integrations_manage_own ∷ Permission.integrations_view
    ∷ Permission.settings_manage_own ∷ []
role_permissions OrgRole.analyst =
    Permission.org_view ∷ Permission.teams_view ∷ Permission.tasks_create
    ∷ Permission.tasks_view_all ∷ Permission.tasks_view_own ∷ Permission.tasks_approve
    ∷ Permission.keys_manage_own ∷ Permission.keys_view_own ∷ Permission.integrations_manage_own
    ∷ Permission.integrations_view ∷ Permission.settings_manage_own ∷ []
role_permissions OrgRole.tech_support =
    Permission.org_view ∷ Permission.teams_view ∷ Permission.tasks_view_team
    ∷ Permission.tasks_view_own ∷ Permission.keys_manage_own ∷ Permission.keys_view_own
    ∷ Permission.integrations_manage_org ∷ Permission.integrations_manage_own
    ∷ Permission.integrations_view ∷ Permission.audit_view ∷ Permission.settings_manage_own ∷ []
role_permissions OrgRole.hr =
    Permission.org_view ∷ Permission.teams_view ∷ Permission.users_invite ∷ Permission.users_manage
    ∷ Permission.users_view ∷ Permission.tasks_view_team ∷ Permission.tasks_view_own
    ∷ Permission.keys_manage_own ∷ Permission.keys_view_own ∷ Permission.integrations_manage_own
    ∷ Permission.integrations_view ∷ Permission.audit_view ∷ Permission.settings_manage_own ∷ []

-- `has_permission`
unfoldable pub has_permission : OrgRole → Permission → Bool
unfolding role_permissions
has_permission role permission = contains (role_permissions role) permission

-- The 403 that a check raises.
pub data Forbidden : Type 0 where
  missing_permission : Permission → Forbidden
  required_role : List OrgRole → Forbidden
  required_team_role : List TeamRole → Forbidden

abbrev pub role_has : Option OrgRole → Permission → Bool
role_has none permission = false
role_has (some role) permission = has_permission role permission

-- `require_permission`
unfoldable pub require_permission : Permission → Option OrgRole → Bool → Result Forbidden (Unit {0})
unfolding has_permission
require_permission permission user_role is_platform_admin =
    if is_platform_admin
    then ok tt
    else if not (role_has user_role permission)
    then err (missing_permission permission)
    else ok tt

abbrev pub is_allowed : List OrgRole → Option OrgRole → Bool
is_allowed allowed_roles none = false
is_allowed allowed_roles (some role) = contains allowed_roles role

-- `require_org_role`
unfoldable pub require_org_role : List OrgRole → Option OrgRole → Bool → Result Forbidden (Unit {0})
require_org_role allowed_roles user_role is_platform_admin =
    if is_platform_admin || is_allowed allowed_roles user_role
    then ok tt
    else err (required_role allowed_roles)

-- `require_team_role`
unfoldable pub require_team_role :
    List TeamRole → List TeamRole → Bool → Result Forbidden (Unit {0})
require_team_role allowed_roles user_team_roles is_platform_admin =
    if is_platform_admin || any (contains allowed_roles) user_team_roles
    then ok tt
    else err (required_team_role allowed_roles)
