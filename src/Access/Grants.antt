-- ===== src/Access/Grants.antt =====
-- Who passes the checks of backend/app/core/rbac.py.
use apex_ai.Prelude.{ap, sym, ◌≡◌, ◌↔◌, ◌⊎◌, Bool, true, false, Option, none, some, ok, arith}
use mathlib.Core.Path.{subst}
use apex_ai.Access.{
  OrgRole, Permission, has_permission, require_permission, org_role_eq, permission_eq,
  role_permissions,
}

-- The permissions to manage that an organisation has.
abbrev is_org_wide : Permission → Bool
is_org_wide Permission.org_manage = true
is_org_wide Permission.teams_manage = true
is_org_wide Permission.keys_manage_org = true
is_org_wide Permission.settings_manage_org = true
is_org_wide _ = false

admin_has : (p : Permission) → has_permission OrgRole.admin p ≡ true
unfolding has_permission role_permissions
admin_has p = ground arith

org_wide_admin :
    (role : OrgRole) (p : Permission)
    → is_org_wide p ≡ true
    → has_permission role p ≡ true
    → role ≡ OrgRole.admin
unfolding has_permission role_permissions
org_wide_admin role p w h = ground arith

org_wide_iff :
    (role : OrgRole) (p : Permission)
    → is_org_wide p ≡ true
    → (has_permission role p ≡ true) ↔ (role ≡ OrgRole.admin)
org_wide_iff role p w = (
  λ h. org_wide_admin role p w h,
  λ e. subst (λ r. has_permission r p ≡ true) (sym e) (admin_has p),
)

some_admin : (role : OrgRole) → (some role ≡ some OrgRole.admin) ↔ (role ≡ OrgRole.admin)
some_admin role = (λ e. cc, λ e. ap some e)

-- The check for a permission to manage the whole organisation, its teams, its keys or its settings passes
-- exactly for platform administrators and for administrators of the organisation, whom every check for a
-- permission lets pass.
require_permission-org_wide :
    (p : Permission) (user_role : Option OrgRole) (is_platform_admin : Bool)
    → (require_permission p (some OrgRole.admin) is_platform_admin ≡ ok tt)
      × (is_org_wide p ≡ true
          → (require_permission p user_role is_platform_admin ≡ ok tt)
            ↔ ((is_platform_admin ≡ true) ⊎ (user_role ≡ some OrgRole.admin)))
unfolding require_permission
require_permission-org_wide p none admin = (ground (arith, admin_has p), λ w. ground arith)
require_permission-org_wide p (some role) admin =
    (ground (arith, admin_has p), λ w. ground (arith, org_wide_iff role p w, some_admin role))
