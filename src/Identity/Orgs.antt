-- ===== src/Identity/Orgs.antt =====
-- backend/app/api/v1/orgs.py: organisations and teams. Responses and the audit log are left out.
use apex_ai.Prelude.{
  ℕ, Bool, true, not, ◌&&◌, ◌||◌, Option, none, some, List, [], ◌∷◌, ◌++◌, String, ◌==◌, nat_eq,
  string_eq, if◌then◌else◌, filter, any, find?, Result, ok, guard, ◌>>=◌, ◌>>◌,
}
use apex_ai.Access.{OrgRole, org_role_eq}
use apex_ai.Identity.{
  User, Org, Team, OrgMembership, MembershipStatus, is_active_status, Db, Claims, Platform, Draw,
  has_email, add_user,
}
use apex_ai.Identity.Tables.{ApiError, one_or_none, require, insert_row, modify, remove_first}

abbrev pub is_org : ℕ → Org → Bool
is_org org_id o = o.id == org_id

abbrev pub is_team : ℕ → Team → Bool
is_team team_id t = t.id == team_id

-- The condition of the query for a membership.
abbrev pub is_membership : ℕ → ℕ → OrgMembership → Bool
is_membership org_id user_id m = m.org_id == org_id && m.user_id == user_id

-- `_require_org_member`
unfoldable pub require_org_member : Db → Claims → ℕ → Result ApiError OrgMembership
require_org_member db current_user org_id =
    if current_user.is_platform_admin
    then ok (record {
      org_id = org_id;
      user_id = current_user.sub;
      role = OrgRole.admin;
      status = MembershipStatus.active;
      joined_at = none;
    })
    else do
      found ← one_or_none (filter (is_membership org_id current_user.sub) db.org_memberships)
      membership ← require found (ApiError.http 403)
      guard (is_active_status membership.status) (ApiError.http 403)
      ok membership

-- `_require_org_admin`
unfoldable pub require_org_admin : Db → Claims → ℕ → Result ApiError OrgMembership
require_org_admin db current_user org_id = do
  membership ← require_org_member db current_user org_id
  guard (membership.role == OrgRole.admin || current_user.is_platform_admin) (ApiError.http 403)
  ok membership

abbrev pub admin_of : Draw → ℕ → ℕ → OrgMembership
admin_of d org_id user_id = record {
  org_id = org_id;
  user_id = user_id;
  role = OrgRole.admin;
  status = MembershipStatus.active;
  joined_at = some d.now;
}

-- The first administrator of a new organisation: the user of the address, who may be new.
unfoldable pub first_admin : Platform → Draw → String → String → Db → Result ApiError (ℕ × Db)
first_admin platform d email full_name db = do
  found ← one_or_none (filter (has_email email) db.users)
  elim found [
    | some user ↦ ok (user.id, db)
    | none ↦ do
      let user : User = record {
        id = d.new_user_id;
        email = email;
        password_hash = platform.hash_password d.salt "change-me-on-first-login";
        full_name = full_name;
        is_active = true;
        email_verified_at = some d.now;
        last_login_at = none;
      }
      db' ← add_user user db
      ok (user.id, db')
  ]

unfoldable pub create_org :
    Platform
    → Draw
    → Claims
    → (slug name admin_email admin_full_name : String) → Db
    → Result ApiError Db
create_org platform d current_user slug name admin_email admin_full_name db = do
  guard current_user.is_platform_admin (ApiError.http 403)
  let org : Org = record { id = d.new_id; slug = slug; name = name; status = "active" }
  orgs ← insert_row (λ o. o.id == d.new_id || o.slug == slug) org db.orgs
  (user_id, db') ← first_admin platform d admin_email admin_full_name db
  ok (record db' {
    orgs = orgs;
    org_memberships = db'.org_memberships ++ admin_of d d.new_id user_id ∷ [];
  })

abbrev pub or_else {ℓ} : {A : Type ℓ} → Option A → A → A
or_else none old = old
or_else (some new) old = new

unfoldable pub update_org : Claims → ℕ → Option String → Option String → Db → Result ApiError Db
update_org current_user org_id name status db = do
  m ← require_org_admin db current_user org_id
  org ← require (find? (is_org org_id) db.orgs) (ApiError.http 404)
  let change : Org → Org =
      λ o. record o { name = or_else name o.name; status = or_else status o.status }
  ok (record db { orgs = modify (is_org org_id) change db.orgs })

unfoldable pub delete_org : Claims → ℕ → Db → Result ApiError Db
delete_org current_user org_id db = do
  guard current_user.is_platform_admin (ApiError.http 403)
  org ← require (find? (is_org org_id) db.orgs) (ApiError.http 404)
  ok (record db { orgs = modify (is_org org_id) (λ o. record o { status = "deleted" }) db.orgs })

unfoldable pub create_team :
    Draw → Claims → ℕ → (name slug : String) → Option String → Db → Result ApiError Db
create_team d current_user org_id name slug description db = do
  m ← require_org_admin db current_user org_id
  let team : Team = record {
    id = d.new_id;
    org_id = org_id;
    name = name;
    slug = slug;
    description = description;
    created_by = some current_user.sub;
  }
  guard (any (is_org org_id) db.orgs) ApiError.integrity_error
  teams ← insert_row (is_team d.new_id) team db.teams
  ok (record db { teams = teams })

-- `db.get(Team, …)`, and that the team is the organisation's.
unfoldable pub team_in_org : ℕ → ℕ → Db → Result ApiError Team
team_in_org org_id team_id db = do
  team ← require (find? (is_team team_id) db.teams) (ApiError.http 404)
  guard (team.org_id == org_id) (ApiError.http 404)
  ok team

unfoldable pub update_team :
    Claims → (org_id team_id : ℕ) → Option String → Option String → Db → Result ApiError Db
unfolding team_in_org
update_team current_user org_id team_id name description db = do
  m ← require_org_admin db current_user org_id
  team ← team_in_org org_id team_id db
  let described : Team → Option String =
      λ t. elim description [ none ↦ t.description | some text ↦ some text ]
  let change : Team → Team = λ t. record t { name = or_else name t.name; description = described t }
  ok (record db { teams = modify (is_team team_id) change db.teams })

-- A team that has members cannot be deleted: their rows refer to it.
unfoldable pub delete_team : Claims → (org_id team_id : ℕ) → Db → Result ApiError Db
unfolding team_in_org
delete_team current_user org_id team_id db = do
  m ← require_org_admin db current_user org_id
  team ← team_in_org org_id team_id db
  guard (not (any (λ t. t.team_id == team_id) db.team_memberships)) ApiError.integrity_error
  ok (record db { teams = remove_first (is_team team_id) db.teams })

-- The rows of the responses, without their order.
unfoldable pub list_orgs : Claims → Db → Result ApiError (List Org)
list_orgs current_user db = do guard current_user.is_platform_admin (ApiError.http 403); ok db.orgs

abbrev pub member_or_platform : Claims → ℕ → Db → Result ApiError (Unit {0})
member_or_platform current_user org_id db =
    if current_user.is_platform_admin
    then ok tt
    else do m ← require_org_member db current_user org_id; ok tt

unfoldable pub get_org : Claims → ℕ → Db → Result ApiError Org
get_org current_user org_id db = do
  member_or_platform current_user org_id db
  require (find? (is_org org_id) db.orgs) (ApiError.http 404)

unfoldable pub list_teams : Claims → ℕ → Db → Result ApiError (List Team)
list_teams current_user org_id db = do
  member_or_platform current_user org_id db
  ok (filter (λ t. t.org_id == org_id) db.teams)
