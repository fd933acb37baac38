-- ===== src/Identity.antt =====
-- The rows of backend/app/models/ that backend/app/api/v1/ keeps of users, their organisations and their
-- tokens, and what the handlers share. A handler that raises commits nothing. Passwords and tokens are
-- texts, their hashes are calls of libraries, which are fields of `Platform`.
pub mod Tables
pub mod Auth
pub mod Orgs
pub mod Isolation
pub mod Keys
pub mod Invitations
use apex_ai.Prelude.{
  ℕ, ◌+◌, Bool, true, false, not, ◌&&◌, Option, none, some, List, [], ◌∷◌, ◌++◌, String, ◌==◌,
  nat_eq, string_eq, if◌then◌else◌, filter, any, leb, Result, ok, err, guard, ◌>>=◌, ◌>>◌, map,
}
use apex_ai.Access.{OrgRole, org_role_eq}
use apex_ai.Identity.Tables.{ApiError, insert_row}

pub record User : Type 0 where
  pub id : ℕ
  pub email : String
  pub password_hash : String
  pub full_name : String
  pub is_active : Bool
  pub email_verified_at : Option ℕ
  pub last_login_at : Option ℕ

pub data MembershipStatus : Type 0 where
  active pending suspended : MembershipStatus

-- `membership.status == "active"`
abbrev pub is_active_status : MembershipStatus → Bool
is_active_status MembershipStatus.active = true
is_active_status _ = false

pub record OrgMembership : Type 0 where
  pub org_id : ℕ
  pub user_id : ℕ
  pub role : OrgRole
  pub status : MembershipStatus
  pub joined_at : Option ℕ

pub record TeamMembership : Type 0 where
  pub team_id : ℕ
  pub user_id : ℕ
  pub team_role : String

-- The status is a text: a change of an organisation may set any.
pub record Org : Type 0 where
  pub id : ℕ
  pub slug : String
  pub name : String
  pub status : String

pub record Team : Type 0 where
  pub id : ℕ
  pub org_id : ℕ
  pub name : String
  pub slug : String
  pub description : Option String
  pub created_by : Option ℕ

pub data InvitationStatus : Type 0 where
  pending accepted expired revoked : InvitationStatus

abbrev pub is_pending : InvitationStatus → Bool
is_pending InvitationStatus.pending = true
is_pending _ = false

pub record Invitation : Type 0 where
  pub id : ℕ
  pub org_id : ℕ
  pub email : String
  pub role : OrgRole
  pub team_ids : List ℕ
  pub token_hash : String
  pub expires_at : ℕ
  pub status : InvitationStatus
  pub invited_by : ℕ

pub record RefreshToken : Type 0 where
  pub user_id : ℕ
  pub token_hash : String
  pub expires_at : ℕ
  pub revoked_at : Option ℕ

pub record PasswordResetToken : Type 0 where
  pub user_id : ℕ
  pub token_hash : String
  pub expires_at : ℕ
  pub used_at : Option ℕ

-- The tables.
pub record Db : Type 0 where
  pub users : List User
  pub orgs : List Org
  pub teams : List Team
  pub org_memberships : List OrgMembership
  pub team_memberships : List TeamMembership
  pub invitations : List Invitation
  pub refresh_tokens : List RefreshToken
  pub reset_tokens : List PasswordResetToken

-- The claims of an access token, whose encoding is a call of a library.
pub record Claims : Type 0 where
  pub sub : ℕ
  pub email : String
  pub is_platform_admin : Bool
  pub orgs : List (ℕ × OrgRole)
  pub exp : ℕ

-- The hashes, and the settings. A password is hashed with a salt.
pub record Platform : Type 0 where
  pub hash_password : String → String → String
  pub verify_password : String → String → Bool
  pub sha256 : String → String
  pub jwt_access_ttl : ℕ
  pub jwt_refresh_ttl : ℕ
  pub password_reset_ttl : ℕ
  pub invite_ttl : ℕ

-- What a request draws: the time, a random token and salt, and the identifiers of new rows.
pub record Draw : Type 0 where
  pub now : ℕ
  pub plain : String
  pub salt : String
  pub new_id : ℕ
  pub new_user_id : ℕ

abbrev pub has_email : String → User → Bool
has_email email u = u.email == email

abbrev pub has_id : ℕ → User → Bool
has_id id u = u.id == id

-- A new user: identifiers and addresses are unique.
unfoldable pub add_user : User → Db → Result ApiError Db
add_user user db = do
  users ← insert_row (λ u. u.id == user.id) user db.users
  guard (not (any (has_email user.email) db.users)) ApiError.integrity_error
  ok (record db { users = users })

-- The tables after a request: one that raises changes nothing.
abbrev pub kept {ℓ} : {A : Type ℓ} → (A → Db) → Db → Result ApiError A → Db
kept tables db (ok a) = tables a
kept tables db (err _) = db
