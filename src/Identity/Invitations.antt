-- ===== src/Identity/Invitations.antt =====
-- backend/app/api/v1/invitations.py: invitations are created, listed, revoked and accepted.
pub mod Accepts
pub mod Once
use apex_ai.Prelude.{
  ℕ, ◌+◌, Bool, true, false, not, ◌&&◌, ◌||◌, Option, none, some, List, [], ◌∷◌, ◌++◌, String, ◌==◌,
  nat_eq, string_eq, if◌then◌else◌, filter, any, all, find?, leb, map, Result, ok, err, guard,
  ◌>>=◌, ◌>>◌,
}
use apex_ai.Access.{OrgRole, org_role_eq}
use apex_ai.Identity.{
  User, Org, Team, OrgMembership, MembershipStatus, is_active_status, TeamMembership, Invitation,
  InvitationStatus, is_pending, Db, Claims, Platform, Draw, has_email, has_id, add_user, kept,
}
use apex_ai.Identity.Tables.{ApiError, one_or_none, require, insert_row, modify}
use apex_ai.Identity.Orgs.{is_org, is_team, is_membership}

-- The check of the first three handlers: an active membership, and its role.
unfoldable pub require_inviter : Db → Claims → ℕ → Result ApiError (Unit {0})
require_inviter db current_user org_id = if current_user.is_platform_admin then ok tt else do
  found ← one_or_none (
      filter (λ m. is_membership org_id current_user.sub m && is_active_status m.status)
        db.org_memberships)
  membership ← require found (ApiError.http 403)
  guard (membership.role == OrgRole.admin) (ApiError.http 403)

abbrev pub is_invitation : ℕ → Invitation → Bool
is_invitation id i = i.id == id

abbrev pub has_invitation_token : String → Invitation → Bool
has_invitation_token token_hash i = i.token_hash == token_hash

unfoldable pub create_invitation :
    Platform → Draw → Claims → ℕ → String → OrgRole → List ℕ → Db → Result ApiError Db
create_invitation platform d current_user org_id email role team_ids db = do
  require_inviter db current_user org_id
  org ← require (find? (is_org org_id) db.orgs) (ApiError.http 404)
  let row : Invitation = record {
    id = d.new_id;
    org_id = org_id;
    email = email;
    role = role;
    team_ids = team_ids;
    token_hash = platform.sha256 d.plain;
    expires_at = d.now + platform.invite_ttl;
    status = InvitationStatus.pending;
    invited_by = current_user.sub;
  }
  invitations ←
      insert_row (λ i. is_invitation d.new_id i || has_invitation_token (platform.sha256 d.plain) i)
        row db.invitations
  ok (record db { invitations = invitations })

-- The rows of the response, without their order.
unfoldable pub list_org_invitations : Claims → ℕ → Db → Result ApiError (List Invitation)
list_org_invitations current_user org_id db = do
  require_inviter db current_user org_id
  ok (filter (λ i. i.org_id == org_id) db.invitations)

unfoldable pub revoke_invitation : Claims → ℕ → Db → Result ApiError Db
revoke_invitation current_user invitation_id db = do
  invitation ← require (find? (is_invitation invitation_id) db.invitations) (ApiError.http 404)
  require_inviter db current_user invitation.org_id
  guard (is_pending invitation.status) (ApiError.http 400)
  let revoked : Invitation → Invitation = λ i. record i { status = InvitationStatus.revoked }
  ok (record db { invitations = modify (is_invitation invitation_id) revoked db.invitations })

-- A pending invitation that has not expired.
unfoldable pub is_open : ℕ → Invitation → Bool
is_open now i = is_pending i.status && leb now i.expires_at

-- The user of the invitation's address: a new one, or the one there is, whose password is set.
unfoldable pub invited_user :
    Platform → Draw → String → String → String → Db → Result ApiError (ℕ × Db)
invited_user platform d email password full_name db = do
  found ← one_or_none (filter (has_email email) db.users)
  elim found [
    | none ↦ do
      let user : User = record {
        id = d.new_user_id;
        email = email;
        password_hash = platform.hash_password d.salt password;
        full_name = full_name;
        is_active = true;
        email_verified_at = some d.now;
        last_login_at = none;
      }
      db' ← add_user user db
      ok (user.id, db')
    | some user ↦
        let change : User → User = λ u. record u {
          password_hash = platform.hash_password d.salt password;
          is_active = true;
          email_verified_at = some d.now;
        } in
        ok (user.id, record db { users = modify (has_id user.id) change db.users })
  ]

abbrev pub joined : Draw → Invitation → ℕ → OrgMembership
joined d i user_id = record {
  org_id = i.org_id;
  user_id = user_id;
  role = i.role;
  status = MembershipStatus.active;
  joined_at = some d.now;
}

abbrev pub team_member : ℕ → ℕ → TeamMembership
team_member user_id team_id = record { team_id = team_id; user_id = user_id; team_role = "member" }

-- The row of a team that does not exist breaks a constraint.
unfoldable pub accept_invitation :
    Platform → Draw → String → String → String → Db → Result ApiError (Db × ℕ)
accept_invitation platform d plain password full_name db = do
  found ← one_or_none (filter (has_invitation_token (platform.sha256 plain)) db.invitations)
  invitation ← require found (ApiError.http 400)
  guard (is_open d.now invitation) (ApiError.http 400)
  (user_id, db') ← invited_user platform d invitation.email password full_name db
  guard (all (λ team_id. any (is_team team_id) db'.teams) invitation.team_ids)
      ApiError.integrity_error
  let finalized : Invitation → Invitation = λ i. record i { status = InvitationStatus.accepted }
  ok (
    record db' {
      org_memberships = db'.org_memberships ++ joined d invitation user_id ∷ [];
      team_memberships = db'.team_memberships ++ map (team_member user_id) invitation.team_ids;
      invitations = modify (has_invitation_token (platform.sha256 plain)) finalized db'.invitations;
    },
    user_id,
  )

-- The requests of this file that change rows, each with the user who makes it.
pub data InvitationRequest : Type 0 where
  invites : Claims → ℕ → String → OrgRole → List ℕ → InvitationRequest
  revokes : Claims → ℕ → InvitationRequest
  accepts : (plain password full_name : String) → InvitationRequest

unfoldable pub serve : Platform → Draw → InvitationRequest → Db → Db
serve platform d (invites user org_id email role team_ids) db =
    kept (λ db'. db') db (create_invitation platform d user org_id email role team_ids db)
serve platform d (revokes user id) db = kept (λ db'. db') db (revoke_invitation user id db)
serve platform d (accepts plain password full_name) db =
    kept (λ r. r.0) db (accept_invitation platform d plain password full_name db)

abbrev pub serve_all : Platform → List (Draw × InvitationRequest) → Db → Db
serve_all platform [] db = db
serve_all platform ((d, request) ∷ rest) db = serve_all platform rest (serve platform d request db)
