-- ===== src/Tests/Identity.antt =====
-- The theorems about backend/app/api/v1/ at concrete inputs.
use apex_ai.Prelude.{
  map, ℕ, ◌≡◌, refl, true, false, none, some, List, [], ◌∷◌, String, ◌==◌, string_eq, nat_eq,
  filter, any, ok, err, Eq, arith,
}
use apex_ai.Access.{OrgRole, org_role_eq}
use apex_ai.Identity.{
  User, Org, Team, OrgMembership, MembershipStatus, Invitation, InvitationStatus, RefreshToken, Db,
  Claims, Platform, Draw,
}
use apex_ai.Identity.Tables.{ApiError, insert_row}
use apex_ai.Identity.Auth.{
  TokenResponse, AuthRequest, logs_in, logs_out, build_orgs, access_claims, add_refresh_token,
  is_live, login, refresh, forgot_password, reset_password, serve_all,
}
use apex_ai.Identity.Auth.Rotation.{refresh-once}
use apex_ai.Identity.Auth.Reset.{is_active_member, forgot-reset-login}
use apex_ai.Identity.Orgs.{is_membership, require_org_member}
use apex_ai.Identity.Invitations.{
  InvitationRequest, revokes, accepts, is_open, invited_user, joined, accept_invitation,
  has_invitation_token,
}
use apex_ai.Identity.Invitations
use apex_ai.Identity.Invitations.Accepts.{accept-require_org_member}
use apex_ai.Identity.Invitations.Once.{accept-once}
use apex_ai.Identity.Isolation.{
  OrgRequest, updates_org, creates_team, invites, answer_all, IsUntouched,
}
use apex_ai.Identity.Isolation.Requests.{answer_all-IsUntouched}
use apex_ai.Identity.Keys.{
  ai_keys, org, user, Credential, KeyStore, set_rows, set_secret, new_owner, create_credential,
  resolve_ai_key,
}
use apex_ai.Identity.Keys.Resolve.{
  IsOrder, IsResolved, resolve_ai_key-create_credential, resolve_ai_key-owned,
}

-- A password and a token stand for their own hashes.
abbrev platform : Platform
platform = record {
  hash_password = λ salt password. password;
  verify_password = λ password hash. password == hash;
  sha256 = λ plain. plain;
  jwt_access_ttl = 15;
  jwt_refresh_ttl = 1000;
  password_reset_ttl = 60;
  invite_ttl = 500;
}

abbrev ann : User
ann = record {
  id = 1;
  email = "ann@a.org";
  password_hash = "secret";
  full_name = "Ann";
  is_active = true;
  email_verified_at = none;
  last_login_at = none;
}

-- Ann administers the organisation 7, and is a member of none other.
abbrev ann_at_7 : OrgMembership
ann_at_7 = record {
  org_id = 7;
  user_id = 1;
  role = OrgRole.admin;
  status = MembershipStatus.active;
  joined_at = none;
}

abbrev org_of : ℕ → String → Org
org_of id slug = record { id = id; slug = slug; name = slug; status = "active" }

abbrev team_8 : Team
team_8 = record {
  id = 80;
  org_id = 8;
  name = "core";
  slug = "core";
  description = none;
  created_by = none;
}

abbrev invitation_7 : Invitation
invitation_7 = record {
  id = 70;
  org_id = 7;
  email = "ann@a.org";
  role = OrgRole.developer;
  team_ids = [];
  token_hash = "inv";
  expires_at = 500;
  status = InvitationStatus.pending;
  invited_by = 1;
}

abbrev token_1 : RefreshToken
token_1 = record { user_id = 1; token_hash = "t1"; expires_at = 100; revoked_at = none }

abbrev db : Db
db = record {
  users = ann ∷ [];
  orgs = org_of 7 "a" ∷ org_of 8 "b" ∷ [];
  teams = team_8 ∷ [];
  org_memberships = ann_at_7 ∷ [];
  team_memberships = [];
  invitations = invitation_7 ∷ [];
  refresh_tokens = token_1 ∷ [];
  reset_tokens = [];
}

abbrev draw : ℕ → String → Draw
draw now plain = record { now = now; plain = plain; salt = "s"; new_id = 90; new_user_id = 91 }

abbrev ann_claims : Claims
ann_claims = record {
  sub = 1;
  email = "ann@a.org";
  is_platform_admin = false;
  orgs = (7, OrgRole.admin) ∷ [];
  exp = 25;
}

-- What the first refresh returns.
abbrev refreshed : Db × TokenResponse
refreshed = (
  record db {
    refresh_tokens =
        record token_1 { revoked_at = some 10 }
        ∷ record { user_id = 1; token_hash = "t2"; expires_at = 1010; revoked_at = none }
        ∷ [];
  },
  record { access = ann_claims; refresh_token = "t2"; expires_in = 15 },
)

refreshes_once : refresh platform (draw 10 "t2") (some "t1") db ≡ ok refreshed
unfolding refresh is_live add_refresh_token insert_row build_orgs access_claims
refreshes_once = refl

abbrev later : List (Draw × AuthRequest)
later = (draw 11 "t3", logs_in "ann@a.org" "secret") ∷ (draw 12 "t4", logs_out (some "t2")) ∷ []

refresh-once_example :
    refresh platform (draw 20 "t5") (some "t1") (serve_all platform later refreshed.0)
    ≡ err (ApiError.http 401)
refresh-once_example =
    refresh-once platform (draw 10 "t2") (draw 20 "t5") "t1" db refreshed later refreshes_once

verifies :
    (salt password : String)
    → platform.verify_password password (platform.hash_password salt password) ≡ true
verifies salt password = (Eq.same_iff string_eq password password).1 refl

forgot-reset-login_example :
    (db' db'' : Db) × (r : Db × TokenResponse) × (forgot_password platform
        (draw 1 "mail")
        "ann@a.org"
        db
      ≡ ok (db', some "mail"))
    × (reset_password platform (draw 9 "x") "mail" "secret2" db' ≡ ok db'')
    × (login platform (draw 10 "t2") "ann@a.org" "secret2" db'' ≡ ok r)
    × (r.1.access.sub ≡ 1)
    × (r.1.access.orgs
        ≡ map (λ m. (m.org_id, m.role)) (filter (is_active_member 1) db.org_memberships))
forgot-reset-login_example =
    forgot-reset-login platform verifies (draw 1 "mail") (draw 9 "x") (draw 10 "t2") "ann@a.org"
      "secret2" db ann refl refl refl refl refl (omega arith)

-- Ann's requests on her own organisation and on the other one.
abbrev requests : List (Draw × Claims × OrgRequest)
requests =
    (draw 1 "x", ann_claims, updates_org 8 (some "mine") none)
    ∷ (draw 2 "x", ann_claims, creates_team 7 "ops" "ops" none)
    ∷ (draw 3 "y", ann_claims, invites 8 "bob@b.org" OrgRole.admin (80 ∷ []))
    ∷ []

answer_all-IsUntouched_example : IsUntouched 8 db (answer_all platform requests db)
answer_all-IsUntouched_example =
    answer_all-IsUntouched platform 8 requests db ((refl, refl), ((refl, refl), ((refl, refl), tt)))

abbrev accepted_db : Db × ℕ
accepted_db = (
  record db {
    users = record ann { password_hash = "new"; email_verified_at = some 20 } ∷ [];
    org_memberships = ann_at_7 ∷ joined (draw 20 "x") invitation_7 1 ∷ [];
    invitations = record invitation_7 { status = InvitationStatus.accepted } ∷ [];
  },
  1,
)

accepts_once : accept_invitation platform (draw 20 "x") "inv" "new" "Ann" db ≡ ok accepted_db
unfolding accept_invitation is_open invited_user
accepts_once = refl

accept-once_example :
    accept_invitation platform (draw 40 "z") "inv" "other" "Eve" (
      Invitations.serve_all platform
        ((draw 30 "y", revokes ann_claims 70) ∷ (draw 31 "y", accepts "inv" "p" "Eve") ∷ [])
        accepted_db.0)
    ≡ err (ApiError.http 400)
accept-once_example =
    accept-once platform (draw 20 "x") (draw 40 "z") "inv" "new" "Ann" "other" "Eve" db accepted_db
      ((draw 30 "y", revokes ann_claims 70) ∷ (draw 31 "y", accepts "inv" "p" "Eve") ∷ [])
      accepts_once

-- Ann was a member already.
accept-require_org_member_example :
    (i : Invitation) × (filter (has_invitation_token "inv") db.invitations ≡ i ∷ [])
    × (any (is_membership i.org_id 1) db.org_memberships ≡ false
        → require_org_member accepted_db.0 ann_claims i.org_id
          ≡ ok (record {
            org_id = i.org_id;
            user_id = 1;
            role = i.role;
            status = MembershipStatus.active;
            joined_at = some 20;
          }))
    × (any (is_membership i.org_id 1) db.org_memberships ≡ true
        → require_org_member accepted_db.0 ann_claims i.org_id ≡ err ApiError.multiple_results)
accept-require_org_member_example =
    accept-require_org_member platform (draw 20 "x") "inv" "new" "Ann" db accepted_db ann_claims
      accepts_once refl refl

abbrev no_keys : KeyStore
no_keys = record { rows = λ _. []; vault = λ _. none; org_memberships = ann_at_7 ∷ [] }

as_stored-IsOrder : IsOrder (λ keys. keys)
as_stored-IsOrder = record { only = λ xs k m. m; some_row = λ xs e. e }

-- Ann's key, and the key of her organisation.
abbrev key_of_7 : Credential
key_of_7 = record {
  id = 3;
  owner = org 7;
  provider = "openai";
  label = "shared";
  vault_path = record { owner = org 7; folder = ai_keys; id = 3 };
  is_active = true;
  last_used_at = none;
}

abbrev own_key : Credential
own_key = record key_of_7 {
  id = 4;
  owner = user 1;
  label = "mine";
  vault_path = record { owner = user 1; folder = ai_keys; id = 4 };
}

abbrev with_key_of_7 : KeyStore
with_key_of_7 =
    set_rows ai_keys (key_of_7 ∷ []) (set_secret key_of_7.vault_path (some "sk-7") no_keys)

abbrev with_own_key : KeyStore
with_own_key =
    set_rows ai_keys (key_of_7 ∷ own_key ∷ [])
      (set_secret own_key.vault_path (some "sk-1") with_key_of_7)

creates_own :
    create_credential ai_keys true 4 ann_claims none "openai" "mine" "sk-1" with_key_of_7
    ≡ (with_own_key, ok own_key)
unfolding create_credential new_owner insert_row
creates_own = refl

resolve_ai_key-create_credential_example :
    (resolve_ai_key (λ keys. keys) 9 7 1 "openai" with_own_key).1 ≡ ok "sk-1"
resolve_ai_key-create_credential_example =
    resolve_ai_key-create_credential (λ keys. keys) as_stored-IsOrder 9 4 7 ann_claims "openai"
      "mine" "sk-1" with_key_of_7 with_own_key own_key creates_own refl

abbrev used_key : KeyStore
used_key = set_rows ai_keys (record key_of_7 { last_used_at = some 9 } ∷ []) with_key_of_7

resolves_shared : resolve_ai_key (λ keys. keys) 9 7 1 "openai" with_key_of_7 ≡ (used_key, ok "sk-7")
unfolding resolve_ai_key
resolves_shared = refl

resolve_ai_key-owned_example :
    (k : Credential) × IsResolved 7 1 "openai" with_key_of_7 k
    × (with_key_of_7.vault k.vault_path ≡ some "sk-7")
resolve_ai_key-owned_example =
    resolve_ai_key-owned (λ keys. keys) as_stored-IsOrder 9 7 1 "openai" with_key_of_7 used_key
      "sk-7" resolves_shared
