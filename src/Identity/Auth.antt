-- ===== src/Identity/Auth.antt =====
-- backend/app/api/v1/auth.py: registration, login, the rotation of refresh tokens, logout, and the reset of
-- a password. The cookies and the audit log are left out.
pub mod Inversion
pub mod Reset
pub mod Tokens
pub mod Rotation
use apex_ai.Prelude.{
  ℕ, ◌+◌, Bool, true, false, not, ◌&&◌, Option, none, some, List, [], ◌∷◌, String, ◌==◌, nat_eq,
  string_eq, if◌then◌else◌, filter, find?, leb, map, Result, ok, err, guard, ◌>>=◌, ◌>>◌,
}
use apex_ai.Access.{OrgRole}
use apex_ai.Identity.{
  User, OrgMembership, is_active_status, RefreshToken, PasswordResetToken, Db, Claims, Platform,
  Draw, has_email, has_id, add_user, kept,
}
use apex_ai.Identity.Tables.{ApiError, one_or_none, require, insert_row, modify}

pub record TokenResponse : Type 0 where
  pub access : Claims
  pub refresh_token : String
  pub expires_in : ℕ

-- `_build_orgs`
unfoldable pub build_orgs : ℕ → Db → List (ℕ × OrgRole)
build_orgs user_id db =
    let own = filter (λ m. m.user_id == user_id) db.org_memberships in
    map (λ m. (m.org_id, m.role)) (filter (λ m. is_active_status m.status) own)

abbrev pub has_token : String → RefreshToken → Bool
has_token token_hash t = t.token_hash == token_hash

abbrev pub has_reset : String → PasswordResetToken → Bool
has_reset token_hash t = t.token_hash == token_hash

abbrev pub is_set : Option ℕ → Bool
is_set none = false
is_set (some _) = true

-- A token that is neither revoked nor expired.
unfoldable pub is_live : ℕ → RefreshToken → Bool
is_live now t = not (is_set t.revoked_at) && leb now t.expires_at

unfoldable pub is_unused : ℕ → PasswordResetToken → Bool
is_unused now t = not (is_set t.used_at) && leb now t.expires_at

abbrev pub revoke : ℕ → RefreshToken → RefreshToken
revoke now t = record t { revoked_at = some now }

abbrev pub mark_used : ℕ → PasswordResetToken → PasswordResetToken
mark_used now t = record t { used_at = some now }

-- A cookie that is missing or empty.
abbrev pub cookie_text : Option String → Result ApiError String
cookie_text none = err (ApiError.http 401)
cookie_text (some text) = if text == "" then err (ApiError.http 401) else ok text

module _ (platform : Platform) where
  open platform use {
    hash_password, verify_password, sha256, jwt_access_ttl, jwt_refresh_ttl, password_reset_ttl,
  }

  -- `create_access_token`, as the handlers call it.
  unfoldable pub access_claims : ℕ → User → List (ℕ × OrgRole) → Claims
  access_claims now user orgs = record {
    sub = user.id;
    email = user.email;
    is_platform_admin = false;
    orgs = orgs;
    exp = now + jwt_access_ttl;
  }

  abbrev pub token_response : Draw → User → List (ℕ × OrgRole) → TokenResponse
  token_response d user orgs = record {
    access = access_claims d.now user orgs;
    refresh_token = d.plain;
    expires_in = jwt_access_ttl;
  }

  -- A new refresh token of a user: the hash is stored.
  unfoldable pub add_refresh_token : Draw → ℕ → Db → Result ApiError Db
  add_refresh_token d user_id db = do
    let token_hash = sha256 d.plain
    let row : RefreshToken = record {
      user_id = user_id;
      token_hash = token_hash;
      expires_at = d.now + jwt_refresh_ttl;
      revoked_at = none;
    }
    tokens ← insert_row (has_token token_hash) row db.refresh_tokens
    ok (record db { refresh_tokens = tokens })

  -- The first half of `register`: the user is committed.
  unfoldable pub register_user : Draw → String → String → String → Db → Result ApiError (User × Db)
  register_user d email password full_name db = do
    existing ← one_or_none (filter (has_email email) db.users)
    guard (elim existing [ none ↦ true | some _ ↦ false ]) (ApiError.http 409)
    let user : User = record {
      id = d.new_user_id;
      email = email;
      password_hash = hash_password d.salt password;
      full_name = full_name;
      is_active = true;
      email_verified_at = none;
      last_login_at = none;
    }
    db' ← add_user user db
    ok (user, db')

  -- `register` commits twice: a clash of the token leaves the user.
  unfoldable pub register :
      Draw → String → String → String → Db → Db × Result ApiError TokenResponse
  register d email password full_name db = elim (register_user d email password full_name db) [
    | err e ↦ (db, err e)
    | ok (user, db') ↦ elim (add_refresh_token d user.id db') [
      | err e ↦ (db', err e)
      | ok db'' ↦ (db'', ok (token_response d user []))
    ]
  ]

  unfoldable pub login : Draw → String → String → Db → Result ApiError (Db × TokenResponse)
  login d email password db = do
    found ← one_or_none (filter (has_email email) db.users)
    user ← require found (ApiError.http 401)
    guard (verify_password password user.password_hash) (ApiError.http 401)
    guard user.is_active (ApiError.http 403)
    db' ← add_refresh_token d user.id db
    let seen : User → User = λ u. record u { last_login_at = some d.now }
    ok (
      record db' { users = modify (has_id user.id) seen db'.users },
      token_response d user (build_orgs user.id db),
    )

  unfoldable pub refresh : Draw → Option String → Db → Result ApiError (Db × TokenResponse)
  refresh d cookie db = do
    plain ← cookie_text cookie
    found ← one_or_none (filter (has_token (sha256 plain)) db.refresh_tokens)
    token ← require found (ApiError.http 401)
    guard (is_live d.now token) (ApiError.http 401)
    user ← require (find? (has_id token.user_id) db.users) (ApiError.http 401)
    guard user.is_active (ApiError.http 401)
    let rotated : Db = record db {
      refresh_tokens = modify (has_token (sha256 plain)) (revoke d.now) db.refresh_tokens;
    }
    db' ← add_refresh_token d user.id rotated
    ok (db', token_response d user (build_orgs user.id db))

  -- The token of a logout is revoked, if there is one and it is not revoked yet.
  unfoldable pub end_session : ℕ → String → Option RefreshToken → Db → Db
  end_session now token_hash none db = db
  end_session now token_hash (some token) db = if is_set token.revoked_at then db else record db {
    refresh_tokens = modify (has_token token_hash) (revoke now) db.refresh_tokens;
  }

  unfoldable pub logout : Draw → Option String → Db → Result ApiError Db
  unfolding end_session
  logout d cookie db = elim (cookie_text cookie) [
    | err _ ↦ ok db
    | ok plain ↦ do
      found ← one_or_none (filter (has_token (sha256 plain)) db.refresh_tokens)
      ok (end_session d.now (sha256 plain) found db)
  ]

  -- The token that is mailed, if the address is known; the response is the same.
  unfoldable pub forgot_password : Draw → String → Db → Result ApiError (Db × Option String)
  forgot_password d email db = do
    found ← one_or_none (filter (has_email email) db.users)
    elim found [
      | none ↦ ok (db, none)
      | some user ↦ do
        let row : PasswordResetToken = record {
          user_id = user.id;
          token_hash = sha256 d.plain;
          expires_at = d.now + password_reset_ttl;
          used_at = none;
        }
        tokens ← insert_row (has_reset (sha256 d.plain)) row db.reset_tokens
        ok (record db { reset_tokens = tokens }, some d.plain)
    ]

  unfoldable pub reset_password : Draw → String → String → Db → Result ApiError Db
  reset_password d plain new_password db = do
    found ← one_or_none (filter (has_reset (sha256 plain)) db.reset_tokens)
    token ← require found (ApiError.http 400)
    guard (is_unused d.now token) (ApiError.http 400)
    user ← require (find? (has_id token.user_id) db.users) (ApiError.http 400)
    let renewed : User → User = λ u. record u { password_hash = hash_password d.salt new_password }
    ok (record db {
      users = modify (has_id user.id) renewed db.users;
      reset_tokens = modify (has_reset (sha256 plain)) (mark_used d.now) db.reset_tokens;
    })

-- The requests of this file.
pub data AuthRequest : Type 0 where
  registers : (email password full_name : String) → AuthRequest
  logs_in : (email password : String) → AuthRequest
  refreshes : Option String → AuthRequest
  logs_out : Option String → AuthRequest
  forgets : String → AuthRequest
  resets : (plain new_password : String) → AuthRequest

module _ (platform : Platform) where
  -- The tables after a request.
  unfoldable pub serve : Draw → AuthRequest → Db → Db
  serve d (registers email password name) db = (register platform d email password name db).0
  serve d (logs_in email password) db = kept (λ r. r.0) db (login platform d email password db)
  serve d (refreshes cookie) db = kept (λ r. r.0) db (refresh platform d cookie db)
  serve d (logs_out cookie) db = kept (λ r. r) db (logout platform d cookie db)
  serve d (forgets email) db = kept (λ r. r.0) db (forgot_password platform d email db)
  serve d (resets plain new_password) db =
      kept (λ r. r) db (reset_password platform d plain new_password db)

  abbrev pub serve_all : List (Draw × AuthRequest) → Db → Db
  serve_all [] db = db
  serve_all ((d, request) ∷ rest) db = serve_all rest (serve d request db)
