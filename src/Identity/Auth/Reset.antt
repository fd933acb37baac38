-- ===== src/Identity/Auth/Reset.antt =====
-- From a forgotten password of backend/app/api/v1/auth.py to the next login.
use apex_ai.Prelude.{
  ℕ, ◌==◌, ◌∙◌, ap, map, ◌+◌, ◌≤◌, ◌≡◌, refl, Bool, true, false, none, some, List, [], ◌∷◌, ◌++◌,
  String, ==_refl, string_eq, nat_eq, filter, any, find?, ok, arith,
}
use apex_ai.Identity.{
  OrgMembership, MembershipStatus, is_active_status, Db, Platform, Draw, User, PasswordResetToken,
  has_email, has_id,
}
use apex_ai.Identity.Tables.{insert_row, modify}
use apex_ai.Identity.Tables.Spent.{filter-modify_found}
use apex_ai.Identity.Auth.{
  TokenResponse, has_token, has_reset, is_unused, mark_used, access_claims, add_refresh_token,
  build_orgs, login, forgot_password, reset_password,
}

-- An active membership of the user.
abbrev pub is_active_member : ℕ → OrgMembership → Bool
is_active_member user_id m = elim m.status [
  | MembershipStatus.active ↦ m.user_id == user_id
  | MembershipStatus.pending ↦ false
  | MembershipStatus.suspended ↦ false
]

build_orgs_rows :
    (user_id : ℕ) (ms : List OrgMembership)
    → filter (λ m. is_active_status m.status) (filter (λ m. m.user_id == user_id) ms)
      ≡ filter (is_active_member user_id) ms
build_orgs_rows user_id [] = refl
build_orgs_rows user_id (m ∷ ms) = ground (arith, build_orgs_rows user_id ms)

build_orgs_lem :
    (user_id : ℕ) (db : Db)
    → build_orgs user_id db
      ≡ map (λ m. (m.org_id, m.role)) (filter (is_active_member user_id) db.org_memberships)
unfolding build_orgs
build_orgs_lem user_id db =
    ap (map (λ m. (m.org_id, m.role))) (build_orgs_rows user_id db.org_memberships)

-- The row of a mailed token is the only one with its hash.
filter-insert_row_self {ℓ} :
    {A : Type ℓ} (p : A → Bool) (row : A) (xs : List A)
    → any p xs ≡ false
    → p row ≡ true
    → filter p (xs ++ row ∷ []) ≡ row ∷ []
filter-insert_row_self p row [] new passes = rw passes
filter-insert_row_self p row (x ∷ xs) new passes = ground (arith, filter-insert_row_self p row xs)

module _ (platform : Platform) where
  open platform use {hash_password, verify_password, sha256, password_reset_ttl}

  abbrev mailed : Draw → User → PasswordResetToken
  mailed d user = record {
    user_id = user.id;
    token_hash = sha256 d.plain;
    expires_at = d.now + password_reset_ttl;
    used_at = none;
  }

  abbrev renewed : Draw → String → User → User
  renewed d new_password u = record u { password_hash = hash_password d.salt new_password }

  module _ (d d' : Draw) (email new_password : String) (db : Db) (user : User) where
    -- The tables after the mail, and after the reset.
    abbrev after_mail : Db
    after_mail = record db { reset_tokens = db.reset_tokens ++ mailed d user ∷ [] }

    abbrev after_reset : Db
    after_reset = record after_mail {
      users = modify (has_id user.id) (renewed d' new_password) db.users;
      reset_tokens = modify (has_reset (sha256 d.plain)) (mark_used d'.now) after_mail.reset_tokens;
    }

    mails :
        filter (has_email email) db.users ≡ user ∷ []
        → any (has_reset (sha256 d.plain)) db.reset_tokens ≡ false
        → forgot_password platform d email db ≡ ok (after_mail, some d.plain)
    unfolding forgot_password insert_row
    mails known new = rw (known, new)

    resets_lem :
        find? (has_id user.id) db.users ≡ some user
        → any (has_reset (sha256 d.plain)) db.reset_tokens ≡ false
        → d'.now ≤ d.now + password_reset_ttl
        → reset_password platform d' d.plain new_password after_mail ≡ ok after_reset
    unfolding reset_password is_unused
    resets_lem keyed new soon =
        let single =
          filter-insert_row_self (has_reset (sha256 d.plain)) (mailed d user) db.reset_tokens new
            (==_refl (sha256 d.plain)) in
        rw (single, keyed) (ground arith)

    logs_in_lem :
        (d'' : Draw)
        → ((salt password : String) → verify_password password (hash_password salt password) ≡ true)
        → filter (has_email email) db.users ≡ user ∷ []
        → find? (has_id user.id) db.users ≡ some user
        → user.is_active ≡ true
        → any (has_token (sha256 d''.plain)) db.refresh_tokens ≡ false
        → (r : Db × TokenResponse) × (login platform d'' email new_password after_reset ≡ ok r)
          × (r.1.access.sub ≡ user.id)
          × (r.1.access.orgs ≡ build_orgs user.id db)
    unfolding login add_refresh_token insert_row build_orgs access_claims
    logs_in_lem d'' verifies known keyed active new =
        let found =
          filter-modify_found (has_email email) (has_id user.id) (renewed d' new_password) db.users
            user known keyed refl in
        let verified = verifies d'.salt new_password in
        rw (found, verified, active, new) (_, refl, refl, refl)

-- A forgotten password can be reset within the time that the settings give, with the token that is mailed, and
-- the user, if active, then logs in with the new password and gets the organisations and roles of
-- exactly the own memberships that are active, in the order of the rows. It rests on the
-- identifiers of users being keys, on new tokens whose hashes are not stored yet, and on a hash verifying its password.
pub forgot-reset-login :
    (platform : Platform)
    → ((salt password : String)
        → platform.verify_password password (platform.hash_password salt password) ≡ true)
    → (d d' d'' : Draw) (email new_password : String) (db : Db) (user : User)
    → filter (has_email email) db.users ≡ user ∷ []
    → find? (has_id user.id) db.users ≡ some user
    → user.is_active ≡ true
    → any (has_reset (platform.sha256 d.plain)) db.reset_tokens ≡ false
    → any (has_token (platform.sha256 d''.plain)) db.refresh_tokens ≡ false
    → d'.now ≤ d.now + platform.password_reset_ttl
    → (db' db'' : Db) × (r : Db × TokenResponse) × (forgot_password platform d email db
        ≡ ok (db', some d.plain))
      × (reset_password platform d' d.plain new_password db' ≡ ok db'')
      × (login platform d'' email new_password db'' ≡ ok r)
      × (r.1.access.sub ≡ user.id)
      × (r.1.access.orgs
          ≡ map (λ m. (m.org_id, m.role)) (filter (is_active_member user.id) db.org_memberships))
forgot-reset-login platform verifies d d' d'' email new_password db user known keyed active
      new_reset new soon =
    let (r, e, sub, orgs) =
      logs_in_lem platform d d' email new_password db user d'' verifies known keyed active new in
    (
      after_mail platform d d' email new_password db user,
      after_reset platform d d' email new_password db user,
      r,
      mails platform d d' email new_password db user known new_reset,
      resets_lem platform d d' email new_password db user keyed new_reset soon,
      e,
      sub,
      orgs ∙ build_orgs_lem user.id db,
    )
