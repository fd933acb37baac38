-- ===== src/Identity/Auth/Inversion.antt =====
-- What a successful request of backend/app/api/v1/auth.py has passed, and what it has changed.
use apex_ai.Prelude.{
  ℕ, ◌≡◌, refl, Bool, true, false, Option, none, some, String, string_eq, nat_eq, filter, find?, ok,
  guard, >>=-eq-ok, arith,
}
use apex_ai.Identity.{Db, Platform, Draw, User, RefreshToken, PasswordResetToken, has_email, has_id}
use apex_ai.Identity.Tables.{ApiError, one_or_none, require, modify}
use apex_ai.Identity.Auth.{
  TokenResponse, has_token, has_reset, is_live, is_unused, revoke, mark_used, cookie_text,
  add_refresh_token, build_orgs, token_response, login, refresh, reset_password,
}

pub guard_lem : (b : Bool) (e : ApiError) {u : Unit {0}} → guard b e ≡ ok u → b ≡ true
guard_lem true e h = refl
guard_lem false e h = cc

pub require_lem {ℓ} :
    {A : Type ℓ} (o : Option A) (e : ApiError) {a : A} → require o e ≡ ok a → o ≡ some a
require_lem none e h = cc
require_lem (some a) e h = ground arith

module _ (platform : Platform) where
  open platform use {sha256, verify_password, hash_password}

  -- The row of a user after a login.
  abbrev pub seen : ℕ → User → User
  seen now u = record u { last_login_at = some now }

  pub login-eq-ok :
      (d : Draw) (email password : String) (db : Db) {r : Db × TokenResponse}
      → login platform d email password db ≡ ok r
      → (user : User) × (db' : Db) × (one_or_none (filter (has_email email) db.users)
          ≡ ok (some user))
        × (verify_password password user.password_hash ≡ true)
        × (user.is_active ≡ true)
        × (add_refresh_token platform d user.id db ≡ ok db')
        × (r ≡ (
          record db' { users = modify (has_id user.id) (seen d.now) db'.users },
          token_response platform d user (build_orgs user.id db),
        ))
  unfolding login
  login-eq-ok d email password db {r} h =
      let (found, e1, h1) = >>=-eq-ok (one_or_none (filter (has_email email) db.users)) _ h in
      let (user, e2, h2) = >>=-eq-ok (require found (ApiError.http 401)) _ h1 in
      let (_, e3, h3) =
        >>=-eq-ok (guard (verify_password password user.password_hash) (ApiError.http 401)) _ h2 in
      let (_, e4, h4) = >>=-eq-ok (guard user.is_active (ApiError.http 403)) _ h3 in
      let (db', added, h5) = >>=-eq-ok (add_refresh_token platform d user.id db) _ h4 in
      (
        user,
        db',
        cc (require_lem found (ApiError.http 401) e2),
        guard_lem _ _ e3,
        guard_lem _ _ e4,
        added,
        cc,
      )

  pub refresh-eq-ok :
      (d : Draw) (cookie : Option String) (db : Db) {r : Db × TokenResponse}
      → refresh platform d cookie db ≡ ok r
      → (plain : String) × (token : RefreshToken) × (user : User) × (db' : Db) × (cookie_text cookie
          ≡ ok plain)
        × (one_or_none (filter (has_token (sha256 plain)) db.refresh_tokens) ≡ ok (some token))
        × (is_live d.now token ≡ true)
        × (find? (has_id token.user_id) db.users ≡ some user)
        × (user.is_active ≡ true)
        × (add_refresh_token platform d user.id (record db {
          refresh_tokens = modify (has_token (sha256 plain)) (revoke d.now) db.refresh_tokens;
        })
            ≡ ok db')
        × (r ≡ (db', token_response platform d user (build_orgs user.id db)))
  unfolding refresh
  refresh-eq-ok d cookie db {r} h =
      let (plain, e0, h0) = >>=-eq-ok (cookie_text cookie) _ h in
      let (found, e1, h1) =
        >>=-eq-ok (one_or_none (filter (has_token (sha256 plain)) db.refresh_tokens)) _ h0 in
      let (token, e2, h2) = >>=-eq-ok (require found (ApiError.http 401)) _ h1 in
      let (_, e3, h3) = >>=-eq-ok (guard (is_live d.now token) (ApiError.http 401)) _ h2 in
      let (user, e4, h4) =
        >>=-eq-ok (require (find? (has_id token.user_id) db.users) (ApiError.http 401)) _ h3 in
      let (_, e5, h5) = >>=-eq-ok (guard user.is_active (ApiError.http 401)) _ h4 in
      let rotated : Db = record db {
        refresh_tokens = modify (has_token (sha256 plain)) (revoke d.now) db.refresh_tokens;
      } in
      let (db', added, h6) = >>=-eq-ok (add_refresh_token platform d user.id rotated) _ h5 in
      (
        plain,
        token,
        user,
        db',
        e0,
        cc (require_lem found (ApiError.http 401) e2),
        guard_lem _ _ e3,
        require_lem _ _ e4,
        guard_lem _ _ e5,
        added,
        cc,
      )

  pub reset_password-eq-ok :
      (d : Draw) (plain new_password : String) (db : Db) {db' : Db}
      → reset_password platform d plain new_password db ≡ ok db'
      → (token : PasswordResetToken) × (user : User) × (one_or_none
            (filter (has_reset (sha256 plain)) db.reset_tokens)
          ≡ ok (some token))
        × (is_unused d.now token ≡ true)
        × (find? (has_id token.user_id) db.users ≡ some user)
        × (db' ≡ record db {
          users =
              modify
                (has_id user.id)
                (λ u. record u { password_hash = hash_password d.salt new_password })
                db.users;
          reset_tokens = modify (has_reset (sha256 plain)) (mark_used d.now) db.reset_tokens;
        })
  unfolding reset_password
  reset_password-eq-ok d plain new_password db h =
      let (found, e1, h1) =
        >>=-eq-ok (one_or_none (filter (has_reset (sha256 plain)) db.reset_tokens)) _ h in
      let (token, e2, h2) = >>=-eq-ok (require found (ApiError.http 400)) _ h1 in
      let (_, e3, h3) = >>=-eq-ok (guard (is_unused d.now token) (ApiError.http 400)) _ h2 in
      let (user, e4, h4) =
        >>=-eq-ok (require (find? (has_id token.user_id) db.users) (ApiError.http 400)) _ h3 in
      (
        token,
        user,
        cc (require_lem found (ApiError.http 400) e2),
        guard_lem _ _ e3,
        require_lem _ _ e4,
        cc,
      )
