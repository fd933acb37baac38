-- ===== src/Identity/Auth/Tokens.antt =====
-- What each request of backend/app/api/v1/auth.py does to a refresh token that was revoked.
use apex_ai.Prelude.{
  find?-filter, find?-passes, ℕ, ◌+◌, ◌≡◌, ◌∙◌, refl, ap, inl, inr, Bool, true, false, Option, none,
  some, List, [], String, ◌==◌, ==_iff, string_eq, nat_eq, filter, any, Result, ok, err, >>=-eq-ok,
  Result-cases, Bool-cases, arith,
}
use mathlib.Core.Path.{subst}
use apex_ai.Identity.{RefreshToken, Db, Platform, Draw, User, add_user, kept}
use apex_ai.Identity.Tables.{ApiError, one_or_none, insert_row, modify, one_or_none-some}
use apex_ai.Identity.Tables.Spent.{Spent, insert_row-Spent, modify-Spent, modify-Spent_self}
use apex_ai.Identity.Auth.Inversion.{login-eq-ok, refresh-eq-ok}
use apex_ai.Identity.Auth.{
  TokenResponse, is_set, end_session, has_token, is_live, revoke, cookie_text, add_refresh_token,
  register_user, register, login, refresh, logout, forgot_password, reset_password,
}

abbrev pub is_revoked : RefreshToken → Bool
is_revoked t = is_set t.revoked_at

module _ (platform : Platform) where
  open platform use {sha256}

  -- A refresh token that was revoked.
  abbrev pub IsRevoked : String → Db → Type 0
  IsRevoked plain db = Spent (has_token (sha256 plain)) is_revoked db.refresh_tokens

  same_hash :
      (a b : String) (xs : List RefreshToken)
      → (a == b) ≡ true
      → any (has_token a) xs ≡ any (has_token b) xs
  same_hash a b xs h = ap (λ t. any (has_token t) xs) ((==_iff a b).0 h)

  add_refresh_token-IsRevoked :
      (plain : String) (d : Draw) (user_id : ℕ) (db : Db) {db' : Db}
      → IsRevoked plain db
      → add_refresh_token platform d user_id db ≡ ok db'
      → IsRevoked plain db'
  unfolding add_refresh_token
  add_refresh_token-IsRevoked plain d user_id db {db'} spent h =
      let row : RefreshToken = record {
        user_id = user_id;
        token_hash = sha256 d.plain;
        expires_at = d.now + platform.jwt_refresh_ttl;
        revoked_at = none;
      } in
      let (tokens, inserted, e) =
        >>=-eq-ok (insert_row (has_token (sha256 d.plain)) row db.refresh_tokens)
          (λ tokens. ok (record db { refresh_tokens = tokens })) h in
      let kept =
        insert_row-Spent (has_token (sha256 plain)) is_revoked (has_token (sha256 d.plain)) row
          db.refresh_tokens spent inserted
          (λ e known. same_hash (sha256 d.plain) (sha256 plain) db.refresh_tokens e ∙ known) in
      let e' : ◌≡◌ {A = List RefreshToken} tokens db'.refresh_tokens = cc in rw (← e') kept

  -- A new user changes no token.
  register_user-tokens :
      (d : Draw) (email password full_name : String) (db : Db) {user : User} {db' : Db}
      → register_user platform d email password full_name db ≡ ok (user, db')
      → db'.refresh_tokens ≡ db.refresh_tokens
  unfolding register_user add_user
  register_user-tokens d email password full_name db h = ground arith

  pub register-IsRevoked :
      (plain : String) (d : Draw) (email password full_name : String) (db : Db)
      → IsRevoked plain db
      → IsRevoked plain (register platform d email password full_name db).0
  unfolding register
  register-IsRevoked plain d email password full_name db spent =
      elim (Result-cases (register_user platform d email password full_name db)) [
        | inr (e, failed) ↦ rw (failed, register) spent
        | inl ((user, db'), done) ↦
            let same = register_user-tokens d email password full_name db done in
            let before : IsRevoked plain db' = rw same spent in
            elim (Result-cases (add_refresh_token platform d user.id db')) [
              | inr (e, failed) ↦ rw (done, failed, register) before
              | inl (db'', added) ↦
                  rw (done, added, register)
                    (add_refresh_token-IsRevoked plain d user.id db' before added)
            ]
      ]

  pub login-IsRevoked :
      (plain : String) (d : Draw) (email password : String) (db : Db) {r : Db × TokenResponse}
      → IsRevoked plain db
      → login platform d email password db ≡ ok r
      → IsRevoked plain r.0
  login-IsRevoked plain d email password db {r} spent h =
      let (user, db', found, verified, active, added, e) =
        login-eq-ok platform d email password db h in
      let kept = add_refresh_token-IsRevoked plain d user.id db spent added in
      let same : db'.refresh_tokens ≡ r.0.refresh_tokens = cc in
      subst (Spent (has_token (sha256 plain)) is_revoked) same kept

  -- The token that is revoked is another one, since it was live.
  revoke-IsRevoked :
      (plain used : String) (now : ℕ) (token : RefreshToken) (db : Db)
      → IsRevoked plain db
      → one_or_none (filter (has_token (sha256 used)) db.refresh_tokens) ≡ ok (some token)
      → is_revoked token ≡ false
      → Spent
          (has_token (sha256 plain))
          is_revoked
          (modify (has_token (sha256 used)) (revoke now) db.refresh_tokens)
  revoke-IsRevoked plain used now token db spent found live =
      let single = one_or_none-some (has_token (sha256 used)) db.refresh_tokens token found in
      let first = find?-filter (has_token (sha256 used)) db.refresh_tokens token [] single in
      modify-Spent (has_token (sha256 plain)) is_revoked (has_token (sha256 used)) (revoke now)
        db.refresh_tokens token spent first live refl

  is_live-not_revoked : (now : ℕ) (t : RefreshToken) → is_live now t ≡ true → is_revoked t ≡ false
  unfolding is_live
  is_live-not_revoked now t h = ground arith

  pub refresh-IsRevoked :
      (plain : String) (d : Draw) (cookie : Option String) (db : Db) {r : Db × TokenResponse}
      → IsRevoked plain db
      → refresh platform d cookie db ≡ ok r
      → IsRevoked plain r.0
  refresh-IsRevoked plain d cookie db {r} spent h =
      let (used, token, user, db', given, found, live, known, active, added, e) =
        refresh-eq-ok platform d cookie db h in
      let rotated : Db = record db {
        refresh_tokens = modify (has_token (sha256 used)) (revoke d.now) db.refresh_tokens;
      } in
      let before : IsRevoked plain rotated =
        revoke-IsRevoked plain used d.now token db spent found
          (is_live-not_revoked d.now token live) in
      let kept = add_refresh_token-IsRevoked plain d user.id rotated before added in
      let same : db'.refresh_tokens ≡ r.0.refresh_tokens = cc in
      subst (Spent (has_token (sha256 plain)) is_revoked) same kept

  -- What a refresh has used is revoked.
  pub refresh-revokes :
      (plain : String) (d : Draw) (db : Db) {r : Db × TokenResponse}
      → refresh platform d (some plain) db ≡ ok r
      → IsRevoked plain r.0
  refresh-revokes plain d db {r} h =
      let (used, token, user, db', given, found, live, known, active, added, e) =
        refresh-eq-ok platform d (some plain) db h in
      let e' : plain ≡ used = ground arith in
      let found' : one_or_none (filter (has_token (sha256 plain)) db.refresh_tokens)
          ≡ ok (some token) =
        rw e' found in
      let single = one_or_none-some (has_token (sha256 plain)) db.refresh_tokens token found' in
      let passes : has_token (sha256 plain) token ≡ true =
        find?-passes (has_token (sha256 plain)) db.refresh_tokens token
          (find?-filter (has_token (sha256 plain)) db.refresh_tokens token [] single) in
      let rotated : Db = record db {
        refresh_tokens = modify (has_token (sha256 plain)) (revoke d.now) db.refresh_tokens;
      } in
      let before : IsRevoked plain rotated =
        modify-Spent_self (has_token (sha256 plain)) is_revoked (revoke d.now) db.refresh_tokens
          token single passes refl in
      let added' : add_refresh_token platform d user.id rotated ≡ ok db' = rw e' added in
      let kept = add_refresh_token-IsRevoked plain d user.id rotated before added' in
      let same : db'.refresh_tokens ≡ r.0.refresh_tokens = cc in
      subst (Spent (has_token (sha256 plain)) is_revoked) same kept

  -- A revoked token is refused.
  pub refresh-refused :
      (plain : String) (d : Draw) (db : Db)
      → IsRevoked plain db
      → refresh platform d (some plain) db ≡ err (ApiError.http 401)
  unfolding refresh is_live
  refresh-refused plain d db (t, single, revoked) = elim (Bool-cases (plain == "")) [
    | inl empty ↦ rw empty
    | inr text ↦ rw (text, single) (ground arith)
  ]

  end_session-IsRevoked :
      (plain used : String) (now : ℕ) (found : Option RefreshToken) (db : Db)
      → IsRevoked plain db
      → one_or_none (filter (has_token (sha256 used)) db.refresh_tokens) ≡ ok found
      → IsRevoked plain (end_session platform now (sha256 used) found db)
  unfolding end_session
  end_session-IsRevoked plain used now none db spent e = spent
  end_session-IsRevoked plain used now (some token) db spent e =
      elim (Bool-cases (is_set token.revoked_at)) [
        | inl ended ↦ rw ended spent
        | inr live ↦ rw live (revoke-IsRevoked plain used now token db spent e live)
      ]

  pub logout-IsRevoked :
      (plain : String) (d : Draw) (cookie : Option String) (db : Db)
      → IsRevoked plain db
      → IsRevoked plain (kept (λ r. r) db (logout platform d cookie db))
  unfolding logout
  logout-IsRevoked plain d cookie db spent = elim (Result-cases (cookie_text cookie)) [
    | inr (e, missing) ↦ rw (missing, logout) spent
    | inl (used, given) ↦
        elim (Result-cases (one_or_none (filter (has_token (sha256 used)) db.refresh_tokens))) [
          | inr (e, several) ↦ rw (given, several, logout) spent
          | inl (found, e) ↦
              rw (given, e, logout) (end_session-IsRevoked plain used d.now found db spent e)
        ]
  ]

  pub forgot_password-tokens :
      (d : Draw) (email : String) (db : Db)
      → (kept (λ r. r.0) db (forgot_password platform d email db)).refresh_tokens
        ≡ db.refresh_tokens
  unfolding forgot_password
  forgot_password-tokens d email db = ground arith

  pub reset_password-tokens :
      (d : Draw) (plain new_password : String) (db : Db)
      → (kept (λ r. r) db (reset_password platform d plain new_password db)).refresh_tokens
        ≡ db.refresh_tokens
  unfolding reset_password
  reset_password-tokens d plain new_password db = ground arith

  pub kept-IsRevoked {ℓ} :
      {A : Type ℓ} (plain : String) (tables : A → Db) (db : Db) (r : Result ApiError A)
      → IsRevoked plain db
      → ((a : A) → r ≡ ok a → IsRevoked plain (tables a))
      → IsRevoked plain (kept tables db r)
  kept-IsRevoked plain tables db (ok a) spent done = done a refl
  kept-IsRevoked plain tables db (err e) spent done = spent
