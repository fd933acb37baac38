-- ===== src/Identity/Auth/Rotation.antt =====
-- A refresh token of backend/app/api/v1/auth.py is good for one refresh.
use apex_ai.Prelude.{◌≡◌, some, List, [], ◌∷◌, String, string_eq, nat_eq, ok, err}
use apex_ai.Identity.{Db, Platform, Draw}
use apex_ai.Identity.Tables.{ApiError}
use apex_ai.Identity.Auth.{
  AuthRequest, registers, logs_in, refreshes, logs_out, forgets, resets, serve, serve_all,
  TokenResponse, login, refresh,
}
use apex_ai.Identity.Auth.Tokens.{
  IsRevoked, register-IsRevoked, login-IsRevoked, refresh-IsRevoked, refresh-revokes,
  refresh-refused, logout-IsRevoked, forgot_password-tokens, reset_password-tokens, kept-IsRevoked,
}

module _ (platform : Platform) where
  serve-IsRevoked :
      (plain : String) (d : Draw) (request : AuthRequest) (db : Db)
      → IsRevoked platform plain db
      → IsRevoked platform plain (serve platform d request db)
  unfolding serve
  serve-IsRevoked plain d (registers email password name) db spent =
      register-IsRevoked platform plain d email password name db spent
  serve-IsRevoked plain d (logs_in email password) db spent =
      kept-IsRevoked platform plain (λ r. r.0) db (login platform d email password db) spent
        (λ r h. login-IsRevoked platform plain d email password db spent h)
  serve-IsRevoked plain d (refreshes cookie) db spent =
      kept-IsRevoked platform plain (λ r. r.0) db (refresh platform d cookie db) spent
        (λ r h. refresh-IsRevoked platform plain d cookie db spent h)
  serve-IsRevoked plain d (logs_out cookie) db spent =
      logout-IsRevoked platform plain d cookie db spent
  serve-IsRevoked plain d (forgets email) db spent =
      rw (forgot_password-tokens platform d email db) spent
  serve-IsRevoked plain d (resets used new_password) db spent =
      rw (reset_password-tokens platform d used new_password db) spent

  serve_all-IsRevoked :
      (plain : String) (later : List (Draw × AuthRequest)) (db : Db)
      → IsRevoked platform plain db
      → IsRevoked platform plain (serve_all platform later db)
  serve_all-IsRevoked plain [] db spent = spent
  serve_all-IsRevoked plain ((d, request) ∷ later) db spent =
      serve_all-IsRevoked plain later (serve platform d request db)
        (serve-IsRevoked plain d request db spent)

-- A refresh token is good for one refresh: once a refresh with it has succeeded, every later refresh with it
-- raises 401, whatever requests of authentication come between.
pub refresh-once :
    (platform : Platform) (d d' : Draw) (plain : String) (db : Db) (r : Db × TokenResponse)
    (later : List (Draw × AuthRequest))
    → refresh platform d (some plain) db ≡ ok r
    → refresh platform d' (some plain) (serve_all platform later r.0) ≡ err (ApiError.http 401)
refresh-once platform d d' plain db r later h =
    refresh-refused platform plain d' (serve_all platform later r.0)
      (serve_all-IsRevoked platform plain later r.0 (refresh-revokes platform plain d db h))
