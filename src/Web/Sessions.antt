-- ===== src/Web/Sessions.antt =====
-- The refresh route over the rotation: backend/app/modules/iam/api/routes.py.
use eventcommerce.Base.{String, ◌≡◌, refl, true, false, some, All, leb, ◌==◌, string_eq}
use eventcommerce.Result.{Result, ok, err, invalid_token}
use eventcommerce.Session.{Db}
use eventcommerce.Iam.Domain.{User, RefreshToken}
use eventcommerce.Iam.Tokens.{token_row, is_set, rotate_refresh_token}
use eventcommerce.Iam.Families.{ended_in, rotate_refresh_token-replay}
use eventcommerce.Web.Response.{text, failure}
use eventcommerce.Web.Identity.{IdentityServices, refresh_route, after_rotation}

module _ (services : IdentityServices) where
  rejected :
      (r : Result (User × String) × Db) (db : Db)
      → r.0 ≡ err invalid_token
      → after_rotation services r db ≡ (failure 401 (text "Invalid or expired token"), r.1)
  rejected (ok pair, db') db h = cc h
  rejected (err e, db') db h = let same : e ≡ invalid_token = cc h in rw same refl

  -- A replayed refresh token is answered with status 401, and although the request fails the session
  -- is committed: afterwards every token of the family is revoked in the tables.
  pub refresh_route-replay :
      (refresh_token : String) (stored : RefreshToken) (db : Db)
      → (services.tokens.strip refresh_token == "") ≡ false
      → token_row (services.tokens.hash_refresh_token (services.tokens.strip refresh_token)) db
        ≡ some stored
      → is_set stored.revoked_at ≡ false
      → leb stored.expires_at (db.next_times 0) ≡ false
      → is_set stored.consumed_at ≡ true
      → ((refresh_route services refresh_token db).0
          ≡ failure 401 (text "Invalid or expired token"))
        × All
            (λ token. ended_in stored.family_id token ≡ true)
            (refresh_route services refresh_token db).1.refresh_tokens
  unfolding refresh_route
  refresh_route-replay refresh_token stored db given found live current consumed =
      let rotation = rotate_refresh_token services.tokens refresh_token db in
      let replay =
        rotate_refresh_token-replay services.tokens refresh_token stored db given found live current
          consumed in
      rw (rejected rotation db replay.0) (refl, replay.1)
