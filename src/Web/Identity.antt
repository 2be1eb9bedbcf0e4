-- ===== src/Web/Identity.antt =====
-- backend/app/modules/iam/api/routes.py. The rate limiters of the app are a state beside the tables;
-- their clock is monotonic, so that its moment is an argument.
use eventcommerce.Base.{ℕ, suc, String, Bool, true, false, Option, none, some, if◌then◌else◌}
use eventcommerce.Result.{
  Uuid, Error, Result, ok, err, duplicate_email, invalid_credentials, invalid_token,
}
use eventcommerce.Session.{Db, Action, pure, ◌>>=◌}
use eventcommerce.Iam.Domain.{User, UserRole, shopper, operator}
use eventcommerce.Iam.RateLimit.{
  Verdict, allowed, wait, index_error, Limiters, enforce_login_rate_limit,
  enforce_register_rate_limit,
}
use eventcommerce.Iam.Accounts.{AccountServices, register_user, authenticate_user}
use eventcommerce.Iam.Tokens.{TokenServices, issue_refresh_token, rotate_refresh_token}
use eventcommerce.Iam.Access.{JwtServices, JwtSettings, CurrentUser, issue_token}
use eventcommerce.Web.Response.{
  Detail, text, Response, success, failure, failed, Handler, Clauses, commits,
}
use eventcommerce.Web.Access.{Gate, behind}

pub record IdentityServices : Type 0 where
  pub accounts : AccountServices
  pub tokens : TokenServices
  pub jwt : JwtServices
  pub settings : JwtSettings

pub record UserResponse : Type 0 where
  pub user_id : Uuid
  pub email : String
  pub role : UserRole

-- `token_type` is always "bearer".
pub record TokenResponse : Type 0 where
  pub access_token : String
  pub refresh_token : String

abbrev pub user_response : User → UserResponse
user_response user = record { user_id = user.id; email = user.email; role = user.role }

abbrev pub role_text : UserRole → String
role_text shopper = "shopper"
role_text operator = "operator"

abbrev pub login_limit_detail : Detail
login_limit_detail = text "Too many login attempts, try again later"

abbrev pub register_limit_detail : Detail
register_limit_detail = text "Too many registration attempts, try again later"

-- The dependency on a limiter, then the route. The seconds to wait go into a header `Retry-After`.
abbrev pub rate_limited :
    {A : Type 0} → Detail → Handler A → Verdict × Limiters → Db → Response A × (Limiters × Db)
rate_limited detail route (allowed, limiters) db =
    let (response, db') = route db in (response, (limiters, db'))
rate_limited detail route (wait seconds, limiters) db = (failure 429 detail, (limiters, db))
rate_limited detail route (index_error, limiters) db =
    (failure 500 (text "Internal Server Error"), (limiters, db))

abbrev pub register_clauses : Clauses
register_clauses duplicate_email = some (409, text "Email already registered")
register_clauses _ = none

module _ (services : IdentityServices) where
  unfoldable pub register_route :
      Option String → ℕ → String → String → Limiters → Db → Response UserResponse × (Limiters × Db)
  register_route client moment email password limiters =
      rate_limited register_limit_detail
        (commits register_clauses 201 user_response
          (register_user services.accounts email password))
        (enforce_register_rate_limit client moment limiters)

  abbrev pub tokens_of : Result String → String → Response TokenResponse
  tokens_of (ok access_token) refresh_token =
      success 200 (record { access_token = access_token; refresh_token = refresh_token })
  tokens_of (err e) refresh_token = failed none

  -- The access token is issued after the commit.
  abbrev pub issued : User → String → Handler TokenResponse
  issued user refresh_token db = (
    tokens_of
        (issue_token services.jwt services.settings user.id user.email (role_text user.role)
          (db.next_times 0))
        refresh_token,
    record db { next_times = λ n. db.next_times (suc n) },
  )

  abbrev pub sign_in : String → String → Action (User × String)
  sign_in email password = do
    user ← authenticate_user services.accounts email password
    refresh_token ← issue_refresh_token services.tokens user.id
    pure (user, refresh_token)

  abbrev pub is_invalid_credentials : Error → Bool
  is_invalid_credentials invalid_credentials = true
  is_invalid_credentials _ = false

  abbrev pub after_login : Result (User × String) × Db → Handler TokenResponse
  after_login (ok (user, refresh_token), db') db = issued user refresh_token db'
  after_login (err e, db') db =
      if is_invalid_credentials e
      then (failure 401 (text "Invalid email or password"), db)
      else (failed none, db)

  unfoldable pub authenticate_and_issue : String → String → Handler TokenResponse
  authenticate_and_issue email password db = after_login (sign_in email password db) db

  unfoldable pub login_route :
      Option String → ℕ → String → String → Limiters → Db → Response TokenResponse × (Limiters × Db)
  login_route client moment email password limiters =
      rate_limited login_limit_detail (authenticate_and_issue email password) (
        enforce_login_rate_limit client (services.accounts.lower (services.accounts.strip email))
          moment limiters)

  abbrev pub is_invalid_token : Error → Bool
  is_invalid_token invalid_token = true
  is_invalid_token _ = false

  -- A rejected rotation is committed too.
  abbrev pub after_rotation : Result (User × String) × Db → Handler TokenResponse
  after_rotation (ok (user, successor), db') db = issued user successor db'
  after_rotation (err e, db') db =
      if is_invalid_token e
      then (failure 401 (text "Invalid or expired token"), db')
      else (failed none, db)

  unfoldable pub refresh_route : String → Handler TokenResponse
  refresh_route refresh_token db =
      after_rotation (rotate_refresh_token services.tokens refresh_token db) db

-- `me`: the body has all fields of the caller.
unfoldable pub me_route : Gate → Handler CurrentUser
me_route gate = behind gate (λ current db. (success 200 current, db))
