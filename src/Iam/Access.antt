-- ===== src/Iam/Access.antt =====
-- Access tokens: backend/app/modules/iam/application/tokens.py. PyJWT is a parameter: `encode` signs
-- claims, `decode` gives those of a token whose signature, issuer, audience, time of issue and expiry
-- it accepts at a moment, and `none` where it raises.
use eventcommerce.Base.{
  ℕ, ◌+◌, ◌*◌, String, Bool, false, not, Option, none, some, ◌==◌, string_eq, if◌then◌else◌,
}
use eventcommerce.Result.{Uuid, Time, Result, ok, err, invalid_token, jwt_configuration}

pub record JwtSettings : Type 0 where
  pub jwt_secret : String
  pub jwt_issuer : String
  pub jwt_audience : String
  pub jwt_expires_minutes : ℕ

-- The payload. A claim may be missing from one that another program has signed.
pub record TokenClaims : Type 0 where
  pub sub : Option String
  pub user_id : Option String
  pub email : Option String
  pub role : Option String
  pub iss : String
  pub aud : String
  pub iat : Time
  pub exp : Time
  pub purpose : Option String

pub record CurrentUser : Type 0 where
  pub user_id : Uuid
  pub email : String
  pub role : String

-- `encode claims secret`, `decode token secret issuer audience now`; `parse_uuid` is `UUID(text)`
-- with `none` for a ValueError.
pub record JwtServices : Type 0 where
  pub encode : TokenClaims → String → String
  pub decode : String → String → String → String → Time → Option TokenClaims
  pub strip : String → String
  pub parse_uuid : String → Option Uuid

module _ (services : JwtServices) (settings : JwtSettings) where
  -- `_require_config`
  abbrev pub is_configured : Bool
  is_configured =
      if services.strip settings.jwt_secret == ""
      then false
      else if services.strip settings.jwt_issuer == ""
      then false
      else not (services.strip settings.jwt_audience == "")

  abbrev pub claims_for : Uuid → String → String → Time → TokenClaims
  claims_for user_id email role now = record {
    sub = some user_id;
    user_id = some user_id;
    email = some email;
    role = some role;
    iss = settings.jwt_issuer;
    aud = settings.jwt_audience;
    iat = now;
    exp = now + settings.jwt_expires_minutes * 60;
    purpose = some "access";
  }

  unfoldable pub issue_token : Uuid → String → String → Time → Result String
  issue_token user_id email role now =
      if is_configured
      then ok (services.encode (claims_for user_id email role now) settings.jwt_secret)
      else err jwt_configuration

  abbrev pub is_access : Option String → Bool
  is_access none = false
  is_access (some purpose) = purpose == "access"

  abbrev pub user_with : Option Uuid → Option String → Option String → Result CurrentUser
  user_with (some user_id) (some email) (some role) =
      ok (record { user_id = user_id; email = email; role = role })
  user_with _ _ _ = err invalid_token

  abbrev pub parsed_id : Option String → Option Uuid
  parsed_id none = none
  parsed_id (some sub) = services.parse_uuid sub

  abbrev pub verified : Option TokenClaims → Result CurrentUser
  verified none = err invalid_token
  verified (some claims) =
      if not (is_access claims.purpose)
      then err invalid_token
      else user_with (parsed_id claims.sub) claims.email claims.role

  unfoldable pub verify_token : String → Time → Result CurrentUser
  verify_token token now =
      if is_configured
      then verified
          (services.decode token settings.jwt_secret settings.jwt_issuer settings.jwt_audience now)
      else err jwt_configuration
