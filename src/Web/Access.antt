-- ===== src/Web/Access.antt =====
-- Who calls: backend/app/modules/iam/api/dependencies.py.
use eventcommerce.Base.{
  ℕ, String, Bool, true, false, Option, none, some, List, [], ◌∷◌, contains, ◌==◌, string_eq,
  if◌then◌else◌,
}
use eventcommerce.Result.{Time, Error, Result, ok, err, jwt_configuration}
use eventcommerce.Iam.Access.{JwtServices, JwtSettings, CurrentUser, verify_token}
use eventcommerce.Web.Response.{Detail, text, failure, Handler}

-- The dependency gives a user, or raises an HTTPException.
pub data Gate : Type 0 where
  granted : CurrentUser → Gate
  denied : ℕ → Detail → Gate

abbrev pub is_jwt_configuration : Error → Bool
is_jwt_configuration jwt_configuration = true
is_jwt_configuration _ = false

abbrev pub gate_of : Result CurrentUser → Gate
gate_of (ok current) = granted current
gate_of (err e) =
    if is_jwt_configuration e
    then denied 500 (text "Authentication is not configured")
    else denied 401 (text "Invalid or expired token")

-- The text of the bearer token, where there is one.
unfoldable pub get_current_user : JwtServices → JwtSettings → Time → Option String → Gate
get_current_user services settings now none = denied 401 (text "Not authenticated")
get_current_user services settings now (some token) =
    if token == ""
    then denied 401 (text "Not authenticated")
    else gate_of (verify_token services settings token now)

unfoldable pub require_roles : List String → Gate → Gate
require_roles roles (denied status detail) = denied status detail
require_roles roles (granted current) =
    if contains current.role roles
    then granted current
    else denied 403 (text "Insufficient permissions")

abbrev pub operator_role : String
operator_role = "operator"

abbrev pub require_operator : Gate → Gate
require_operator gate = require_roles (operator_role ∷ []) gate

module _ {A : Type 0} where
  -- The body of a route runs for a user only.
  abbrev pub behind : Gate → (CurrentUser → Handler A) → Handler A
  behind (denied status detail) route db = (failure status detail, db)
  behind (granted current) route db = route current db
