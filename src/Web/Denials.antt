-- ===== src/Web/Denials.antt =====
-- Who is turned away, and what that person learns: the role gate of
-- backend/app/modules/iam/api/dependencies.py and `_ensure_owner_or_operator` of
-- backend/app/modules/orders/api/routes.py.
use eventcommerce.Base.{
  ℕ, String, ◌≡◌, ◌≢◌, ◌⊎◌, inl, inr, refl, ap, false, Option, none, some, ◌==◌, string_eq, eq_iff,
  arith, Bool-cases,
}
use eventcommerce.Result.{Uuid, Time, Result, ok, err}
use eventcommerce.Session.{Db}
use eventcommerce.Orders.Domain.{Order}
use eventcommerce.Orders.Repository.{order_row}
use eventcommerce.Orders.UseCases.{get_order_missing, get_order_found}
use eventcommerce.Iam.Access.{JwtServices, JwtSettings, CurrentUser, verify_token}
use eventcommerce.Web.Response.{Detail, text, failure}
use eventcommerce.Web.Access.{
  Gate, granted, denied, gate_of, get_current_user, require_roles, require_operator, operator_role,
  is_jwt_configuration,
}
use eventcommerce.Web.Products.{create_product_route, update_product_route}
use eventcommerce.Web.Operator.{list_order_queue_route, list_catalog_route, simulate_payment_route}
use eventcommerce.Web.Orders.{
  confirm_order_route, cancel_order_route, adjust_stock_route, get_order_route, get_timeline_route,
  order_missing, is_owner_or_operator,
}
use eventcommerce.Web.Requests.{RouteServices, OperatorRequest, operator_route}

operator_route-denied :
    (services : RouteServices) (request : OperatorRequest) (gate : Gate) (db : Db)
    → (status : ℕ) (detail : Detail) → require_operator gate ≡ denied status detail
    → operator_route services request gate db ≡ (failure status detail, db)
unfolding operator_route confirm_order_route cancel_order_route adjust_stock_route
    create_product_route update_product_route list_order_queue_route list_catalog_route
    simulate_payment_route
operator_route-denied services (OperatorRequest.post_confirmation order_id) gate db status detail
      h =
    rw h refl
operator_route-denied services request gate db status detail h = rw h refl

-- The statuses of a caller that is turned away: not authenticated, not permitted, or no secret.
abbrev pub IsDenial : ℕ → Type 0
IsDenial status = (status ≡ 401) ⊎ ((status ≡ 403) ⊎ (status ≡ 500))

operator_or_denied :
    (current : CurrentUser)
    → (current.role ≡ operator_role)
      ⊎ (require_operator (granted current) ≡ denied 403 (text "Insufficient permissions"))
unfolding require_roles
operator_or_denied current = elim (Bool-cases (current.role == operator_role)) [
  | inl e ↦ inl (ground (arith, eq_iff current.role operator_role))
  | inr e ↦ inr (rw e refl)
]

-- A gate that is shut stays shut behind the test of the role.
require_operator-denied :
    (gate : Gate) (status : ℕ) (detail : Detail)
    → gate ≡ denied status detail
    → require_operator gate ≡ denied status detail
unfolding require_roles
require_operator-denied gate status detail h = rw h refl

module _ (jwt : JwtServices) (settings : JwtSettings) (now : Time) where
  result_or_denied :
      (r : Result CurrentUser)
      → ((current : CurrentUser) × (r ≡ ok current) × (gate_of r ≡ granted current))
        ⊎ ((status : ℕ) × (detail : Detail) × (gate_of r ≡ denied status detail) × IsDenial status)
  result_or_denied (ok current) = inl (current, refl, refl)
  result_or_denied (err e) = elim (Bool-cases (is_jwt_configuration e)) [
    | inl h ↦ inr (500, text "Authentication is not configured", rw h refl, inr (inr refl))
    | inr h ↦ inr (401, text "Invalid or expired token", rw h refl, inl refl)
  ]

  user_or_denied :
      (credentials : Option String)
      → ((token : String) × (current : CurrentUser) × (credentials ≡ some token)
          × (verify_token jwt settings token now ≡ ok current)
          × (get_current_user jwt settings now credentials ≡ granted current))
        ⊎ ((status : ℕ) × (detail : Detail) × (get_current_user jwt settings now credentials
              ≡ denied status detail)
            × IsDenial status)
  unfolding get_current_user
  user_or_denied none = inr (401, text "Not authenticated", refl, inl refl)
  user_or_denied (some token) = elim (Bool-cases (token == "")) [
    | inl h ↦ inr (401, text "Not authenticated", rw h refl, inl refl)
    | inr h ↦ elim (result_or_denied (verify_token jwt settings token now)) [
      | inl (current, e, g) ↦ inl (token, current, refl, e, rw h g)
      | inr (status, detail, g, s) ↦ inr (status, detail, rw h g, s)
    ]
  ]

  -- A request to one of the eight routes for operators either comes with a token that is verified as
  -- that of a user with the role `operator`, or it fails with status 401, 403 or 500 and changes
  -- nothing.
  pub operator_route-guarded :
      (services : RouteServices) (request : OperatorRequest) (credentials : Option String) (db : Db)
      → ((token : String) × (current : CurrentUser) × (credentials ≡ some token)
          × (verify_token jwt settings token now ≡ ok current)
          × (current.role ≡ operator_role))
        ⊎ ((status : ℕ) × (detail : Detail) × (operator_route services request
                (get_current_user jwt settings now credentials)
                db
              ≡ (failure status detail, db))
            × IsDenial status)
  operator_route-guarded services request credentials db =
      let gate = get_current_user jwt settings now credentials in
      elim (user_or_denied credentials) [
        | inl (token, current, given, verified, open_gate) ↦ elim (operator_or_denied current) [
          | inl role ↦ inl (token, current, given, verified, role)
          | inr shut ↦ inr (
            403,
            text "Insufficient permissions",
            operator_route-denied services request gate db 403 (text "Insufficient permissions")
                (rw open_gate shut),
            inr (inl refl),
          )
        ]
        | inr (status, detail, shut, s) ↦ inr (
          status,
          detail,
          operator_route-denied services request gate db status detail
              (require_operator-denied gate status detail shut),
          s,
        )
      ]

-- A caller who neither owns an order nor is an operator.
abbrev pub IsStranger : CurrentUser → Order → Type 0
IsStranger current order = (order.customer_id ≢ current.user_id) × (current.role ≢ operator_role)

stranger :
    (current : CurrentUser) (order : Order)
    → IsStranger current order
    → is_owner_or_operator order.customer_id current ≡ false
stranger current order h =
    ground
      (arith, h.0, h.1, eq_iff order.customer_id current.user_id, eq_iff current.role operator_role)

-- An order of another customer answers a shopper in every respect as an order that does not exist:
-- the detail and the timeline of an order that the tables `db` hold and the tables `without` lack
-- give the same status 404 with the same text, and change nothing.
pub order_of_stranger-hidden :
    (order_id : Uuid) (order : Order) (current : CurrentUser) (db without : Db)
    → order_row order_id db ≡ some order
    → order_row order_id without ≡ none
    → IsStranger current order
    → (get_order_route order_id (granted current) db ≡ (failure 404 order_missing, db))
      × (get_order_route order_id (granted current) without ≡ (failure 404 order_missing, without))
      × (get_timeline_route order_id (granted current) db ≡ (failure 404 order_missing, db))
      × (get_timeline_route order_id (granted current) without
          ≡ (failure 404 order_missing, without))
unfolding get_order_route get_timeline_route
order_of_stranger-hidden order_id order current db without found absent h =
    let hidden = stranger current order h in
    let here = ap (λ (r : Result Order × Db). r.0) (get_order_found order_id order db found) in
    let gone = ap (λ (r : Result Order × Db). r.0) (get_order_missing order_id without absent) in
    (rw here (rw hidden refl), rw gone refl, rw here (rw hidden refl), rw gone refl)
