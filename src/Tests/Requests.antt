-- ===== src/Tests/Requests.antt =====
-- Requests with and without the right token.
use Prim.Native.String.{count}
use eventcommerce.Base.{
  ℕ, ◌⊎◌, String, ◌≡◌, ◌≢◌, refl, true, false, none, some, [], ◌∷◌, All, find, eq_iff, ◌==◌,
  string_eq, arith,
}
use eventcommerce.Result.{ok}
use eventcommerce.Session.{Db}
use eventcommerce.Orders.Domain.{Order, pending}
use eventcommerce.Payments.Policy.{Hashing}
use eventcommerce.Checkout.Execute.{CheckoutServices}
use eventcommerce.Iam.Access.{CurrentUser, verify_token}
use eventcommerce.Iam.Families.{ended_in}
use eventcommerce.Web.Response.{Detail, text, failure}
use eventcommerce.Web.Access.{granted, get_current_user, operator_role}
use eventcommerce.Web.Orders.{get_order_route, get_timeline_route, order_missing}
use eventcommerce.Web.Identity.{IdentityServices, refresh_route}
use eventcommerce.Web.Requests.{
  RouteServices, OperatorRequest, UserRequest, operator_route, user_route,
}
use eventcommerce.Web.Denials.{IsDenial, operator_route-guarded, order_of_stranger-hidden}
use eventcommerce.Web.Failures.{is_failure, failure-changes_nothing}
use eventcommerce.Web.Sessions.{refresh_route-replay}
use eventcommerce.Tests.Data.{start, two_cups}
use eventcommerce.Tests.Accounts.{open_accounts, one_token, signing}
use eventcommerce.Tests.Tokens.{plain, spent, replayed}

abbrev lengths : Hashing
lengths = record { first_digest_byte = λ text. count text; format_amount = λ amount. "1.00" }

abbrev checkout_services : CheckoutServices
checkout_services = record {
  parse_uuid = some;
  request_hash = λ request. "hash";
  response_bytes = λ body. 1;
  approval_policy = λ order_id amount currency. true;
}

abbrev route_services : RouteServices
route_services = record {
  strip = λ text. text;
  upper = λ text. text;
  uuid_int = λ id. count id;
  hashing = lengths;
  checkout = checkout_services;
}

abbrev confirmation : OperatorRequest
confirmation = OperatorRequest.post_confirmation "o"

operator_route-guarded_example :
    ((token : String) × (current : CurrentUser) × (some "token" ≡ some token)
      × (verify_token one_token signing token 7 ≡ ok current)
      × (current.role ≡ operator_role))
    ⊎ ((status : ℕ) × (detail : Detail) × (operator_route route_services confirmation
            (get_current_user one_token signing 7 (some "token"))
            start
          ≡ (failure status detail, start))
        × IsDenial status)
operator_route-guarded_example =
    operator_route-guarded one_token signing 7 route_services confirmation (some "token") start

abbrev pub order_of_ann : Order
order_of_ann = record {
  id = "o";
  customer_id = "ann";
  status = pending;
  cancel_reason = none;
  created_at = 0;
  updated_at = 0;
  items = two_cups ∷ [];
}

abbrev with_order : Db
with_order = record start { orders = order_of_ann ∷ [] }

abbrev eve : CurrentUser
eve = record { user_id = "eve"; email = "eve@example.org"; role = "shopper" }

differ : (one other : String) → (one == other) ≡ false → one ≢ other
differ one other h e = ground (arith, eq_iff one other)

order_of_stranger-hidden_example :
    (get_order_route "o" (granted eve) with_order ≡ (failure 404 order_missing, with_order))
    × (get_order_route "o" (granted eve) start ≡ (failure 404 order_missing, start))
    × (get_timeline_route "o" (granted eve) with_order ≡ (failure 404 order_missing, with_order))
    × (get_timeline_route "o" (granted eve) start ≡ (failure 404 order_missing, start))
unfolding find
order_of_stranger-hidden_example =
    order_of_stranger-hidden "o" order_of_ann eve with_order start refl refl
      (differ "ann" "eve" refl, differ "shopper" "operator" refl)

failure-changes_nothing_example :
    ((is_failure (operator_route route_services confirmation (granted eve) start).0 ≡ false)
      ⊎ ((operator_route route_services confirmation (granted eve) start).1 ≡ start))
    × ((is_failure (user_route route_services (UserRequest.read_order "o") (granted eve) start).0
          ≡ false)
        ⊎ ((user_route route_services (UserRequest.read_order "o") (granted eve) start).1 ≡ start))
failure-changes_nothing_example =
    failure-changes_nothing route_services confirmation (UserRequest.read_order "o") (granted eve)
      start

abbrev identity : IdentityServices
identity = record { accounts = open_accounts; tokens = plain; jwt = one_token; settings = signing }

refresh_route-replay_example :
    ((refresh_route identity "secret" replayed).0 ≡ failure 401 (text "Invalid or expired token"))
    × All
        (λ token. ended_in "f" token ≡ true)
        (refresh_route identity "secret" replayed).1.refresh_tokens
unfolding find
refresh_route-replay_example =
    refresh_route-replay identity "secret" spent replayed refl refl refl refl refl
