-- ===== src/Checkout/Execute.antt =====
-- `Checkout` of backend/app/modules/checkout/application/checkout.py, with the route's rollback: the
-- request is one transaction, and the notification a second one, whose failure is dropped.
use eventcommerce.Base.{
  ℕ, String, Bool, Option, none, some, List, [], ◌∷◌, find, upsert, string_eq, ◌==◌, if◌then◌else◌,
}
use eventcommerce.Base.Int.{ℤ}
use eventcommerce.Base.Decimal.{Decimal}
use eventcommerce.Result.{
  Uuid, Error, Result, ok, err, insufficient_stock, payment_rejected, idempotency_conflict,
  value_error, key_error,
}
use eventcommerce.Session.{
  Action, pure, raise, lift, or_raise, utc_now, in_transaction, ◌>>=◌, ◌>>◌,
}
use eventcommerce.Messaging.Events.{EventType, Payload, ResponseBody}
use eventcommerce.Messaging.Outbox.{save_outbox}
use eventcommerce.Messaging.Idempotency.{
  ClaimResult, CachedResponse, new, replay_match, conflict, claim, fetch_cached,
  complete_with_response,
}
use eventcommerce.Orders.Domain.{Order, confirmed, cancelled, confirm, cancel, status_eq}
use eventcommerce.Orders.Repository.{save_order}
use eventcommerce.Orders.UseCases.{create_order}
use eventcommerce.Inventory.Domain.{Inventory, reserve_stock}
use eventcommerce.Inventory.Repository.{save_inventory}
use eventcommerce.Inventory.Locking.{lock_and_check_availability}
use eventcommerce.Inventory.UseCases.{release_inventory}
use eventcommerce.Payments.Domain.{Payment}
use eventcommerce.Payments.UseCases.{authorize_payment, process_payment_failure}
use eventcommerce.Notifications.UseCases.{send_order_notification}
use eventcommerce.Cart.Repository.{clear_lines}
use eventcommerce.Checkout.Request.{CheckoutRequest}
use eventcommerce.Checkout.Inputs.{CheckoutInputs, resolve_inputs}

-- `request_hash` is the hash of the canonical JSON of a request without its key; `response_bytes`
-- the length of the JSON of a response; `approval_policy` the policy of the payments.
pub record CheckoutServices : Type 0 where
  pub parse_uuid : String → Option Uuid
  pub request_hash : CheckoutRequest → String
  pub response_bytes : ResponseBody → ℕ
  pub approval_policy : String → Decimal → String → Bool

pub record CheckoutResult : Type 0 where
  pub status_code : ℕ
  pub body : ResponseBody

abbrev pub checkout_consumer_name : String
checkout_consumer_name = "Checkout"

abbrev pub created_status_code : ℕ
created_status_code = 201

-- What the first transaction comes to: a cached response, or an order and its response.
pub data Outcome : Type 0 where
  replayed : CheckoutResult → Outcome
  placed : Order → CheckoutResult → Outcome

abbrev pub result_of : Outcome → CheckoutResult
result_of (replayed result) = result
result_of (placed _ result) = result

abbrev pub from_cached : Option CachedResponse → Action (Option CheckoutResult)
from_cached found = do
  response ← or_raise found idempotency_conflict
  pure (some (record { status_code = response.status; body = response.body }))

-- `none` where the request goes on to commerce.
abbrev pub on_claim : String → ClaimResult → Action (Option CheckoutResult)
on_claim key new = pure none
on_claim key replay_match = do found ← fetch_cached key checkout_consumer_name; from_cached found
on_claim key conflict = raise idempotency_conflict

unfoldable pub claim_request : String → Option String → Action (Option CheckoutResult)
unfolding claim
claim_request request_hash none = pure none
claim_request request_hash (some key) = do
  claimed ← claim key checkout_consumer_name request_hash
  on_claim key claimed

-- `quantities = dict(lines)`: a later line of a product replaces an earlier one.
abbrev pub line_key : String × ℤ → String
line_key line = line.0

abbrev replace_line : String × ℤ → String × ℤ → String × ℤ
replace_line old line = line

unfoldable pub dict_of : List (String × ℤ) → List (String × ℤ) → List (String × ℤ)
dict_of quantities [] = quantities
dict_of quantities (line ∷ lines) = dict_of (upsert line_key replace_line line quantities) lines

unfoldable pub reserve_locked : List (String × ℤ) → List Inventory → Action Unit
unfolding reserve_stock save_inventory
reserve_locked quantities [] = pure tt
reserve_locked quantities (inventory ∷ locked) = do
  line ← or_raise (find line_key inventory.product_id quantities) key_error
  reserved ← lift (reserve_stock inventory line.1)
  save_inventory reserved
  reserve_locked quantities locked

-- The body of the `try`.
unfoldable pub reserve_and_pay :
    (String → Decimal → String → Bool) → Order → CheckoutInputs → Action Payment
unfolding lock_and_check_availability dict_of reserve_locked authorize_payment
reserve_and_pay approval_policy order inputs = do
  locked ← lock_and_check_availability inputs.lines
  reserve_locked (dict_of [] inputs.lines) locked
  authorize_payment approval_policy order.id inputs.amount inputs.currency

-- How the `try` ends: with a payment, or in one of its two handlers.
pub data Attempt : Type 0 where
  paid : Payment → Attempt
  out_of_stock declined : Attempt

abbrev pub caught : Error → Result Attempt
caught insufficient_stock = ok out_of_stock
caught payment_rejected = ok declined
caught e = err e

abbrev pub try_commerce : Action Payment → Action Attempt
try_commerce m db =
    let (r, db') = m db in
    elim r [ ok payment ↦ (ok (paid payment), db') | err e ↦ (caught e, db') ]

unfoldable pub confirm_placed : Order → Action Order
unfolding confirm save_order save_outbox
confirm_placed order = do
  now ← utc_now
  order' ← lift (confirm now order)
  save_order order'
  save_outbox EventType.order_confirmed order'.id (Payload.status confirmed)
  pure order'

unfoldable pub cancel_placed : String → Order → Action Order
unfolding cancel save_order save_outbox
cancel_placed reason order = do
  now ← utc_now
  order' ← lift (cancel reason now order)
  save_order order'
  save_outbox EventType.order_cancelled order'.id (Payload.status_reason cancelled reason)
  pure order'

unfoldable pub release_lines : List (String × ℤ) → Action Unit
unfolding release_inventory
release_lines [] = pure tt
release_lines ((product_id, quantity) ∷ lines) = do
  release_inventory product_id quantity
  release_lines lines

abbrev pub clear_cart : Option Uuid → Action Unit
clear_cart none = pure tt
clear_cart (some cart_id) = clear_lines cart_id

-- The handlers and the `else` of the `try`: the order in its terminal status, and the status of
-- the payment.
unfoldable pub conclude : Order → CheckoutInputs → Attempt → Action (Order × Option String)
unfolding confirm_placed cancel_placed release_lines clear_lines process_payment_failure
conclude order inputs (paid payment) = do
  order' ← confirm_placed order
  clear_cart inputs.cart_id_to_clear
  pure (order', some payment.status)
conclude order inputs out_of_stock = do
  order' ← cancel_placed "insufficient_stock" order
  pure (order', none)
conclude order inputs declined = do
  process_payment_failure order.id inputs.amount inputs.currency "payment_declined"
  release_lines inputs.lines
  order' ← cancel_placed "payment_declined" order
  pure (order', some "declined")

-- `serialize_response`
abbrev pub serialize_response : Order → Option String → ResponseBody
serialize_response order payment_status = record {
  order_id = order.id;
  status = order.status;
  cancel_reason = order.cancel_reason;
  payment_status = payment_status;
}

abbrev pub notification_content : Order → String
notification_content order =
    if order.status == confirmed
    then "Your order has been confirmed"
    else "Your order could not be completed"

module _ (services : CheckoutServices) where
  abbrev pub complete : Option String → String → ResponseBody → Action Unit
  complete none request_hash body = pure tt
  complete (some key) request_hash body =
      complete_with_response services.response_bytes key checkout_consumer_name created_status_code
        body request_hash

  -- From the inputs to the cached response.
  unfoldable pub place : String → CheckoutRequest → Action Outcome
  unfolding resolve_inputs create_order reserve_and_pay conclude complete_with_response
  place customer_id request = do
    inputs ← resolve_inputs services.parse_uuid customer_id request
    order ← create_order customer_id inputs.order_items
    attempt ← try_commerce (reserve_and_pay services.approval_policy order inputs)
    concluded ← conclude order inputs attempt
    let body = serialize_response concluded.0 concluded.1
    complete request.idempotency_key (services.request_hash request) body
    pure (placed concluded.0 (record { status_code = created_status_code; body = body }))

  abbrev pub place_unless : String → CheckoutRequest → Option CheckoutResult → Action Outcome
  place_unless customer_id request (some result) = pure (replayed result)
  place_unless customer_id request none = place customer_id request

  unfoldable pub commerce : CheckoutRequest → Action Outcome
  unfolding claim_request place
  commerce request = do
    customer_id ← or_raise request.customer_id value_error
    cached ← claim_request (services.request_hash request) request.idempotency_key
    place_unless customer_id request cached

  -- `_notify_best_effort`
  unfoldable pub notify_best_effort : Order → Action Unit
  unfolding send_order_notification
  notify_best_effort order db = (
    ok tt,
    (in_transaction (send_order_notification order.id "email" (notification_content order)) db).1,
  )

  abbrev pub notify : Outcome → Action Unit
  notify (replayed _) = pure tt
  notify (placed order _) = notify_best_effort order

  -- `execute`
  unfoldable pub execute : CheckoutRequest → Action CheckoutResult
  unfolding commerce notify_best_effort
  execute request = do
    outcome ← in_transaction (commerce request)
    notify outcome
    pure (result_of outcome)
