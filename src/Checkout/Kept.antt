-- ===== src/Checkout/Kept.antt =====
-- The parts of a checkout that touch neither the stock nor the orders: a property of the tables
-- that the six primitive writes keep is kept by each of them.
-- backend/app/modules/checkout/application/checkout.py
use eventcommerce.Base.{ℕ, String, Bool, Option, none, some, List}
use eventcommerce.Base.Decimal.{Decimal}
use eventcommerce.Result.{Uuid, Result, ok, err}
use eventcommerce.Session.{Db, Action, uuid4, utc_now}
use eventcommerce.Session.Keeps.{Keeps, keeps_rules, Keeps-in_transaction}
use eventcommerce.Messaging.Events.{ResponseBody, ProcessedEvent}
use eventcommerce.Messaging.Idempotency.{
  ClaimResult, new, replay_match, conflict, put_row, claim, claim_with, fetch_cached,
  complete_with_response,
}
use eventcommerce.Payments.Domain.{Payment}
use eventcommerce.Payments.UseCases.{save_payment, new_payment, authorize_payment}
use eventcommerce.Notifications.Domain.{Notification}
use eventcommerce.Notifications.UseCases.{save_notification, send_order_notification}
use eventcommerce.Cart.Domain.{Cart}
use eventcommerce.Cart.Repository.{clear_lines, get_cart_by_id, list_lines}
use eventcommerce.Checkout.Request.{CheckoutRequest, CheckoutItemRequest}
use eventcommerce.Checkout.Inputs.{
  owned_cart, resolve_cart_inputs, resolve_inputs, inline_inputs, inputs_of,
}
use eventcommerce.Checkout.Execute.{
  CheckoutServices, Outcome, replayed, placed, clear_cart, try_commerce, notify, notify_best_effort,
  notification_content, complete, claim_request, on_claim,
}

pub record Writes (P : Db → Type 0) : Type 0 where
  pub uuid : Keeps P uuid4
  pub now : Keeps P utc_now
  pub payment : (payment : Payment) → Keeps P (save_payment payment)
  pub notification : (notification : Notification) → Keeps P (save_notification notification)
  pub cart : (cart_id : Uuid) → Keeps P (clear_lines cart_id)

module _ {P : Db → Type 0} (w : Writes P) where
  pub Writes-uuid4 : Keeps P uuid4
  Writes-uuid4 = w.uuid

  pub Writes-utc_now : Keeps P utc_now
  Writes-utc_now = w.now

  pub Writes-save_payment : (payment : Payment) → Keeps P (save_payment payment)
  Writes-save_payment = w.payment

  pub Writes-save_notification :
      (notification : Notification) → Keeps P (save_notification notification)
  Writes-save_notification = w.notification

  pub Writes-clear_lines : (cart_id : Uuid) → Keeps P (clear_lines cart_id)
  Writes-clear_lines = w.cart

pub ruleset write_rules = (
  keeps_rules, Writes-uuid4, Writes-utc_now, Writes-save_payment, Writes-save_notification,
  Writes-clear_lines,
)

-- Reading the inputs keeps everything.
module _ {P : Db → Type 0} where
  Keeps-owned_cart : (owner : Uuid) (found : Option Cart) → Keeps P (owned_cart owner found)
  Keeps-owned_cart owner none = search keeps_rules
  Keeps-owned_cart owner (some cart) = search keeps_rules

  Keeps-resolve_cart_inputs :
      (parse_uuid : String → Option Uuid) (customer_id : String) (cart_id : Uuid)
      → Keeps P (resolve_cart_inputs parse_uuid customer_id cart_id)
  unfolding resolve_cart_inputs get_cart_by_id list_lines
  Keeps-resolve_cart_inputs parse_uuid customer_id cart_id =
      search (keeps_rules, Keeps-owned_cart) depth 15

  Keeps-inline_inputs :
      (items : Option (List CheckoutItemRequest)) (amount : Option Decimal)
      (currency : Option String)
      → Keeps P (inline_inputs items amount currency)
  Keeps-inline_inputs none amount currency = search keeps_rules
  Keeps-inline_inputs (some items) none currency = search keeps_rules
  Keeps-inline_inputs (some items) (some amount) none = search keeps_rules
  Keeps-inline_inputs (some items) (some amount) (some currency) = search keeps_rules

  pub Keeps-resolve_inputs :
      (parse_uuid : String → Option Uuid) (customer_id : String) (request : CheckoutRequest)
      → Keeps P (resolve_inputs parse_uuid customer_id request)
  unfolding resolve_inputs
  Keeps-resolve_inputs parse_uuid customer_id request = go request.cart_id
    where
      go : (cart_id : Option Uuid) → Keeps P (inputs_of parse_uuid customer_id request cart_id)
      go none = Keeps-inline_inputs request.items request.amount request.currency
      go (some cart_id) = Keeps-resolve_cart_inputs parse_uuid customer_id cart_id

  pub Keeps-try_commerce : (m : Action Payment) → Keeps P m → Keeps P (try_commerce m)
  Keeps-try_commerce m kept = record { at = λ db h. go (m db).0 (m db).1 (kept.at db h) }
    where
      go : (r : Result Payment) (db : Db) → P db → P (try_commerce (λ _. (r, db)) db).1
      go (ok payment) db h = h
      go (err e) db h = h

-- A claim writes nothing but its row.
module _ {P : Db → Type 0} (put : (row : ProcessedEvent) → Keeps P (put_row row)) where
  Keeps-claim_with :
      (key consumer_name payload_hash : String) (found : Option ProcessedEvent)
      → Keeps P (claim_with key consumer_name payload_hash found)
  unfolding claim_with
  Keeps-claim_with key consumer_name payload_hash none = search (keeps_rules, put)
  Keeps-claim_with key consumer_name payload_hash (some row) = search (keeps_rules, put)

  Keeps-on_claim : (key : String) (c : ClaimResult) → Keeps P (on_claim key c)
  unfolding fetch_cached
  Keeps-on_claim key new = search keeps_rules
  Keeps-on_claim key conflict = search keeps_rules
  Keeps-on_claim key replay_match = search keeps_rules depth 9

  pub Keeps-claim_request :
      (request_hash : String) (key : Option String) → Keeps P (claim_request request_hash key)
  unfolding claim_request claim
  Keeps-claim_request request_hash none = search keeps_rules
  Keeps-claim_request request_hash (some key) =
      search (keeps_rules, Keeps-claim_with, Keeps-on_claim) depth 9

  Keeps-complete_with_response :
      (response_bytes : ResponseBody → ℕ) (key consumer_name : String) (status : ℕ)
      (body : ResponseBody) (payload_hash : String)
      → Keeps P (complete_with_response response_bytes key consumer_name status body payload_hash)
  unfolding complete_with_response
  Keeps-complete_with_response response_bytes key consumer_name status body payload_hash =
      search (keeps_rules, put) depth 9

  pub Keeps-complete :
      (services : CheckoutServices) (key : Option String) (request_hash : String)
      (body : ResponseBody)
      → Keeps P (complete services key request_hash body)
  Keeps-complete services none request_hash body = search keeps_rules
  Keeps-complete services (some key) request_hash body = Keeps-complete_with_response _ _ _ _ _ _

module _ {P : Db → Type 0} (w : Writes P) where
  pub Keeps-new_payment :
      (order_id : Uuid) (status : String) (amount : Decimal) (currency : String)
      (failure_reason : Option String)
      → Keeps P (new_payment order_id status amount currency failure_reason)
  unfolding new_payment
  Keeps-new_payment order_id status amount currency failure_reason = search write_rules depth 9

  pub Keeps-authorize_payment :
      (approval_policy : String → Decimal → String → Bool) (order_id : Uuid) (amount : Decimal)
      (currency : String)
      → Keeps P (authorize_payment approval_policy order_id amount currency)
  unfolding authorize_payment
  Keeps-authorize_payment approval_policy order_id amount currency =
      search (write_rules, Keeps-new_payment) depth 9

  pub Keeps-clear_cart : (cart_id : Option Uuid) → Keeps P (clear_cart cart_id)
  Keeps-clear_cart none = search keeps_rules
  Keeps-clear_cart (some cart_id) = search write_rules

  Keeps-send_order_notification :
      (order_id channel content : String)
      → Keeps P (send_order_notification order_id channel content)
  unfolding send_order_notification
  Keeps-send_order_notification order_id channel content = search write_rules depth 9

  pub Keeps-notify :
      (services : CheckoutServices) (outcome : Outcome) → Keeps P (notify services outcome)
  unfolding notify_best_effort
  Keeps-notify services (replayed _) = search keeps_rules
  Keeps-notify services (placed order _) = record {
    at = λ db h.
        (Keeps-in_transaction
            (send_order_notification order.id "email" (notification_content order))
            (Keeps-send_order_notification order.id "email" (notification_content order))).at
          db h;
  }
