-- ===== src/Checkout/Stock.antt =====
-- What a checkout does to the stock: backend/app/modules/checkout/application/checkout.py.
use eventcommerce.Base.{String, Bool, ◌≡◌, refl, Option, none, some, List, [], ◌∷◌, string_eq}
use eventcommerce.Base.Int.{ℤ}
use eventcommerce.Base.Decimal.{Decimal}
use eventcommerce.Session.{Db, ◌>>◌}
use eventcommerce.Session.Keeps.{Keeps, keeps_rules, Keeps-bind}
use eventcommerce.Messaging.Events.{EventType, Payload, ProcessedEvent}
use eventcommerce.Messaging.Outbox.{save_outbox}
use eventcommerce.Orders.Domain.{Order, OrderItem}
use eventcommerce.Orders.Repository.{save_order}
use eventcommerce.Inventory.Repository.{stock_row}
use eventcommerce.Inventory.Conservation.{total_of}
use eventcommerce.Checkout.Execute.{
  CheckoutServices, CheckoutResult, Attempt, paid, out_of_stock, declined, reserve_locked, dict_of,
  confirm_placed, cancel_placed, conclude, reserve_and_pay, place, place_unless, commerce, execute,
}
use eventcommerce.Checkout.Inputs.{CheckoutInputs}
use eventcommerce.Checkout.Request.{CheckoutRequest}
use eventcommerce.Payments.UseCases.{save_payment, authorize_payment, process_payment_failure}
use eventcommerce.Notifications.UseCases.{save_notification}
use eventcommerce.Cart.Repository.{clear_lines}
use eventcommerce.Orders.UseCases.{create_order}
use eventcommerce.Messaging.Idempotency.{put_row}
use eventcommerce.Checkout.Totals.{Totals, reserve_locked-Totals, lock-Totals, release_lines-Totals}
use eventcommerce.Checkout.Kept.{
  Writes, write_rules, Keeps-new_payment, Keeps-authorize_payment, Keeps-clear_cart,
  Keeps-try_commerce, Keeps-resolve_inputs, Keeps-complete, Keeps-claim_request, Keeps-notify,
}

module _ (t : String → Option ℤ) where
  Totals-put_row : (row : ProcessedEvent) → Keeps (Totals t) (put_row row)
  unfolding put_row
  Totals-put_row row = record { at = λ db h. h }

  -- The rest of a checkout does not touch the stock.
  Totals-Writes : Writes (Totals t)
  unfolding save_payment save_notification clear_lines
  Totals-Writes = record {
    uuid = record { at = λ db h. h };
    now = record { at = λ db h. h };
    payment = λ _. record { at = λ db h. h };
    notification = λ _. record { at = λ db h. h };
    cart = λ _. record { at = λ db h. h };
  }

  Keeps-save_outbox :
      (event_type : EventType) (aggregate_id : String) (payload : Payload)
      → Keeps (Totals t) (save_outbox event_type aggregate_id payload)
  unfolding save_outbox
  Keeps-save_outbox event_type aggregate_id payload = record { at = λ db h. h }

  Keeps-save_order : (order : Order) → Keeps (Totals t) (save_order order)
  unfolding save_order
  Keeps-save_order order = record { at = λ db h. h }

  Keeps-create_order :
      (customer_id : String) (items : List OrderItem)
      → Keeps (Totals t) (create_order customer_id items)
  unfolding create_order
  Keeps-create_order customer_id [] = search keeps_rules
  Keeps-create_order customer_id (item ∷ items) = record { at = λ db h. h }

  ruleset checkout_rules = (
    keeps_rules, Totals-put_row, Totals-Writes, write_rules, Keeps-save_outbox, Keeps-save_order,
    Keeps-create_order, release_lines-Totals, Keeps-new_payment, Keeps-clear_cart,
    Keeps-try_commerce, Keeps-resolve_inputs, Keeps-complete, Keeps-claim_request, Keeps-notify,
  )

  Keeps-confirm_placed : (order : Order) → Keeps (Totals t) (confirm_placed order)
  unfolding confirm_placed
  Keeps-confirm_placed order = search checkout_rules depth 9

  Keeps-cancel_placed :
      (reason : String) (order : Order) → Keeps (Totals t) (cancel_placed reason order)
  unfolding cancel_placed
  Keeps-cancel_placed reason order = search checkout_rules depth 9

  Keeps-conclude :
      (order : Order) (inputs : CheckoutInputs) (attempt : Attempt)
      → Keeps (Totals t) (conclude order inputs attempt)
  unfolding conclude process_payment_failure
  Keeps-conclude order inputs (paid payment) = search (checkout_rules, Keeps-confirm_placed) depth 9
  Keeps-conclude order inputs out_of_stock = search (checkout_rules, Keeps-cancel_placed) depth 9
  Keeps-conclude order inputs declined = search (checkout_rules, Keeps-cancel_placed) depth 9

  Keeps-reserve_and_pay :
      (approval_policy : String → Decimal → String → Bool) (order : Order) (inputs : CheckoutInputs)
      → Keeps (Totals t) (reserve_and_pay approval_policy order inputs)
  unfolding reserve_and_pay
  Keeps-reserve_and_pay approval_policy order inputs =
      lock-Totals t inputs.lines
        (λ locked.
          reserve_locked (dict_of [] inputs.lines) locked
          >> authorize_payment approval_policy order.id inputs.amount inputs.currency)
        (λ locked read.
          Keeps-bind (reserve_locked (dict_of [] inputs.lines) locked)
            (λ _. authorize_payment approval_policy order.id inputs.amount inputs.currency)
            (reserve_locked-Totals t (dict_of [] inputs.lines) locked read)
            (λ _.
              Keeps-authorize_payment Totals-Writes approval_policy order.id inputs.amount
                inputs.currency))

  module _ (services : CheckoutServices) where
    Keeps-place :
        (customer_id : String) (request : CheckoutRequest)
        → Keeps (Totals t) (place services customer_id request)
    unfolding place
    Keeps-place customer_id request =
        search (checkout_rules, Keeps-reserve_and_pay, Keeps-conclude) depth 12

    Keeps-place_unless :
        (customer_id : String) (request : CheckoutRequest) (found : Option CheckoutResult)
        → Keeps (Totals t) (place_unless services customer_id request found)
    Keeps-place_unless customer_id request none = Keeps-place customer_id request
    Keeps-place_unless customer_id request (some result) = search keeps_rules

    Keeps-commerce : (request : CheckoutRequest) → Keeps (Totals t) (commerce services request)
    unfolding commerce
    Keeps-commerce request = search (checkout_rules, Keeps-place_unless) depth 9

    Keeps-execute : (request : CheckoutRequest) → Keeps (Totals t) (execute services request)
    unfolding execute
    Keeps-execute request = search (checkout_rules, Keeps-commerce) depth 9

-- Whatever a checkout comes to (a confirmed order, an order cancelled for want of stock or of a
-- payment, a replayed response or an error), available and reserved stock of every product add up
-- to what they did before, and no row of stock appears or goes.
pub execute-conserves_stock :
    (services : CheckoutServices) (request : CheckoutRequest) (db : Db) (product_id : String)
    → total_of (stock_row product_id (execute services request db).1)
      ≡ total_of (stock_row product_id db)
execute-conserves_stock services request db product_id =
    (Keeps-execute (λ k. total_of (stock_row k db)) services request).at db (λ k. refl) product_id
