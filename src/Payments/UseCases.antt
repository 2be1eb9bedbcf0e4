-- ===== src/Payments/UseCases.antt =====
-- backend/app/modules/payments/application: authorize_payment.py, process_payment_failure.py and
-- process_inventory_reserved.py.
use eventcommerce.Base.{
  String, Bool, true, false, not, ◌||◌, Option, none, some, List, [], ◌∷◌, ◌==◌, string_eq, upsert,
  if◌then◌else◌,
}
use eventcommerce.Base.Int.{ℤ, pos, pos_part, ◌+ℤ◌, ◌*ℤ◌, ltb_ℤ}
use eventcommerce.Base.Decimal.{
  Decimal, finite, is_finite, is_negative, has_more_than_two_places, cents,
}
use eventcommerce.Result.{Uuid, Error, ok, err, payment_rejected}
use eventcommerce.Session.{
  Db, Action, pure, lift, raise_if, modify, gets, uuid4, utc_now, ◌>>=◌, ◌>>◌,
}
use eventcommerce.Messaging.Events.{EventType, Payload}
use eventcommerce.Messaging.Outbox.{save_outbox}
use eventcommerce.Messaging.Idempotency.{mark_processed}
use eventcommerce.Catalog.Domain.{Product}
use eventcommerce.Catalog.Repository.{product_row}
use eventcommerce.Orders.Domain.{Order, OrderItem, status_eq, inventory_reserved}
use eventcommerce.Orders.UseCases.{get_order}
use eventcommerce.Orders.Consumers.{is_terminal, once}
use eventcommerce.Payments.Domain.{Payment, ensure_payment_amount_is_valid}

abbrev payment_key : Payment → Uuid
payment_key payment = payment.id

abbrev update_payment : Payment → Payment → Payment
update_payment existing payment = record existing {
  status = payment.status;
  amount = payment.amount;
  currency = payment.currency;
  failure_reason = payment.failure_reason;
}

-- `SqlAlchemyPaymentRepository.save`
unfoldable pub save_payment : Payment → Action Unit
save_payment payment =
    modify (λ db. record db { payments = upsert payment_key update_payment payment db.payments })

-- A payment with a fresh id and the present time.
unfoldable pub new_payment : Uuid → String → Decimal → String → Option String → Action Payment
unfolding save_payment
new_payment order_id status amount currency failure_reason = do
  id ← uuid4
  created_at ← utc_now
  let payment : Payment = record {
    id = id;
    order_id = order_id;
    status = status;
    amount = amount;
    currency = currency;
    created_at = created_at;
    failure_reason = failure_reason;
  }
  save_payment payment
  pure payment

-- `AuthorizePayment.execute`
unfoldable pub authorize_payment :
    (String → Decimal → String → Bool) → Uuid → Decimal → String → Action Payment
unfolding ensure_payment_amount_is_valid
authorize_payment approval_policy order_id amount currency = do
  lift (ensure_payment_amount_is_valid amount)
  raise_if (not (approval_policy order_id amount currency)) payment_rejected
  new_payment order_id "authorized" amount currency none

-- `ProcessPaymentFailure.execute`
unfoldable pub process_payment_failure : Uuid → Decimal → String → String → Action Payment
process_payment_failure order_id amount currency reason =
    new_payment order_id "declined" amount currency (some reason)

-- The outcome of `_derive_total`: a reason, or an amount in cents and a currency.
pub data Derived : Type 0 where
  refused : String → Derived
  total : ℤ → String → Derived

-- One line: a reason, or the price in cents and the currency of its product.
pub data Priced : Type 0 where
  unpriced : String → Priced
  priced : ℤ → String → Priced

abbrev pub priced_product : Product → Priced
priced_product product =
    if not product.active
    then unpriced "product_inactive"
    else if not (is_finite product.price) || is_negative product.price
    then unpriced "invalid_catalog_data"
    else if has_more_than_two_places product.price
    then unpriced "invalid_catalog_data"
    else if product.currency == ""
    then unpriced "invalid_catalog_data"
    else priced (cents product.price) product.currency

abbrev pub priced_row : Option Product → Priced
priced_row none = unpriced "product_not_found"
priced_row (some product) = priced_product product

unfoldable pub price_line : OrderItem → Db → Priced
price_line item db =
    if item.product_id == "" || ltb_ℤ item.quantity (pos 1)
    then unpriced "invalid_catalog_data"
    else priced_row (product_row item.product_id db)

-- The set of currencies has at most one member when a line begins: `none` is the empty set.
abbrev pub mixes : Option String → String → Bool
mixes none currency = false
mixes (some seen) currency = not (seen == currency)

abbrev pub add_line : (Option String → ℤ → Derived) → Option String → ℤ → ℤ → Priced → Derived
add_line rest seen subtotal quantity (unpriced reason) = refused reason
add_line rest seen subtotal quantity (priced price currency) =
    if mixes seen currency
    then refused "mixed_currency"
    else rest (some currency) (subtotal +ℤ price *ℤ quantity)

abbrev pub settle : Option String → ℤ → Derived
settle none subtotal = refused "invalid_catalog_data"
settle (some currency) subtotal =
    if ltb_ℤ subtotal (pos 1) then refused "invalid_catalog_data" else total subtotal currency

-- The loop of `_derive_total`. Every price has at most two places when it is added, so that the
-- sum is a whole number of cents and `quantize` does not round.
unfoldable pub derive_lines : Db → List OrderItem → Option String → ℤ → Derived
derive_lines db [] seen subtotal = settle seen subtotal
derive_lines db (item ∷ items) seen subtotal =
    add_line (derive_lines db items) seen subtotal item.quantity (price_line item db)

-- `_derive_total`
unfoldable pub derive_total : Db → List OrderItem → Derived
derive_total db [] = refused "invalid_order_lines"
derive_total db (item ∷ items) = derive_lines db (item ∷ items) none (pos 0)

abbrev pub is_payment_rejected : Error → Bool
is_payment_rejected payment_rejected = true
is_payment_rejected _ = false

-- `except PaymentRejectedError`: the handler goes on from what the call has left.
abbrev pub except_rejected : {A : Type 0} → Action A → Action Unit → (A → Action Unit) → Action Unit
except_rejected m handler rest db =
    let (r, db') = m db in
    elim r [
      | ok a ↦ rest a db'
      | err e ↦ if is_payment_rejected e then handler db' else (err e, db')
    ]

unfoldable pub reject_underived : Order → String → Action Unit
reject_underived order reason =
    save_outbox EventType.payment_rejected order.id
      (Payload.payment_result "rejected" (some reason) none none)

unfoldable pub decline : Order → ℤ → String → Action Unit
decline order amount currency = do
  process_payment_failure order.id (finite amount 2) currency "payment_declined"
  save_outbox EventType.payment_rejected order.id (
      Payload.payment_result "rejected" (some "payment_declined") (some (pos_part amount))
        (some currency))

unfoldable pub announce_authorized : Order → ℤ → String → Action Unit
announce_authorized order amount currency =
    save_outbox EventType.payment_authorized order.id
      (Payload.payment_result "authorized" none (some (pos_part amount)) (some currency))

-- What is charged, and how the result is emitted.
unfoldable pub charge : (String → Decimal → String → Bool) → Order → Derived → Action Unit
charge approval_policy order (refused reason) = reject_underived order reason
charge approval_policy order (total amount currency) =
    except_rejected (authorize_payment approval_policy order.id (finite amount 2) currency)
      (decline order amount currency) (λ _. announce_authorized order amount currency)

unfoldable pub charge_reserved : (String → Decimal → String → Bool) → String → Order → Action Unit
charge_reserved approval_policy event_id order =
    if is_terminal order.status || not (order.status == inventory_reserved)
    then mark_processed event_id "ProcessOrderInventoryReserved"
    else do
      derived ← gets (λ db. derive_total db order.items)
      charge approval_policy order derived
      mark_processed event_id "ProcessOrderInventoryReserved"

-- `ProcessOrderInventoryReserved.execute`
unfoldable pub process_order_inventory_reserved :
    (String → Decimal → String → Bool) → String → Uuid → Action Unit
process_order_inventory_reserved approval_policy event_id order_id =
    once event_id "ProcessOrderInventoryReserved"
      (do order ← get_order order_id; charge_reserved approval_policy event_id order)
