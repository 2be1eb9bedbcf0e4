-- ===== src/Operator/OrderQueue.antt =====
-- backend/app/modules/operator/application/list_order_queue.py, over `list_queue` of the orders and
-- `list_by_order_ids` of the payments.
use eventcommerce.Base.{
  ℕ, String, Bool, true, ◌&&◌, ◌||◌, Option, none, some, List, [], ◌∷◌, map, find, contains, upsert,
  sort_with, take, drop, ltb, leb, ◌==◌, string_eq, nat_eq, if◌then◌else◌,
}
use eventcommerce.Base.Int.{ℤ, pos, ◌+ℤ◌}
use eventcommerce.Base.Decimal.{Decimal}
use eventcommerce.Result.{Uuid, Time}
use eventcommerce.Session.{Action, pure, gets, ◌>>=◌}
use eventcommerce.Orders.Domain.{Status, Order, OrderItem, status_eq}
use eventcommerce.Payments.Domain.{Payment}

-- The `WHERE` of `list_queue`: each filter that is given.
pub record QueueFilter : Type 0 where
  pub status : Option Status
  pub created_from : Option Time
  pub created_to : Option Time

abbrev pub has_status : Option Status → Order → Bool
has_status none order = true
has_status (some status) order = order.status == status

abbrev pub is_from : Option Time → Order → Bool
is_from none order = true
is_from (some created_from) order = leb created_from order.created_at

abbrev pub is_before : Option Time → Order → Bool
is_before none order = true
is_before (some created_to) order = ltb order.created_at created_to

abbrev pub is_queued : QueueFilter → Order → Bool
is_queued filter order =
    has_status filter.status order
    && (is_from filter.created_from order && is_before filter.created_to order)

unfoldable pub queued : QueueFilter → List Order → List Order
queued filter [] = []
queued filter (order ∷ orders) =
    let rest = queued filter orders in if is_queued filter order then order ∷ rest else rest

-- `ORDER BY created_at, id`: a UUID is compared as its text.
abbrev pub order_before : (String → String → Bool) → Order → Order → Bool
order_before collation one other =
    ltb one.created_at other.created_at
    || (one.created_at == other.created_at && collation one.id other.id)

unfoldable pub list_queue : QueueFilter → ℕ → ℕ → Action (List Order)
unfolding queued sort_with take drop
list_queue filter limit offset = gets (λ db.
    take limit (drop offset (sort_with (order_before db.collation) (queued filter db.orders))))

abbrev pub id_of_order : Order → Uuid
id_of_order order = order.id

-- `order_id IN …`; no row has an id of an empty list.
unfoldable pub payments_of : List Uuid → List Payment → List Payment
payments_of order_ids [] = []
payments_of order_ids (payment ∷ payments) =
    let rest = payments_of order_ids payments in
    if contains payment.order_id order_ids then payment ∷ rest else rest

unfoldable pub list_by_order_ids : List Uuid → Action (List Payment)
unfolding payments_of
list_by_order_ids order_ids = gets (λ db. payments_of order_ids db.payments)

-- `(payment.created_at, payment.id) > (current.created_at, current.id)`: UUIDs are
-- compared by `uuid.int`.
abbrev pub is_later : (Uuid → ℕ) → Payment → Payment → Bool
is_later uuid_int payment current =
    ltb current.created_at payment.created_at
    || (payment.created_at == current.created_at && ltb (uuid_int current.id) (uuid_int payment.id))

-- The dict from an order to its latest payment.
abbrev pub Latest : Type 0
Latest = List (Uuid × Payment)

abbrev pub latest_key : Uuid × Payment → Uuid
latest_key entry = entry.0

abbrev pub put_latest : Uuid × Payment → Uuid × Payment → Uuid × Payment
put_latest old new = (old.0, new.1)

abbrev pub supersedes : (Uuid → ℕ) → Payment → Option (Uuid × Payment) → Bool
supersedes uuid_int payment none = true
supersedes uuid_int payment (some current) = is_later uuid_int payment current.1

unfoldable pub latest_from : (Uuid → ℕ) → List Payment → Latest → Latest
latest_from uuid_int [] latest = latest
latest_from uuid_int (payment ∷ payments) latest = latest_from uuid_int payments (
    if supersedes uuid_int payment (find latest_key payment.order_id latest)
    then upsert latest_key put_latest (payment.order_id, payment) latest
    else latest)

pub record OrderQueueRow : Type 0 where
  pub order_id : Uuid
  pub customer_id : String
  pub status : Status
  pub created_at : Time
  pub cancel_reason : Option String
  pub item_count : ℤ
  pub total : Option Decimal
  pub currency : Option String

unfoldable pub sum_quantities : List OrderItem → ℤ
sum_quantities [] = pos 0
sum_quantities (item ∷ items) = item.quantity +ℤ sum_quantities items

abbrev pub payment_amount : Option (Uuid × Payment) → Option Decimal
payment_amount none = none
payment_amount (some entry) = some entry.1.amount

abbrev pub payment_currency : Option (Uuid × Payment) → Option String
payment_currency none = none
payment_currency (some entry) = some entry.1.currency

unfoldable pub queue_row : Latest → Order → OrderQueueRow
unfolding sum_quantities
queue_row latest order = record {
  order_id = order.id;
  customer_id = order.customer_id;
  status = order.status;
  created_at = order.created_at;
  cancel_reason = order.cancel_reason;
  item_count = sum_quantities order.items;
  total = payment_amount (find latest_key order.id latest);
  currency = payment_currency (find latest_key order.id latest);
}

-- `ListOrderQueue.execute`
unfoldable pub list_order_queue : (Uuid → ℕ) → QueueFilter → ℕ → ℕ → Action (List OrderQueueRow)
unfolding list_queue list_by_order_ids latest_from queue_row
list_order_queue uuid_int filter limit offset = do
  orders ← list_queue filter limit offset
  payments ← list_by_order_ids (map id_of_order orders)
  pure (map (queue_row (latest_from uuid_int payments [])) orders)
