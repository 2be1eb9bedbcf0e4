-- ===== src/Messaging/Events.antt =====
-- The rows of the shared event store, the outbox and the idempotency table:
-- backend/app/shared/messaging (models.py, envelope.py) and backend/app/shared/events/models.py.
use eventcommerce.Base.{ℕ, String, Bool, true, false, Option, List, some, none}
use eventcommerce.Orders.Domain.{Status, OrderItem}
use eventcommerce.Result.{Uuid, Time}

-- The nine event types of `EventEnvelope`.
pub data EventType : Type 0 where
  order_created inventory_reserved inventory_rejected : EventType
  order_inventory_reserved payment_authorized payment_rejected : EventType
  order_payment_authorized order_confirmed order_cancelled : EventType

-- The JSON objects that the program writes as payloads, by their keys. `not_object` is any JSON
-- value that is no object, and `other` an object with none of the keys that a consumer reads.
pub data Payload : Type 0 where
  -- {"customer_id", "items"}
  created : String → List OrderItem → Payload
  -- {"items"}
  items : List OrderItem → Payload
  -- {"items", "reason"}
  rejected_items : List OrderItem → String → Payload
  -- {"status"} and {"status", "reason"}
  status : Status → Payload
  status_reason : Status → String → Payload
  -- {"result"} and {"result", "reason"}
  result : String → Payload
  result_reason : String → String → Payload
  -- {"result", "reason", "amount", "currency"}, the amount in cents or null
  payment_result : String → Option String → Option ℕ → Option String → Payload
  other not_object : Payload

pub data OutboxStatus : Type 0 where
  pending published : OutboxStatus

abbrev pub is_pending : OutboxStatus → Bool
is_pending pending = true
is_pending published = false

pub record OutboxEvent : Type 0 where
  pub id : Uuid
  pub event_type : EventType
  pub aggregate_id : String
  pub payload : Payload
  pub status : OutboxStatus
  pub created_at : Time
  pub published_at : Option Time

-- A row of `domain_events`; `aggregate_type` is "order" in all of them.
pub record DomainEvent : Type 0 where
  pub event_id : Uuid
  pub aggregate_id : String
  pub event_type : EventType
  pub occurred_at : Time
  pub payload : Payload

pub data ClaimState : Type 0 where
  in_progress completed processed : ClaimState

-- The JSON body of `CheckoutResponse`.
pub record ResponseBody : Type 0 where
  pub order_id : String
  pub status : Status
  pub cancel_reason : Option String
  pub payment_status : Option String

pub record ProcessedEvent : Type 0 where
  pub event_id : String
  pub consumer_name : String
  pub payload_hash : Option String
  pub response_status : Option ℕ
  pub response_body : Option ResponseBody
  pub state : ClaimState

-- The text of an event type: `event_type` of an outbox row, the routing key and the header.
abbrev pub event_name : EventType → String
event_name order_created = "OrderCreated"
event_name inventory_reserved = "InventoryReserved"
event_name inventory_rejected = "InventoryRejected"
event_name order_inventory_reserved = "OrderInventoryReserved"
event_name payment_authorized = "PaymentAuthorized"
event_name payment_rejected = "PaymentRejected"
event_name order_payment_authorized = "OrderPaymentAuthorized"
event_name order_confirmed = "OrderConfirmed"
event_name order_cancelled = "OrderCancelled"

-- `payload["items"]`: none is a missing key.
abbrev pub payload_items : Payload → Option (List OrderItem)
payload_items (created _ lines) = some lines
payload_items (items lines) = some lines
payload_items (rejected_items lines _) = some lines
payload_items _ = none

abbrev pub is_object : Payload → Bool
is_object not_object = false
is_object _ = true
