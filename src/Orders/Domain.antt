-- ===== src/Orders/Domain.antt =====
-- Orders: backend/app/modules/orders/domain (entities.py, services.py).
-- `status` is text with a check constraint to five values, here a data type with those.
use eventcommerce.Base.{
  String, ◌≡◌, Bool, true, false, ◌↔◌, Option, some, List, [], ◌∷◌, arith, Comparable, contains,
  not, if◌then◌else◌, ◌==◌,
}
use eventcommerce.Base.Int.{ℤ}
use eventcommerce.Result.{Uuid, Time, Result, ok, err, invalid_state_transition}

pub data Status : Type 0 where
  pending inventory_reserved payment_authorized confirmed cancelled : Status

abbrev pub status_beq : Status → Status → Bool
status_beq pending pending = true
status_beq inventory_reserved inventory_reserved = true
status_beq payment_authorized payment_authorized = true
status_beq confirmed confirmed = true
status_beq cancelled cancelled = true
status_beq _ _ = false

pub status_beq_iff : (a b : Status) → (status_beq a b ≡ true) ↔ (a ≡ b)
status_beq_iff a b = ground arith

instance abbrev pub status_eq : Comparable Status
status_eq = record { same = status_beq; same_iff = status_beq_iff }

-- `_ALLOWED_TRANSITIONS`
abbrev pub allowed_transitions : Status → List Status
allowed_transitions pending = pending ∷ inventory_reserved ∷ confirmed ∷ cancelled ∷ []
allowed_transitions inventory_reserved = inventory_reserved ∷ payment_authorized ∷ cancelled ∷ []
allowed_transitions payment_authorized = payment_authorized ∷ confirmed ∷ cancelled ∷ []
allowed_transitions confirmed = confirmed ∷ []
allowed_transitions cancelled = cancelled ∷ []

unfoldable pub can_transition : Status → Status → Bool
can_transition from_status to_status = contains to_status (allowed_transitions from_status)

pub record OrderItem : Type 0 where
  pub product_id : String
  pub quantity : ℤ

pub record Order : Type 0 where
  pub id : Uuid
  pub customer_id : String
  pub status : Status
  pub cancel_reason : Option String
  pub created_at : Time
  pub updated_at : Time
  pub items : List OrderItem

-- The methods of `Order`, with `datetime.now` as an argument. `Order` is updated in place, so a
-- method returns the order that the caller goes on with.
unfoldable pub reserve_inventory : Time → Order → Result Order
unfolding can_transition
reserve_inventory now order =
    if not (can_transition order.status inventory_reserved)
    then err invalid_state_transition
    else if not (order.status == inventory_reserved)
    then ok (record order { status = inventory_reserved; updated_at = now })
    else ok order

unfoldable pub authorize_payment : Time → Order → Result Order
unfolding can_transition
authorize_payment now order =
    if not (can_transition order.status payment_authorized)
    then err invalid_state_transition
    else if not (order.status == payment_authorized)
    then ok (record order { status = payment_authorized; updated_at = now })
    else ok order

unfoldable pub confirm : Time → Order → Result Order
unfolding can_transition
confirm now order =
    if not (can_transition order.status confirmed)
    then err invalid_state_transition
    else if not (order.status == confirmed)
    then ok (record order { status = confirmed; updated_at = now })
    else ok order

unfoldable pub cancel : String → Time → Order → Result Order
unfolding can_transition
cancel reason now order =
    if not (can_transition order.status cancelled)
    then err invalid_state_transition
    else if not (order.status == cancelled)
    then ok (record order { status = cancelled; cancel_reason = some reason; updated_at = now })
    else ok order
