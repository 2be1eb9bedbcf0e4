-- ===== src/Orders/Operations.antt =====
-- Every operation on orders is an `OrderChange`: the use cases of the operator and the consumers.
use eventcommerce.Base.{
  String, Bool, ◌≡◌, ◌≢◌, refl, true, false, not, some, arith, ◌==◌, string_eq, inl, inr,
  Option-cases, key-find, if◌then◌else◌, subst, sym,
}
use eventcommerce.Result.{Uuid, Error}
use eventcommerce.Session.{Db, Action, pure, raise, ◌>>=◌, >>=-eq}
use eventcommerce.Messaging.Events.{EventType, Payload}
use eventcommerce.Messaging.Idempotency.{has_claim, mark_processed, is_processed}
use eventcommerce.Orders.Domain.{
  Status, Order, status_eq, inventory_reserved, payment_authorized, confirmed, cancelled,
  reserve_inventory, authorize_payment, confirm, cancel,
}
use eventcommerce.Orders.Repository.{order_row, order_key}
use eventcommerce.Orders.UseCases.{
  get_order, get_order_missing, get_order_found, record_transition, confirm_order, cancel_order,
}
use eventcommerce.Orders.Consumers.{
  is_terminal, once, stage_reserved, cancel_rejected, inventory_result_of,
  process_order_inventory_result, stage_authorized, cancel_declined, payment_result_of,
  process_order_payment_result, confirm_authorized, finalize_order, finalize_payment_authorized,
}
use eventcommerce.Orders.Changes.{
  OrderChange, idle, mark-OrderChange, mark_processed-OrderChange, reserved-OrderChange,
  authorized-OrderChange, confirmed-OrderChange, cancelled-OrderChange,
}

-- Called on these tables, `m` makes an `OrderChange`.
pub record Changes {A : Type 0} (db : Db) (m : Action A) : Type 0 where
  pub change : OrderChange db (m db).1

module _ (db : Db) where
  Changes-pure : {A : Type 0} (a : A) → Changes db (pure a)
  Changes-pure a = record { change = idle refl refl refl }

  Changes-raise : {A : Type 0} (e : Error) → Changes db (raise {A = A} e)
  Changes-raise e = record { change = idle refl refl refl }

  Changes-if :
      {A : Type 0} (b : Bool) (m n : Action A)
      → (b ≡ true → Changes db m)
      → (b ≡ false → Changes db n)
      → Changes db (if b then m else n)
  Changes-if true m n then_change else_change = then_change refl
  Changes-if false m n then_change else_change = else_change refl

  Changes-mark_processed :
      (event_id consumer_name : String) → Changes db (mark_processed event_id consumer_name)
  Changes-mark_processed event_id consumer_name = record {
    change = mark_processed-OrderChange event_id consumer_name db;
  }

  -- A message that was processed before changes nothing.
  Changes-once :
      (event_id consumer_name : String) (run : Action Unit)
      → Changes db run
      → Changes db (once event_id consumer_name run)
  unfolding once is_processed
  Changes-once event_id consumer_name run h = record {
    change =
        (Changes-if (has_claim event_id consumer_name db) (pure tt) run (λ _. Changes-pure tt)
          (λ _. h)).change;
  }

  Changes-mark :
      {A : Type 0} (m : Action A) (event_id consumer_name : String)
      → Changes db m
      → Changes db (m >>= λ _. mark_processed event_id consumer_name)
  Changes-mark m event_id consumer_name h = record {
    change = mark-OrderChange m event_id consumer_name db h.change;
  }

  -- An order that is not found changes nothing; one that is found has the id that was looked for.
  Changes-with_order :
      {A : Type 0} (order_id : Uuid) (run : Order → Action A)
      → ((order : Order) → order_row order.id db ≡ some order → Changes db (run order))
      → Changes db (get_order order_id >>= run)
  Changes-with_order order_id run h = elim (Option-cases (order_row order_id db)) [
    | inl missing ↦ record {
      change =
          rw (>>=-eq (get_order order_id) run db (get_order_missing order_id db missing))
            (idle refl refl refl);
    }
    | inr (order, found) ↦ record {
      change =
          rw (>>=-eq (get_order order_id) run db (get_order_found order_id order db found))
            (h order (
              subst (λ k. order_row k db ≡ some order)
                (sym (key-find order_key order_id db.orders found)) found)).change;
    }
  ]

  module _ (entry : EventType) (entry_payload event_payload : Payload) (order : Order)
      (found : order_row order.id db ≡ some order) where
    Changes-reserved :
        order.status ≢ inventory_reserved
        → Changes db (
            record_transition reserve_inventory entry entry_payload
              EventType.order_inventory_reserved event_payload order)
    Changes-reserved h = record {
      change =
          reserved-OrderChange entry entry_payload event_payload order db found order.status refl h;
    }

    Changes-authorized :
        order.status ≢ payment_authorized
        → Changes db (
            record_transition authorize_payment entry entry_payload
              EventType.order_payment_authorized event_payload order)
    Changes-authorized h = record {
      change =
          authorized-OrderChange entry entry_payload event_payload order db found order.status refl
            h;
    }

    Changes-confirmed :
        order.status ≢ confirmed
        → Changes db (
            record_transition confirm entry entry_payload EventType.order_confirmed event_payload
              order)
    Changes-confirmed h = record {
      change =
          confirmed-OrderChange entry entry_payload event_payload order db found order.status refl
            h;
    }

    Changes-cancelled :
        (reason : String)
        → order.status ≢ cancelled
        → Changes db (
            record_transition
              (cancel reason)
              entry
              entry_payload
              EventType.order_cancelled
              event_payload
              order)
    Changes-cancelled reason h = record {
      change =
          cancelled-OrderChange entry entry_payload event_payload order db found reason order.status
            refl h;
    }

-- What the tests of the handlers say of the status.
ne-reserved : (s : Status) → (s == inventory_reserved) ≡ false → s ≢ inventory_reserved
ne-reserved s h = ground arith

ne-authorized : (s : Status) → not (s == inventory_reserved) ≡ false → s ≢ payment_authorized
ne-authorized s h = ground arith

ne-confirmed : (s : Status) → not (s == payment_authorized) ≡ false → s ≢ confirmed
ne-confirmed s h = ground arith

ne-cancelled : (s : Status) → (s == cancelled) ≡ false → s ≢ cancelled
ne-cancelled s h = ground arith

open-ne-cancelled : (s : Status) → is_terminal s ≡ false → s ≢ cancelled
open-ne-cancelled s h = ground arith

reserved-ne-cancelled : (s : Status) → not (s == inventory_reserved) ≡ false → s ≢ cancelled
reserved-ne-cancelled s h = ground arith

ruleset change_rules = (
  Changes-pure, Changes-raise, Changes-if, Changes-mark_processed, Changes-once, Changes-mark,
  Changes-with_order, Changes-reserved, Changes-authorized, Changes-confirmed, Changes-cancelled,
  ne-reserved, ne-authorized, ne-confirmed, ne-cancelled, open-ne-cancelled, reserved-ne-cancelled,
)

pub Changes-confirm_order : (order_id : Uuid) (db : Db) → Changes db (confirm_order order_id)
unfolding confirm_order
Changes-confirm_order order_id db = search change_rules depth 7

pub Changes-cancel_order :
    (order_id : Uuid) (reason : String) (db : Db) → Changes db (cancel_order order_id reason)
unfolding cancel_order
Changes-cancel_order order_id reason db = search change_rules depth 7

pub Changes-process_order_inventory_result :
    (event_id : String) (order_id : Uuid) (result : String) (db : Db)
    → Changes db (process_order_inventory_result event_id order_id result)
unfolding process_order_inventory_result inventory_result_of stage_reserved cancel_rejected
Changes-process_order_inventory_result event_id order_id result db = search change_rules depth 9

pub Changes-process_order_payment_result :
    (event_id : String) (order_id : Uuid) (result : String) (db : Db)
    → Changes db (process_order_payment_result event_id order_id result)
unfolding process_order_payment_result payment_result_of stage_authorized cancel_declined
Changes-process_order_payment_result event_id order_id result db = search change_rules depth 9

pub Changes-finalize_payment_authorized :
    (event_id : String) (order_id : Uuid) (db : Db)
    → Changes db (finalize_payment_authorized event_id order_id)
unfolding finalize_payment_authorized finalize_order confirm_authorized
Changes-finalize_payment_authorized event_id order_id db = search change_rules depth 9
