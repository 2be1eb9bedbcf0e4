-- ===== src/Checkout/Announced.antt =====
-- The orders that a checkout creates follow the announced lifecycle:
-- backend/app/modules/checkout/application/checkout.py.
use eventcommerce.Base.{
  String, true, ◌≡◌, refl, Option, none, some, List, [], ◌∷◌, ◌++◌, ◌≢◌, upsert, string_eq, arith,
  eq_iff, find-upsert,
}
use eventcommerce.Result.{Result, ok, err, value_error}
use eventcommerce.Session.{Db, Action, in_transaction, pure, or_raise, ◌>>=◌, ◌>>◌}
use eventcommerce.Session.Keeps.{Keeps, keeps_rules, Keeps-or_raise, Leads, Leads-then, Leads-after}
use eventcommerce.Messaging.Events.{OutboxEvent, ProcessedEvent}
use eventcommerce.Messaging.Outbox.{save_outbox}
use eventcommerce.Messaging.Idempotency.{put_row}
use eventcommerce.Orders.Domain.{
  Order, OrderItem, pending, confirmed, cancelled, status_eq, confirm, cancel, can_transition,
}
use eventcommerce.Orders.Repository.{order_row, order_key, update_order, save_order}
use eventcommerce.Orders.UseCases.{create_order}
use eventcommerce.Orders.Announcements.{
  IsAnnounced, create_order-IsAnnounced, replay-append, observe-moved,
}
use eventcommerce.Orders.Changes.{announcement}
use eventcommerce.Payments.UseCases.{new_payment, save_payment, process_payment_failure}
use eventcommerce.Notifications.UseCases.{save_notification}
use eventcommerce.Cart.Repository.{clear_lines}
use eventcommerce.Checkout.Request.{CheckoutRequest}
use eventcommerce.Checkout.Inputs.{CheckoutInputs, resolve_inputs}
use eventcommerce.Checkout.Execute.{
  CheckoutServices, CheckoutResult, Outcome, Attempt, paid, out_of_stock, declined, release_lines,
  clear_cart, confirm_placed, cancel_placed, conclude, reserve_and_pay, try_commerce, placed,
  serialize_response, created_status_code, complete, place, place_unless, commerce, execute, notify,
  result_of, claim_request,
}
use eventcommerce.Checkout.Kept.{
  Writes, Keeps-new_payment, Keeps-clear_cart, Keeps-try_commerce, Keeps-resolve_inputs,
  Keeps-complete, Keeps-claim_request, Keeps-notify,
}
use eventcommerce.Checkout.Untouched.{
  OfOrders, OfOrders-Writes, Keeps-release_lines, Keeps-reserve_and_pay, Pending,
}

module _ (order : Order) where
  abbrev IsPending : Db → Type 0
  IsPending = OfOrders (Pending order)

  IsPending-IsAnnounced : (db : Db) → IsPending db → IsAnnounced db
  IsPending-IsAnnounced db h = record { at = h.0 }

  -- The order of a checkout ends from its first status.
  ended_pending :
      (order' : Order) (event : OutboxEvent) (db after : Db)
      → IsPending db
      → order'.id ≡ order.id
      → can_transition pending order'.status ≡ true
      → pending ≢ order'.status
      → event.event_type ≡ announcement order'.status
      → event.aggregate_id ≡ order.id
      → after.orders ≡ upsert order_key update_order order' db.orders
      → after.outbox_events ≡ db.outbox_events ++ event ∷ []
      → IsAnnounced after
  ended_pending order' event db after (h, found, is) i allowed differs x y o b = record {
    at = λ k.
        rw (o, b)
          (rw replay-append (
            rw (h k) (
              observe-moved k order order' event db.orders found i (rw is allowed) (rw is differs) x
                y)));
  }

  confirm_placed-IsAnnounced : (db : Db) → IsPending db → IsAnnounced (confirm_placed order db).1
  unfolding confirm_placed confirm save_order save_outbox can_transition
  confirm_placed-IsAnnounced db h = rw (h.2) (
      ended_pending (record order { status = confirmed; updated_at = db.next_times 0 }) _ db _ h
        refl refl (ground arith) refl refl refl refl)

  cancel_placed-IsAnnounced :
      (reason : String) (db : Db) → IsPending db → IsAnnounced (cancel_placed reason order db).1
  unfolding cancel_placed cancel save_order save_outbox can_transition
  cancel_placed-IsAnnounced reason db h = rw (h.2) (
      ended_pending
        (record order {
          status = cancelled;
          cancel_reason = some reason;
          updated_at = db.next_times 0;
        })
        _ db _ h refl refl (ground arith) refl refl refl refl)

IsAnnounced-put_row : (row : ProcessedEvent) → Keeps IsAnnounced (put_row row)
unfolding put_row
IsAnnounced-put_row row = record { at = λ db h. record { at = h.at } }

IsAnnounced-Writes : Writes IsAnnounced
unfolding save_payment save_notification clear_lines
IsAnnounced-Writes = record {
  uuid = record { at = λ db h. record { at = h.at } };
  now = record { at = λ db h. record { at = h.at } };
  payment = λ _. record { at = λ db h. record { at = h.at } };
  notification = λ _. record { at = λ db h. record { at = h.at } };
  cart = λ _. record { at = λ db h. record { at = h.at } };
}

module _ (order : Order) where
  conclude-IsAnnounced :
      (inputs : CheckoutInputs) (attempt : Attempt)
      → Leads (IsPending order) IsAnnounced (conclude order inputs attempt)
  unfolding conclude process_payment_failure
  conclude-IsAnnounced inputs (paid payment) =
      Leads-then (confirm_placed order)
        (λ order'. clear_cart inputs.cart_id_to_clear >> pure (order', some payment.status))
        (record { at = confirm_placed-IsAnnounced order })
        (λ order'. search (keeps_rules, IsAnnounced-Writes, Keeps-clear_cart))
  conclude-IsAnnounced inputs out_of_stock =
      Leads-then (cancel_placed "insufficient_stock" order) (λ order'. pure (order', none))
        (record { at = cancel_placed-IsAnnounced order "insufficient_stock" })
        (λ order'. search keeps_rules)
  conclude-IsAnnounced inputs declined =
      Leads-after
        (new_payment order.id "declined" inputs.amount inputs.currency (some "payment_declined"))
        (λ _.
          release_lines inputs.lines
          >> (cancel_placed "payment_declined" order >>= λ order'. pure (order', some "declined")))
        (Keeps-new_payment (OfOrders-Writes (Pending order)) _ _ _ _ _)
        (IsPending-IsAnnounced order)
        (λ _.
          Leads-after (release_lines inputs.lines)
            (λ _.
              cancel_placed "payment_declined" order >>= λ order'. pure (order', some "declined"))
            (Keeps-release_lines (Pending order) inputs.lines) (IsPending-IsAnnounced order)
            (λ _.
              Leads-then (cancel_placed "payment_declined" order)
                (λ order'. pure (order', some "declined"))
                (record { at = cancel_placed-IsAnnounced order "payment_declined" })
                (λ order'. search keeps_rules)))

  -- From the new order to the cached response.
  abbrev completion :
      CheckoutServices → Option String → String → Order × Option String → Action Outcome
  completion services key request_hash concluded =
      complete services key request_hash (serialize_response concluded.0 concluded.1)
      >> pure (
          placed concluded.0 (record {
            status_code = created_status_code;
            body = serialize_response concluded.0 concluded.1;
          }))

  abbrev conclusion :
      CheckoutServices → CheckoutInputs → Option String → String → Attempt → Action Outcome
  conclusion services inputs key request_hash attempt =
      conclude order inputs attempt >>= completion services key request_hash

  abbrev settled : CheckoutServices → CheckoutInputs → Option String → String → Action Outcome
  settled services inputs key request_hash =
      try_commerce (reserve_and_pay services.approval_policy order inputs)
      >>= conclusion services inputs key request_hash

  settled-IsAnnounced :
      (services : CheckoutServices) (inputs : CheckoutInputs) (key : Option String)
      (request_hash : String)
      → Leads (IsPending order) IsAnnounced (settled services inputs key request_hash)
  settled-IsAnnounced services inputs key request_hash =
      Leads-after (try_commerce (reserve_and_pay services.approval_policy order inputs))
        (conclusion services inputs key request_hash)
        (Keeps-try_commerce (reserve_and_pay services.approval_policy order inputs)
          (Keeps-reserve_and_pay (Pending order) services.approval_policy order inputs))
        (IsPending-IsAnnounced order)
        (λ attempt.
          Leads-then (conclude order inputs attempt) (completion services key request_hash)
            (conclude-IsAnnounced inputs attempt)
            (λ concluded. search (keeps_rules, IsAnnounced-put_row, Keeps-complete)))

-- The next order id is free.
abbrev IsFresh : Db → Type 0
IsFresh db = IsAnnounced db × (order_row (db.next_uuids 0) db ≡ none)

IsFresh-put_row : (row : ProcessedEvent) → Keeps IsFresh (put_row row)
unfolding put_row
IsFresh-put_row row = record { at = λ db h. (record { at = h.0.at }, h.1) }

created-IsAnnounced :
    (services : CheckoutServices) (customer_id : String) (inputs : CheckoutInputs)
    (key : Option String) (request_hash : String) (items : List OrderItem)
    → Leads IsFresh IsAnnounced
        (create_order customer_id items >>= λ order. settled order services inputs key request_hash)
unfolding create_order
created-IsAnnounced services customer_id inputs key request_hash [] = record { at = λ db h. h.0 }
created-IsAnnounced services customer_id inputs key request_hash (item ∷ items) = record {
  at = λ db h.
      (settled-IsAnnounced _ services inputs key request_hash).at
        (create_order customer_id (item ∷ items) db).1
        (
          (create_order-IsAnnounced customer_id (item ∷ items) db h.1 h.0).at,
          rw (find-upsert order_key update_order (λ _ _. refl) (db.next_uuids 0) _ db.orders)
              (rw ((eq_iff (db.next_uuids 0) (db.next_uuids 0)).1 refl, h.1) refl),
          refl,
        );
}

module _ (services : CheckoutServices) where
  place-IsAnnounced :
      (customer_id : String) (request : CheckoutRequest)
      → Leads IsFresh IsAnnounced (place services customer_id request)
  unfolding place
  place-IsAnnounced customer_id request =
      Leads-after (resolve_inputs services.parse_uuid customer_id request)
        (λ inputs. create_order customer_id inputs.order_items >>= λ order.
          settled order services inputs request.idempotency_key (services.request_hash request))
        (Keeps-resolve_inputs services.parse_uuid customer_id request) (λ db h. h.0)
        (λ inputs.
          created-IsAnnounced services customer_id inputs request.idempotency_key
            (services.request_hash request) inputs.order_items)

  place_unless-IsAnnounced :
      (customer_id : String) (request : CheckoutRequest) (found : Option CheckoutResult)
      → Leads IsFresh IsAnnounced (place_unless services customer_id request found)
  place_unless-IsAnnounced customer_id request none = place-IsAnnounced customer_id request
  place_unless-IsAnnounced customer_id request (some result) = record { at = λ db h. h.0 }

  commerce-IsAnnounced :
      (request : CheckoutRequest) → Leads IsFresh IsAnnounced (commerce services request)
  unfolding commerce
  commerce-IsAnnounced request =
      Leads-after (or_raise request.customer_id value_error)
        (λ customer_id.
          claim_request (services.request_hash request) request.idempotency_key
          >>= place_unless services customer_id request)
        (Keeps-or_raise request.customer_id value_error) (λ db h. h.0)
        (λ customer_id.
          Leads-after (claim_request (services.request_hash request) request.idempotency_key)
            (place_unless services customer_id request)
            (Keeps-claim_request IsFresh-put_row (services.request_hash request)
              request.idempotency_key)
            (λ db h. h.0) (place_unless-IsAnnounced customer_id request))

  transaction-IsAnnounced :
      (request : CheckoutRequest)
      → Leads IsFresh IsAnnounced (in_transaction (commerce services request))
  transaction-IsAnnounced request = record {
    at = λ db h.
        go db h (commerce services request db).0 (commerce services request db).1
          ((commerce-IsAnnounced request).at db h);
  }
    where
      go :
          (db : Db)
          → IsFresh db
          → (r : Result Outcome) (after : Db) → IsAnnounced after
          → IsAnnounced (in_transaction (λ _. (r, after)) db).1
      go db h (ok outcome) after a = a
      go db h (err e) after a = h.0

  -- A checkout, with its notification.
  pub execute-IsAnnounced :
      (request : CheckoutRequest) (db : Db)
      → order_row (db.next_uuids 0) db ≡ none
      → IsAnnounced db
      → IsAnnounced (execute services request db).1
  unfolding execute
  execute-IsAnnounced request db fresh h =
      (Leads-then (in_transaction (commerce services request))
          (λ outcome. notify services outcome >> pure (result_of outcome))
          (transaction-IsAnnounced request)
          (λ outcome. search (keeps_rules, IsAnnounced-Writes, Keeps-notify))).at
        db (h, fresh)
