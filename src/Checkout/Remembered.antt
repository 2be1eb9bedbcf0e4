-- ===== src/Checkout/Remembered.antt =====
-- The row of a key whose response is stored stays, whatever checkouts come after it:
-- backend/app/modules/checkout/application/checkout.py.
use eventcommerce.Base.{
  ℕ, String, Bool, false, ◌≡◌, refl, some, List, [], ◌∷◌, find, ◌==◌, string_eq, pair_eq,
  Bool-cases, inl, inr, Option-cases, pair_beq_iff, key-find, sym, subst, ltb,
}
use eventcommerce.Session.{Db}
use eventcommerce.Session.Keeps.{Keeps, keeps_rules}
use eventcommerce.Messaging.Events.{EventType, Payload, ProcessedEvent, ResponseBody}
use eventcommerce.Messaging.Outbox.{save_outbox}
use eventcommerce.Messaging.Idempotency.{
  claim_key, claim_row, claim, claim_with, put_row, complete_with_response, is_completed,
  row_or_new, max_response_body_bytes,
}
use eventcommerce.Messaging.Claims.{claim_row-put_row, row_or_new-key}
use eventcommerce.Orders.Domain.{Order, OrderItem}
use eventcommerce.Orders.Repository.{save_order}
use eventcommerce.Orders.UseCases.{create_order}
use eventcommerce.Payments.UseCases.{process_payment_failure}
use eventcommerce.Checkout.Inputs.{CheckoutInputs}
use eventcommerce.Checkout.Execute.{
  checkout_consumer_name, Attempt, paid, out_of_stock, declined, confirm_placed, cancel_placed,
  conclude, release_lines, reserve_and_pay,
}
use eventcommerce.Base.Int.{ℤ}
use eventcommerce.Base.Decimal.{Decimal}
use eventcommerce.Checkout.Kept.{
  Writes, write_rules, Keeps-new_payment, Keeps-clear_cart, Keeps-try_commerce,
  Keeps-resolve_inputs, Keeps-notify,
}
use eventcommerce.Checkout.Untouched.{
  OfOrders, OfOrders-Writes, Keeps-release_lines, Keeps-reserve_and_pay,
}

module _ (key : String) (row : ProcessedEvent) where
  abbrev pub HasRow : List ProcessedEvent → Type 0
  HasRow rows = find claim_key (key, checkout_consumer_name) rows ≡ some row

  abbrev pub Remembers : Db → Type 0
  Remembers = OfOrders (λ _ _ rows. HasRow rows)

  put_row-Remembers :
      (other : ProcessedEvent) (db : Db)
      → (claim_key other == (key, checkout_consumer_name)) ≡ false
      → Remembers db
      → Remembers (put_row other db).1
  put_row-Remembers other db differs h =
      rw (claim_row-put_row key checkout_consumer_name other db) (rw differs h)

  -- A claim or a response of another key.
  module _ (other : String) (differs : (other == key) ≡ false) where
    other_key :
        (found : ProcessedEvent)
        → claim_key found ≡ (other, checkout_consumer_name)
        → (claim_key found == (key, checkout_consumer_name)) ≡ false
    other_key found e =
        subst (λ (k : String × String). (k == (key, checkout_consumer_name)) ≡ false) (sym e)
          (rw differs refl)

    pub claim-Remembers :
        (payload_hash : String) → Keeps Remembers (claim other checkout_consumer_name payload_hash)
    unfolding claim claim_with
    claim-Remembers payload_hash = record {
      at = λ db h. elim (Option-cases (claim_row other checkout_consumer_name db)) [
        | inl absent ↦ rw absent (put_row-Remembers _ db (rw differs refl) h)
        | inr (found, e) ↦ rw e (elim (Bool-cases (is_completed found.state)) [
          | inl done ↦ rw done h
          | inr pending ↦ rw pending (
              put_row-Remembers _ db
                (other_key found
                  (key-find claim_key (other, checkout_consumer_name) db.processed_events e))
                h)
        ])
      ];
    }

    pub complete-Remembers :
        (response_bytes : ResponseBody → ℕ) (status : ℕ) (body : ResponseBody)
        (payload_hash : String)
        → Keeps Remembers (
            complete_with_response response_bytes other checkout_consumer_name status body
              payload_hash)
    unfolding complete_with_response
    complete-Remembers response_bytes status body payload_hash = record {
      at = λ db h. elim (Bool-cases (ltb max_response_body_bytes (response_bytes body))) [
        | inl large ↦ rw large h
        | inr fits ↦ rw fits (
            put_row-Remembers _ db
              (other_key
                (row_or_new other checkout_consumer_name
                  (claim_row other checkout_consumer_name db))
                ((pair_beq_iff
                    (claim_key (
                      row_or_new other checkout_consumer_name
                        (claim_row other checkout_consumer_name db)))
                    (other, checkout_consumer_name)).0
                  (row_or_new-key other checkout_consumer_name status body payload_hash db)))
              h)
      ];
    }

  pub save_outbox-Remembers :
      (event_type : EventType) (aggregate_id : String) (payload : Payload)
      → Keeps Remembers (save_outbox event_type aggregate_id payload)
  unfolding save_outbox
  save_outbox-Remembers event_type aggregate_id payload = record { at = λ db h. h }

  pub save_order-Remembers : (order : Order) → Keeps Remembers (save_order order)
  unfolding save_order
  save_order-Remembers order = record { at = λ db h. h }

  pub create_order-Remembers :
      (customer_id : String) (items : List OrderItem)
      → Keeps Remembers (create_order customer_id items)
  unfolding create_order
  create_order-Remembers customer_id [] = search keeps_rules
  create_order-Remembers customer_id (item ∷ items) = record { at = λ db h. h }

  pub Remembers-Writes : Writes Remembers
  Remembers-Writes = OfOrders-Writes (λ _ _ rows. HasRow rows)

  pub release_lines-Remembers : (lines : List (String × ℤ)) → Keeps Remembers (release_lines lines)
  release_lines-Remembers lines = Keeps-release_lines (λ _ _ rows. HasRow rows) lines

  pub reserve_and_pay-Remembers :
      (approval_policy : String → Decimal → String → Bool) (order : Order) (inputs : CheckoutInputs)
      → Keeps Remembers (reserve_and_pay approval_policy order inputs)
  reserve_and_pay-Remembers approval_policy order inputs =
      Keeps-reserve_and_pay (λ _ _ rows. HasRow rows) approval_policy order inputs

  ruleset remembered_rules = (
    keeps_rules, Remembers-Writes, write_rules, save_outbox-Remembers, save_order-Remembers,
    create_order-Remembers, release_lines-Remembers, reserve_and_pay-Remembers, Keeps-new_payment,
    Keeps-clear_cart, Keeps-try_commerce, Keeps-resolve_inputs, Keeps-notify,
  )

  confirm_placed-Remembers : (order : Order) → Keeps Remembers (confirm_placed order)
  unfolding confirm_placed
  confirm_placed-Remembers order = search remembered_rules depth 9

  cancel_placed-Remembers :
      (reason : String) (order : Order) → Keeps Remembers (cancel_placed reason order)
  unfolding cancel_placed
  cancel_placed-Remembers reason order = search remembered_rules depth 9

  pub conclude-Remembers :
      (order : Order) (inputs : CheckoutInputs) (attempt : Attempt)
      → Keeps Remembers (conclude order inputs attempt)
  unfolding conclude process_payment_failure
  conclude-Remembers order inputs (paid payment) =
      search (remembered_rules, confirm_placed-Remembers) depth 9
  conclude-Remembers order inputs out_of_stock =
      search (remembered_rules, cancel_placed-Remembers) depth 9
  conclude-Remembers order inputs declined =
      search (remembered_rules, cancel_placed-Remembers) depth 9
