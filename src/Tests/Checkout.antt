-- ===== src/Tests/Checkout.antt =====
-- One checkout of two cups, and its replay.
use eventcommerce.Base.{true, ◌≡◌, refl, some, none, [], ◌∷◌, find, upsert}
use eventcommerce.Base.Int.{pos}
use eventcommerce.Base.Decimal.{finite}
use eventcommerce.Result.{ok}
use eventcommerce.Session.{Db, in_transaction}
use eventcommerce.Inventory.Repository.{stock_row}
use eventcommerce.Inventory.Conservation.{total_of}
use eventcommerce.Orders.Domain.{confirmed}
use eventcommerce.Messaging.Claims.{complete_with_response-claim}
use eventcommerce.Messaging.Idempotency.{
  mark_processed, claim, fetch_cached, complete_with_response, conflict,
}
use eventcommerce.Payments.UseCases.{new_payment}
use eventcommerce.Checkout.Request.{CheckoutRequest}
use eventcommerce.Checkout.Execute.{CheckoutServices, CheckoutResult, execute}
use eventcommerce.Runtime.Requests.{perform, adds_item}
use eventcommerce.Runtime.System.{here, next, asks, cancels}
use eventcommerce.Runtime.Replays.{later_execute_replays}
use eventcommerce.Orders.UseCases.{cancel_order}
use eventcommerce.Checkout.Stock.{execute-conserves_stock}
use eventcommerce.Tests.Data.{start, services}

abbrev checkout : CheckoutServices
checkout = record {
  parse_uuid = some;
  request_hash = λ _. "h";
  response_bytes = λ _. 100;
  approval_policy = λ _ _ _. true;
}

abbrev request : CheckoutRequest
request = record {
  customer_id = some "ann";
  cart_id = none;
  items = some (record { product_id = "cup"; quantity = pos 2 } ∷ []);
  amount = some (finite (pos 900) 2);
  currency = some "EUR";
  idempotency_key = some "k";
}

abbrev checked_out : Db
checked_out = (execute checkout request start).1

abbrev confirmation : CheckoutResult
confirmation = record {
  status_code = 201;
  body = record {
    order_id = "i";
    status = confirmed;
    cancel_reason = none;
    payment_status = some "authorized";
  };
}

checkout_confirms : execute checkout request start ≡ (ok confirmation, checked_out)
unfolding execute find upsert new_payment
checkout_confirms = refl

-- A shopper changes a cart, and the operator cancels another order, in between.
abbrev shopped : Db
shopped = perform (adds_item "ann" "cup" (pos 2)) checked_out

abbrev cancelled_other : Db
cancelled_other = (in_transaction (cancel_order "other" "late") shopped).1

later_execute_replays_example :
    execute checkout request cancelled_other ≡ (ok confirmation, cancelled_other)
later_execute_replays_example =
    later_execute_replays services checkout "k" "ann" request request confirmation start checked_out
      cancelled_other refl checkout_confirms
      (next (next here (asks (adds_item "ann" "cup" (pos 2)) refl)) (cancels "other" "late" refl))
      refl refl

execute-conserves_stock_example :
    total_of (stock_row "cup" checked_out) ≡ total_of (stock_row "cup" start)
execute-conserves_stock_example = execute-conserves_stock checkout request start "cup"

abbrev kept : Db
kept = (complete_with_response (λ _. 100) "k" "Checkout" 201 confirmation.body "h" start).1

abbrev kept_later : Db
kept_later = (mark_processed "m" "OrdersConsumer" kept).1

complete_with_response-claim_example :
    (claim "k" "Checkout" "g" kept_later ≡ (ok conflict, kept_later))
    × (fetch_cached "k" "Checkout" kept_later
        ≡ (ok (some (record { status = 201; body = confirmation.body })), kept_later))
unfolding complete_with_response find upsert mark_processed
complete_with_response-claim_example =
    complete_with_response-claim (λ _. 100) "k" "Checkout" 201 confirmation.body "h" "g" start kept
      kept_later refl refl
