-- ===== src/Tests/Charges.antt =====
-- The charge of an order of two cups, and the money of a row of the order queue.
use Prim.Native.String.{count}
use eventcommerce.Base.{ℕ, ◌≡◌, refl, Option, some, List, [], ◌∷◌, All, find, upsert}
use eventcommerce.Base.Decimal.{finite}
use eventcommerce.Result.{Uuid}
use eventcommerce.Payments.Domain.{Payment}
use eventcommerce.Operator.OrderQueue.{payments_of, latest_from, queue_row, sum_quantities}
use eventcommerce.Operator.Latest.{IsLatestOf, amount_of, currency_of_payment, queue_row-latest}
use eventcommerce.Tests.Requests.{order_of_ann}
use eventcommerce.Base.Int.{pos, ◌≤ℤ◌, ◌*ℤ◌, ◌+ℤ◌}
use eventcommerce.Payments.UseCases.{total, derive_total, derive_lines, price_line}
use eventcommerce.Payments.Totals.{order_total, IsPayable, derive_total-sum}
use eventcommerce.Tests.Data.{start, two_cups}

two_cups_charged : derive_total start (two_cups ∷ []) ≡ total (pos 900) "EUR"
unfolding derive_total derive_lines price_line find ◌*ℤ◌ ◌+ℤ◌
two_cups_charged = refl

derive_total-sum_example :
    (pos 900 ≡ order_total start (two_cups ∷ []))
    × (pos 1 ≤ℤ pos 900)
    × All (IsPayable start "EUR") (two_cups ∷ [])
derive_total-sum_example = derive_total-sum start (two_cups ∷ []) (pos 900) "EUR" two_cups_charged

abbrev declined_first : Payment
declined_first = record {
  id = "p1";
  order_id = "o";
  status = "declined";
  amount = finite (pos 900) 2;
  currency = "EUR";
  created_at = 1;
  failure_reason = some "payment_declined";
}

abbrev then_authorized : Payment
then_authorized = record declined_first {
  id = "p2";
  status = "authorized";
  amount = finite (pos 800) 2;
  created_at = 2;
}

abbrev two_payments : List Payment
two_payments = then_authorized ∷ declined_first ∷ []

abbrev sizes : Uuid → ℕ
sizes id = count id

queue_row-latest_example :
    (latest : Option Payment) × (IsLatestOf sizes (payments_of ("o" ∷ []) two_payments) latest)
    × ((queue_row (latest_from sizes two_payments []) order_of_ann).total ≡ amount_of latest)
    × ((queue_row (latest_from sizes two_payments []) order_of_ann).currency
        ≡ currency_of_payment latest)
queue_row-latest_example = queue_row-latest sizes two_payments order_of_ann

later_shown :
    (queue_row (latest_from sizes two_payments []) order_of_ann).total ≡ some (finite (pos 800) 2)
unfolding queue_row latest_from find upsert sum_quantities
later_shown = refl
