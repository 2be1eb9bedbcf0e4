-- ===== src/Web/Operator.antt =====
-- backend/app/modules/operator/api/routes.py. The bodies have all fields of the rows. The bounds on
-- `limit` and `offset` are the schema library's.
use eventcommerce.Base.{ℕ, String, List}
use eventcommerce.Base.Decimal.{Decimal}
use eventcommerce.Result.{Uuid}
use eventcommerce.Payments.Policy.{Hashing}
use eventcommerce.Operator.OrderQueue.{QueueFilter, OrderQueueRow, list_order_queue}
use eventcommerce.Operator.CatalogRows.{CatalogRow, list_catalog_with_stock}
use eventcommerce.Operator.Simulation.{PaymentSimulation, simulate_payment}
use eventcommerce.Web.Response.{Handler, no_clauses, reads}
use eventcommerce.Web.Access.{Gate, require_operator, behind}

unfoldable pub list_order_queue_route :
    (Uuid → ℕ) → QueueFilter → ℕ → ℕ → Gate → Handler (List OrderQueueRow)
list_order_queue_route uuid_int filter limit offset gate =
    behind (require_operator gate) (λ current.
      reads no_clauses 200 (λ rows. rows) (list_order_queue uuid_int filter limit offset))

unfoldable pub list_catalog_route : ℕ → ℕ → Gate → Handler (List CatalogRow)
list_catalog_route limit offset gate =
    behind (require_operator gate)
      (λ current. reads no_clauses 200 (λ rows. rows) (list_catalog_with_stock limit offset))

unfoldable pub simulate_payment_route :
    Hashing → (String → String) → Uuid → Decimal → String → Gate → Handler PaymentSimulation
simulate_payment_route hashing upper order_id amount currency gate =
    behind (require_operator gate)
      (λ current db. (simulate_payment hashing upper order_id amount currency, db))
