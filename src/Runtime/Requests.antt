-- ===== src/Runtime/Requests.antt =====
-- The requests to the cart, catalog and account routes, which write neither orders nor events:
-- the routes.py of backend/app/modules/cart/api, catalog/api and iam/api.
use eventcommerce.Base.{String, string_eq}
use eventcommerce.Base.Int.{ℤ}
use eventcommerce.Result.{Uuid}
use eventcommerce.Session.{Db, in_transaction, utc_now}
use eventcommerce.Catalog.UseCases.{NewProduct, ProductChanges, create_product, update_product}
use eventcommerce.Cart.UseCases.{get_cart, add_item, set_item_quantity, remove_item}
use eventcommerce.Iam.Accounts.{AccountServices, register_user}
use eventcommerce.Web.Identity.{IdentityServices, authenticate_and_issue, refresh_route}

-- A request that only reads may read the clock.
pub data Request : Type 0 where
  only_reads : Request
  gets_cart : Uuid → Request
  adds_item : Uuid → String → ℤ → Request
  sets_item : Uuid → String → ℤ → Request
  removes_item : Uuid → String → Request
  creates_product : (String → String) → NewProduct → Request
  updates_product : (String → String) → String → ProductChanges → Request
  registers : AccountServices → String → String → Request
  logs_in : IdentityServices → String → String → Request
  refreshes : IdentityServices → String → Request

-- The tables after a request.
unfoldable pub perform : Request → Db → Db
perform only_reads db = (utc_now db).1
perform (gets_cart customer_id) db = (in_transaction (get_cart customer_id) db).1
perform (adds_item customer_id product_id quantity) db =
    (in_transaction (add_item customer_id product_id quantity) db).1
perform (sets_item customer_id product_id quantity) db =
    (in_transaction (set_item_quantity customer_id product_id quantity) db).1
perform (removes_item customer_id product_id) db =
    (in_transaction (remove_item customer_id product_id) db).1
perform (creates_product strip new) db = (in_transaction (create_product strip new) db).1
perform (updates_product strip product_id changes) db =
    (in_transaction (update_product strip product_id changes) db).1
perform (registers services email password) db =
    (in_transaction (register_user services email password) db).1
perform (logs_in services email password) db = (authenticate_and_issue services email password db).1
perform (refreshes services refresh_token) db = (refresh_route services refresh_token db).1
