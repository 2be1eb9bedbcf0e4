-- ===== src/Web/Failures.antt =====
-- What a failed request has changed: `session.commit()` in the routes of backend/app/modules.
use eventcommerce.Base.{
  ℕ, String, ◌⊎◌, ◌≡◌, refl, sym, ◌∙◌, Bool, true, false, Option, string_eq, if◌then◌else◌,
  Bool-cases, inl, inr,
}
use eventcommerce.Result.{Uuid, Result, ok, err}
use eventcommerce.Session.{Db, Action, in_transaction, pure, ◌>>=◌, ◌>>◌}
use eventcommerce.Orders.Domain.{Order}
use eventcommerce.Orders.UseCases.{get_order}
use eventcommerce.Checkout.Request.{CheckoutRequest}
use eventcommerce.Checkout.Execute.{
  CheckoutServices, Outcome, replayed, placed, commerce, notify, notify_best_effort, result_of,
  execute,
}
use eventcommerce.Iam.Access.{CurrentUser}
use eventcommerce.Web.Response.{
  Response, success, failure, Handler, Clauses, answer, committed, commits, reads,
}
use eventcommerce.Web.Access.{Gate, granted, denied, behind}
use eventcommerce.Web.Orders.{
  create_order_route, get_order_route, get_timeline_route, confirm_order_route, cancel_order_route,
  adjust_stock_route, for_owner, is_owner_or_operator, order_missing,
}
use eventcommerce.Web.Carts.{
  get_cart_route, add_cart_item_route, set_cart_item_quantity_route, remove_cart_item_route,
  create_checkout_route, checkout_answer, checkout_request,
}
use eventcommerce.Web.Products.{create_product_route, update_product_route}
use eventcommerce.Web.Operator.{list_order_queue_route, list_catalog_route, simulate_payment_route}
use eventcommerce.Web.Identity.{me_route}
use eventcommerce.Web.Requests.{
  RouteServices, OperatorRequest, UserRequest, Body, operator_route, user_route, respond, with_body,
}

abbrev pub is_failure : {A : Type 0} → Response A → Bool
is_failure (success status a) = false
is_failure (failure status detail) = true

-- A handler that answers with a failure has changed nothing.
record Undoes {A : Type 0} (route : Handler A) : Type 0 where
  at : (db : Db) → is_failure (route db).0 ≡ true → (route db).1 ≡ db

module _ {A : Type 0} where
  Undoes-still : (f : Db → Response A) → Undoes (λ db. (f db, db))
  Undoes-still f = record { at = λ db h. refl }

  Undoes-behind :
      (gate : Gate) (route : CurrentUser → Handler A)
      → ((current : CurrentUser) → Undoes (route current))
      → Undoes (behind gate route)
  Undoes-behind (granted current) route h = h current
  Undoes-behind (denied status detail) route h = record { at = λ db f. refl }

module _ {A B : Type 0} where
  committed_lem :
      (clauses : Clauses) (status : ℕ) (body : A → B) (r : Result A) (db db' : Db)
      → is_failure (answer clauses status body r) ≡ true
      → committed r db db' ≡ db
  committed_lem clauses status body (ok a) db db' h = cc h
  committed_lem clauses status body (err e) db db' h = refl

  Undoes-commits :
      (clauses : Clauses) (status : ℕ) (body : A → B) (m : Action A)
      → Undoes (commits clauses status body m)
  unfolding commits
  Undoes-commits clauses status body m = record {
    at = λ db h. committed_lem clauses status body (m db).0 db (m db).1 h;
  }

  Undoes-reads :
      (clauses : Clauses) (status : ℕ) (body : A → B) (m : Action A)
      → Undoes (reads clauses status body m)
  unfolding reads
  Undoes-reads clauses status body m = record { at = λ db h. refl }

body_fails :
    {A : Type 0} (body : A → Body) (response : Response A)
    → is_failure (with_body body response) ≡ is_failure response
body_fails body (success status a) = refl
body_fails body (failure status detail) = refl

Undoes-respond :
    {A : Type 0} (body : A → Body) (route : Handler A) → Undoes route → Undoes (respond body route)
Undoes-respond body route h = record {
  at = λ db f. h.at db (sym (body_fails body (route db).0) ∙ f);
}

-- The checkout runs in transactions of its own: the first one fails and is rolled back, or the
-- checkout returns.
checkout_lem :
    (services : CheckoutServices) (r : Result Outcome) (db db' : Db)
    → (let finish = λ (outcome : Outcome). notify services outcome >> pure (result_of outcome) in
        is_failure (checkout_answer ((in_transaction (λ _. (r, db')) >>= finish) db).0) ≡ true
        → ((in_transaction (λ _. (r, db')) >>= finish) db).1 ≡ db)
unfolding notify_best_effort
checkout_lem services (err e) db db' h = refl
checkout_lem services (ok (replayed result)) db db' h = cc h
checkout_lem services (ok (placed order result)) db db' h = cc h

Undoes-execute :
    (services : CheckoutServices) (body : CheckoutRequest) (key : Option String)
    → (current : CurrentUser)
    → Undoes (λ db. (
      checkout_answer (execute services (checkout_request body key current) db).0,
      (execute services (checkout_request body key current) db).1,
    ))
unfolding execute
Undoes-execute services body key current = record {
  at = λ db h.
      let outcome = commerce services (checkout_request body key current) db in
      checkout_lem services outcome.0 db outcome.1 h;
}

Undoes-checkout :
    (services : CheckoutServices) (body : CheckoutRequest) (key : Option String) (gate : Gate)
    → Undoes (create_checkout_route services body key gate)
unfolding create_checkout_route
Undoes-checkout services body key gate =
    Undoes-behind gate _ (λ current. Undoes-execute services body key current)

Undoes-for_owner :
    {A : Type 0} (current : CurrentUser) (route : Order → Handler A) (r : Result Order)
    → ((order : Order) → Undoes (route order))
    → Undoes (for_owner current route r)
Undoes-for_owner current route (ok order) h = go (is_owner_or_operator order.customer_id current)
  where
    go : (b : Bool) → Undoes (λ db. if b then route order db else (failure 404 order_missing, db))
    go true = record { at = λ db f. (h order).at db f }
    go false = record { at = λ db f. refl }
Undoes-for_owner current route (err e) h = record { at = λ db f. refl }

Undoes-get_order :
    {A : Type 0} (order_id : Uuid) (current : CurrentUser) (route : Order → Handler A)
    → ((order : Order) → Undoes (route order))
    → Undoes (λ db. for_owner current route (get_order order_id db).0 db)
Undoes-get_order order_id current route h = record {
  at = λ db f. (Undoes-for_owner current route (get_order order_id db).0 h).at db f;
}

ruleset undo_rules = (
  Undoes-still, Undoes-behind, Undoes-commits, Undoes-reads, Undoes-respond, Undoes-get_order,
  Undoes-checkout,
)

Undoes-operator_route :
    (services : RouteServices) (request : OperatorRequest) (gate : Gate)
    → Undoes (operator_route services request gate)
unfolding operator_route confirm_order_route cancel_order_route adjust_stock_route
    create_product_route update_product_route list_order_queue_route list_catalog_route
    simulate_payment_route
Undoes-operator_route services (OperatorRequest.post_confirmation order_id) gate =
    search (undo_rules)
Undoes-operator_route services request gate = search (undo_rules)

Undoes-user_route :
    (services : RouteServices) (request : UserRequest) (gate : Gate)
    → Undoes (user_route services request gate)
unfolding user_route create_order_route get_order_route get_timeline_route get_cart_route
    add_cart_item_route set_cart_item_quantity_route remove_cart_item_route me_route
Undoes-user_route services (UserRequest.post_order items) gate = search (undo_rules)
Undoes-user_route services request gate = search (undo_rules)

-- Whoever calls, a request to any of the seventeen routes behind a token that is answered with a
-- failure has changed nothing: the tables are those from before it.
pub failure-changes_nothing :
    (services : RouteServices) (operator_request : OperatorRequest) (user_request : UserRequest)
    → (gate : Gate) (db : Db)
    → ((is_failure (operator_route services operator_request gate db).0 ≡ false)
        ⊎ ((operator_route services operator_request gate db).1 ≡ db))
      × ((is_failure (user_route services user_request gate db).0 ≡ false)
          ⊎ ((user_route services user_request gate db).1 ≡ db))
failure-changes_nothing services operator_request user_request gate db = (
  changes_or_fails (operator_route services operator_request gate) db
      (Undoes-operator_route services operator_request gate),
  changes_or_fails (user_route services user_request gate) db
      (Undoes-user_route services user_request gate),
)
  where
    changes_or_fails :
        (route : Handler Body) (db : Db)
        → Undoes route
        → (is_failure (route db).0 ≡ false) ⊎ ((route db).1 ≡ db)
    changes_or_fails route db h = elim (Bool-cases (is_failure (route db).0)) [
      | inl e ↦ inr (h.at db e)
      | inr e ↦ inl e
    ]
