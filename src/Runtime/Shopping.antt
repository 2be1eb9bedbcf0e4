-- ===== src/Runtime/Shopping.antt =====
-- What the use cases of a cart leave alone: backend/app/modules/cart/application.
use eventcommerce.Base.{
  ℕ, zero, suc, String, Option, none, some, List, find, string_eq, Bool-cases, inl, inr,
}
use eventcommerce.Base.Int.{ℤ}
use eventcommerce.Result.{Uuid}
use eventcommerce.Session.{Db, Action, uuid4, utc_now, token_urlsafe}
use eventcommerce.Session.Keeps.{Keeps, keeps_rules, Keeps-bind}
use eventcommerce.Messaging.Events.{OutboxEvent, ProcessedEvent}
use eventcommerce.Orders.Domain.{Order}
use eventcommerce.Inventory.Domain.{Inventory}
use eventcommerce.Catalog.Domain.{Product}
use eventcommerce.Cart.Domain.{Cart, CartLine}
use eventcommerce.Cart.Repository.{
  is_some_user, user_id_of, list_lines, get_line, delete_found, delete_line, insert_cart, save_line,
  create_attempt, create_attempts, get_or_create, get_cart_by_customer, found_or,
  max_create_attempts,
}
use eventcommerce.Cart.UseCases.{
  get_cart, active_product, add_valid, set_valid, add_item, found_line, set_item_quantity,
  remove_item, increment_or_insert,
}

-- A property of the orders, the outbox, the processed events and the stock.
module _ (Q : List Order → List OutboxEvent → List ProcessedEvent → List Inventory → Type 0) where
  abbrev pub OfOthers : Db → Type 0
  OfOthers db = Q db.orders db.outbox_events db.processed_events db.inventory

  pub Keeps-uuid4 : Keeps OfOthers uuid4
  Keeps-uuid4 = record { at = λ db h. h }

  pub Keeps-utc_now : Keeps OfOthers utc_now
  Keeps-utc_now = record { at = λ db h. h }

  pub Keeps-token_urlsafe : Keeps OfOthers token_urlsafe
  Keeps-token_urlsafe = record { at = λ db h. h }

  insert_cart-Keeps : (cart : Cart) → Keeps OfOthers (insert_cart cart)
  unfolding insert_cart
  insert_cart-Keeps cart = record {
    at = λ db h. elim (Bool-cases (is_some_user (find user_id_of cart.customer_id db.users))) [
      | inl known ↦ rw known h
      | inr unknown ↦ rw unknown h
    ];
  }

  save_line-Keeps : (line : CartLine) → Keeps OfOthers (save_line line)
  unfolding save_line
  save_line-Keeps line = record { at = λ db h. h }

  delete_found-Keeps :
      (cart_id : Uuid) (product_id : String) (found : Option CartLine)
      → Keeps OfOthers (delete_found cart_id product_id found)
  delete_found-Keeps cart_id product_id none = search keeps_rules
  delete_found-Keeps cart_id product_id (some line) = record { at = λ db h. h }

  delete_line-Keeps :
      (cart_id : Uuid) (product_id : String) → Keeps OfOthers (delete_line cart_id product_id)
  unfolding delete_line get_line
  delete_line-Keeps cart_id product_id = search (keeps_rules, delete_found-Keeps)

  found_or-Keeps :
      (create : Action Cart) (found : Option Cart)
      → Keeps OfOthers create
      → Keeps OfOthers (found_or create found)
  found_or-Keeps create none k = k
  found_or-Keeps create (some cart) k = search keeps_rules

  create_attempt-Keeps :
      (customer_id : Uuid) (rest : Action Cart)
      → Keeps OfOthers rest
      → Keeps OfOthers (create_attempt customer_id rest)
  unfolding create_attempt
  create_attempt-Keeps customer_id rest k =
      search (keeps_rules, Keeps-uuid4, Keeps-utc_now, insert_cart-Keeps) depth 12

  create_attempts-Keeps :
      (attempts : ℕ) (customer_id : Uuid) → Keeps OfOthers (create_attempts attempts customer_id)
  unfolding create_attempts get_cart_by_customer
  create_attempts-Keeps zero customer_id = search keeps_rules
  create_attempts-Keeps (suc attempts) customer_id =
      Keeps-bind (get_cart_by_customer customer_id)
        (found_or (create_attempt customer_id (create_attempts attempts customer_id)))
        (search keeps_rules)
        (λ found.
          found_or-Keeps (create_attempt customer_id (create_attempts attempts customer_id)) found (
            create_attempt-Keeps customer_id (create_attempts attempts customer_id)
              (create_attempts-Keeps attempts customer_id)))

  get_or_create-Keeps : (customer_id : Uuid) → Keeps OfOthers (get_or_create customer_id)
  unfolding get_or_create
  get_or_create-Keeps customer_id = create_attempts-Keeps max_create_attempts customer_id

  list_lines-Keeps : (cart_id : Uuid) → Keeps OfOthers (list_lines cart_id)
  unfolding list_lines
  list_lines-Keeps cart_id = search keeps_rules

  get_line-Keeps :
      (cart_id : Uuid) (product_id : String) → Keeps OfOthers (get_line cart_id product_id)
  unfolding get_line
  get_line-Keeps cart_id product_id = search keeps_rules

  active_product-Keeps : (found : Option Product) → Keeps OfOthers (active_product found)
  active_product-Keeps none = search keeps_rules
  active_product-Keeps (some product) = search keeps_rules

  found_line-Keeps : (found : Option CartLine) → Keeps OfOthers (found_line found)
  found_line-Keeps none = search keeps_rules
  found_line-Keeps (some line) = search keeps_rules

  increment_or_insert-Keeps :
      (cart_id : Uuid) (product_id : String) (quantity : ℤ) (line_count : ℕ)
      (current : Option CartLine)
      → Keeps OfOthers (increment_or_insert cart_id product_id quantity line_count current)
  increment_or_insert-Keeps cart_id product_id quantity line_count none =
      search (keeps_rules, save_line-Keeps)
  increment_or_insert-Keeps cart_id product_id quantity line_count (some current) =
      search (keeps_rules, save_line-Keeps)

  ruleset cart_rules = (
    keeps_rules, get_or_create-Keeps, list_lines-Keeps, get_line-Keeps, active_product-Keeps,
    found_line-Keeps, increment_or_insert-Keeps, save_line-Keeps, delete_line-Keeps,
  )

  pub get_cart-Keeps : (customer_id : Uuid) → Keeps OfOthers (get_cart customer_id)
  unfolding get_cart
  get_cart-Keeps customer_id = search cart_rules depth 15

  pub add_item-Keeps :
      (customer_id : Uuid) (product_id : String) (quantity : ℤ)
      → Keeps OfOthers (add_item customer_id product_id quantity)
  unfolding add_item add_valid
  add_item-Keeps customer_id product_id quantity = search cart_rules depth 25

  pub set_item_quantity-Keeps :
      (customer_id : Uuid) (product_id : String) (quantity : ℤ)
      → Keeps OfOthers (set_item_quantity customer_id product_id quantity)
  unfolding set_item_quantity set_valid
  set_item_quantity-Keeps customer_id product_id quantity = search cart_rules depth 20

  pub remove_item-Keeps :
      (customer_id : Uuid) (product_id : String)
      → Keeps OfOthers (remove_item customer_id product_id)
  unfolding remove_item
  remove_item-Keeps customer_id product_id = search cart_rules depth 15
