-- ===== src/Cart/Made.antt =====
-- Making a cart leaves the lines alone: `get_or_create` of
-- backend/app/modules/cart/infrastructure/sqlalchemy_repository.py.
use eventcommerce.Base.{
  ℕ, zero, suc, Option, none, some, List, find, Bool-cases, inl, inr, string_eq,
}
use eventcommerce.Result.{Uuid}
use eventcommerce.Session.{Db, Action, uuid4, utc_now}
use eventcommerce.Session.Keeps.{Keeps, keeps_rules, Keeps-bind}
use eventcommerce.Cart.Domain.{Cart, CartLine}
use eventcommerce.Cart.Repository.{
  is_some_user, user_id_of, insert_cart, create_attempt, create_attempts, get_or_create,
  get_cart_by_customer, found_or, max_create_attempts,
}

-- What is said of the lines alone.
abbrev pub OnLines : (List CartLine → Type 0) → Db → Type 0
OnLines Q db = Q db.cart_items

module _ (Q : List CartLine → Type 0) where
  insert_cart-Keeps : (cart : Cart) → Keeps (OnLines Q) (insert_cart cart)
  unfolding insert_cart
  insert_cart-Keeps cart = record {
    at = λ db h. elim (Bool-cases (is_some_user (find user_id_of cart.customer_id db.users))) [
      | inl known ↦ rw known h
      | inr unknown ↦ rw unknown h
    ];
  }

  uuid4-Keeps : Keeps (OnLines Q) uuid4
  uuid4-Keeps = record { at = λ db h. h }

  utc_now-Keeps : Keeps (OnLines Q) utc_now
  utc_now-Keeps = record { at = λ db h. h }

  create_attempt-Keeps :
      (customer_id : Uuid) (rest : Action Cart)
      → Keeps (OnLines Q) rest
      → Keeps (OnLines Q) (create_attempt customer_id rest)
  unfolding create_attempt
  create_attempt-Keeps customer_id rest k =
      search (keeps_rules, uuid4-Keeps, utc_now-Keeps, insert_cart-Keeps) depth 12

  found_or-Keeps :
      (create : Action Cart) (found : Option Cart)
      → Keeps (OnLines Q) create
      → Keeps (OnLines Q) (found_or create found)
  found_or-Keeps create none k = k
  found_or-Keeps create (some cart) k = search keeps_rules

  create_attempts-Keeps :
      (attempts : ℕ) (customer_id : Uuid) → Keeps (OnLines Q) (create_attempts attempts customer_id)
  unfolding create_attempts get_cart_by_customer
  create_attempts-Keeps zero customer_id = search keeps_rules
  create_attempts-Keeps (suc attempts) customer_id =
      Keeps-bind (get_cart_by_customer customer_id)
        (found_or (create_attempt customer_id (create_attempts attempts customer_id)))
        (search keeps_rules)
        (λ found.
          found_or-Keeps (create_attempt customer_id (create_attempts attempts customer_id)) found (
            create_attempt-Keeps customer_id (create_attempts attempts customer_id)
              (create_attempts-Keeps attempts customer_id)))

  pub get_or_create-Keeps : (customer_id : Uuid) → Keeps (OnLines Q) (get_or_create customer_id)
  unfolding get_or_create
  get_or_create-Keeps customer_id = create_attempts-Keeps max_create_attempts customer_id
