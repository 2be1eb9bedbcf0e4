-- ===== src/Runtime/Asking.antt =====
-- What the requests to the cart, catalog and account routes leave alone: the routes.py of
-- backend/app/modules/cart/api, catalog/api and iam/api.
use eventcommerce.Base.{String, List, find, string_eq, Bool-cases, inl, inr}
use eventcommerce.Result.{Uuid, Time, Result, ok, err}
use eventcommerce.Session.{Db}
use eventcommerce.Session.Keeps.{Keeps, keeps_rules, Keeps-in_transaction}
use eventcommerce.Messaging.Events.{OutboxEvent, ProcessedEvent}
use eventcommerce.Orders.Domain.{Order}
use eventcommerce.Inventory.Domain.{Inventory}
use eventcommerce.Catalog.Domain.{Product}
use eventcommerce.Catalog.Repository.{get_product_by_id, save_product, store_product}
use eventcommerce.Catalog.UseCases.{
  NewProduct, ProductChanges, touch, seed_inventory, save_checked, create_product, update_product,
}
use eventcommerce.Cart.UseCases.{get_cart}
use eventcommerce.Iam.Domain.{User, RefreshToken}
use eventcommerce.Iam.Accounts.{
  AccountServices, is_user, email_key, register_user, create_user, add_user, get_by_email,
  authenticate_user,
}
use eventcommerce.Iam.Tokens.{
  TokenServices, issue_refresh_token, rotate_refresh_token, rotate_stored, exchange, consume,
  mint_successor, revoke_and_raise, revoke_family, add_token, get_by_hash,
}
use eventcommerce.Web.Identity.{
  IdentityServices, sign_in, after_login, authenticate_and_issue, after_rotation, refresh_route,
  is_invalid_credentials, is_invalid_token,
}
use eventcommerce.Runtime.Requests.{
  Request, only_reads, gets_cart, adds_item, sets_item, removes_item, creates_product,
  updates_product, registers, logs_in, refreshes, perform,
}
use eventcommerce.Runtime.Shopping.{
  OfOthers, Keeps-uuid4, Keeps-utc_now, Keeps-token_urlsafe, get_cart-Keeps, add_item-Keeps,
  set_item_quantity-Keeps, remove_item-Keeps,
}

module _ (Q : List Order → List OutboxEvent → List ProcessedEvent → List Inventory → Type 0) where
  store_product-Keeps : (product : Product) → Keeps (OfOthers Q) (store_product product)
  unfolding store_product
  store_product-Keeps product = record { at = λ db h. h }

  add_token-Keeps : (token : RefreshToken) → Keeps (OfOthers Q) (add_token token)
  unfolding add_token
  add_token-Keeps token = record { at = λ db h. h }

  consume-Keeps : (token_id : Uuid) (at : Time) → Keeps (OfOthers Q) (consume token_id at)
  unfolding consume
  consume-Keeps token_id at = record { at = λ db h. h }

  revoke_family-Keeps :
      (family_id : Uuid) (at : Time) → Keeps (OfOthers Q) (revoke_family family_id at)
  unfolding revoke_family
  revoke_family-Keeps family_id at = record { at = λ db h. h }

  save_checked-Keeps :
      (strip : String → String) (product : Product)
      → Keeps (OfOthers Q) (save_checked strip product)
  unfolding save_checked touch save_product
  save_checked-Keeps strip product =
      search (keeps_rules, Keeps-utc_now, store_product-Keeps) depth 12

  update_product-Keeps :
      (strip : String → String) (product_id : String) (changes : ProductChanges)
      → Keeps (OfOthers Q) (update_product strip product_id changes)
  unfolding update_product get_product_by_id
  update_product-Keeps strip product_id changes = search (keeps_rules, save_checked-Keeps) depth 12

  create_product-Keeps :
      (strip : String → String) (new : NewProduct)
      → Keeps (OfOthers Q) (seed_inventory new.id)
      → Keeps (OfOthers Q) (create_product strip new)
  unfolding create_product get_product_by_id
  create_product-Keeps strip new seeds =
      search (keeps_rules, Keeps-utc_now, save_checked-Keeps) depth 15

  add_user-Keeps :
      (services : AccountServices) (user : User) → Keeps (OfOthers Q) (add_user services user)
  unfolding add_user
  add_user-Keeps services user = record {
    at = λ db h.
        elim (Bool-cases
          (is_user (find (email_key services) (services.db_lower user.email) db.users))) [
            | inl taken ↦ rw taken h
            | inr free ↦ rw free h
          ];
  }

  register_user-Keeps :
      (services : AccountServices) (email password : String)
      → Keeps (OfOthers Q) (register_user services email password)
  unfolding register_user create_user get_by_email
  register_user-Keeps services email password =
      search (keeps_rules, Keeps-uuid4, Keeps-utc_now, Keeps-token_urlsafe, add_user-Keeps) depth 20

  issue_refresh_token-Keeps :
      (services : TokenServices) (user_id : Uuid)
      → Keeps (OfOthers Q) (issue_refresh_token services user_id)
  unfolding issue_refresh_token
  issue_refresh_token-Keeps services user_id =
      search (keeps_rules, Keeps-uuid4, Keeps-utc_now, Keeps-token_urlsafe, add_token-Keeps) depth
        20

  sign_in-Keeps :
      (services : IdentityServices) (email password : String)
      → Keeps (OfOthers Q) (sign_in services email password)
  unfolding authenticate_user get_by_email
  sign_in-Keeps services email password = search (keeps_rules, issue_refresh_token-Keeps) depth 12

  revoke_and_raise-Keeps : (stored : RefreshToken) → Keeps (OfOthers Q) (revoke_and_raise stored)
  unfolding revoke_and_raise
  revoke_and_raise-Keeps stored = search (keeps_rules, Keeps-utc_now, revoke_family-Keeps) depth 9

  exchange-Keeps :
      (services : TokenServices) (stored : RefreshToken)
      → Keeps (OfOthers Q) (exchange services stored)
  unfolding exchange mint_successor
  exchange-Keeps services stored =
      search
        (
          keeps_rules, Keeps-uuid4, Keeps-utc_now, Keeps-token_urlsafe, add_token-Keeps,
          consume-Keeps, revoke_and_raise-Keeps,
        )
        depth 20

  rotate_refresh_token-Keeps :
      (services : TokenServices) (raw_token : String)
      → Keeps (OfOthers Q) (rotate_refresh_token services raw_token)
  unfolding rotate_refresh_token rotate_stored get_by_hash
  rotate_refresh_token-Keeps services raw_token =
      search (keeps_rules, Keeps-utc_now, exchange-Keeps, revoke_and_raise-Keeps) depth 20

  after_login-Keeps :
      (services : IdentityServices) (r : Result (User × String)) (after db : Db)
      → OfOthers Q after
      → OfOthers Q db
      → OfOthers Q (after_login services (r, after) db).1
  after_login-Keeps services (ok (user, refresh_token)) after db h h' = h
  after_login-Keeps services (err e) after db h h' =
      elim (Bool-cases (is_invalid_credentials services e)) [
        | inl known ↦ rw known h'
        | inr unknown ↦ rw unknown h'
      ]

  after_rotation-Keeps :
      (services : IdentityServices) (r : Result (User × String)) (after db : Db)
      → OfOthers Q after
      → OfOthers Q db
      → OfOthers Q (after_rotation services (r, after) db).1
  after_rotation-Keeps services (ok (user, successor)) after db h h' = h
  after_rotation-Keeps services (err e) after db h h' =
      elim (Bool-cases (is_invalid_token services e)) [
        | inl known ↦ rw known h
        | inr unknown ↦ rw unknown h'
      ]

  -- What the seeding of stock keeps, every request keeps.
  pub perform-Keeps :
      ((product_id : String) → Keeps (OfOthers Q) (seed_inventory product_id))
      → (request : Request) (db : Db) → OfOthers Q db
      → OfOthers Q (perform request db)
  unfolding perform authenticate_and_issue refresh_route
  perform-Keeps seeds only_reads db h = h
  perform-Keeps seeds (gets_cart customer_id) db h =
      (Keeps-in_transaction (get_cart customer_id) (get_cart-Keeps Q customer_id)).at db h
  perform-Keeps seeds (adds_item customer_id product_id quantity) db h =
      (Keeps-in_transaction _ (add_item-Keeps Q customer_id product_id quantity)).at db h
  perform-Keeps seeds (sets_item customer_id product_id quantity) db h =
      (Keeps-in_transaction _ (set_item_quantity-Keeps Q customer_id product_id quantity)).at db h
  perform-Keeps seeds (removes_item customer_id product_id) db h =
      (Keeps-in_transaction _ (remove_item-Keeps Q customer_id product_id)).at db h
  perform-Keeps seeds (creates_product strip new) db h =
      (Keeps-in_transaction _ (create_product-Keeps strip new (seeds new.id))).at db h
  perform-Keeps seeds (updates_product strip product_id changes) db h =
      (Keeps-in_transaction _ (update_product-Keeps strip product_id changes)).at db h
  perform-Keeps seeds (registers services email password) db h =
      (Keeps-in_transaction _ (register_user-Keeps services email password)).at db h
  perform-Keeps seeds (logs_in services email password) db h =
      after_login-Keeps services (sign_in services email password db).0
        (sign_in services email password db).1 db ((sign_in-Keeps services email password).at db h)
        h
  perform-Keeps seeds (refreshes services refresh_token) db h =
      after_rotation-Keeps services (rotate_refresh_token services.tokens refresh_token db).0
        (rotate_refresh_token services.tokens refresh_token db).1 db
        ((rotate_refresh_token-Keeps services.tokens refresh_token).at db h) h
