-- ===== src/Cart/Repository.antt =====
-- `SqlAlchemyCartRepository` of backend/app/modules/cart/infrastructure/sqlalchemy_repository.py.
-- Requests run one at a time, so the insertion of a cart can only fail on the foreign key, for a
-- customer that is no user. The check constraint on a quantity and the foreign key on a product
-- are met by every call.
use eventcommerce.Base.{
  ℕ, zero, suc, String, Bool, true, false, Option, none, some, List, [], ◌∷◌, ◌++◌, find, upsert,
  sort_with, ◌==◌, string_eq, pair_eq, if◌then◌else◌, length,
}
use eventcommerce.Result.{Uuid, ok, integrity_error}
use eventcommerce.Session.{Db, Action, pure, raise, gets, modify, uuid4, utc_now, ◌>>=◌, ◌>>◌}
use eventcommerce.Iam.Domain.{User}
use eventcommerce.Cart.Domain.{Cart, CartLine}

abbrev cart_id_of : Cart → Uuid
cart_id_of cart = cart.id

abbrev customer_of : Cart → Uuid
customer_of cart = cart.customer_id

abbrev pub user_id_of : User → Uuid
user_id_of user = user.id

-- The row of a cart.
abbrev pub cart_row : Uuid → Db → Option Cart
cart_row cart_id db = find cart_id_of cart_id db.carts

unfoldable pub get_cart_by_id : Uuid → Action (Option Cart)
get_cart_by_id cart_id = gets (cart_row cart_id)

unfoldable pub get_cart_by_customer : Uuid → Action (Option Cart)
get_cart_by_customer customer_id = gets (λ db. find customer_of customer_id db.carts)

abbrev pub is_some_user : Option User → Bool
is_some_user none = false
is_some_user (some _) = true

-- The flush of a new row: false is an `IntegrityError`, after which the session is rolled back.
unfoldable pub insert_cart : Cart → Action Bool
insert_cart cart db =
    if is_some_user (find user_id_of cart.customer_id db.users)
    then (ok true, record db { carts = db.carts ++ cart ∷ [] })
    else (ok false, db)

-- One pass of the loop inserts a row where there is none; `rest` is the loop from the next pass.
unfoldable pub create_attempt : Uuid → Action Cart → Action Cart
unfolding insert_cart
create_attempt customer_id rest = do
  id ← uuid4
  created_at ← utc_now
  updated_at ← utc_now
  let cart : Cart = record {
    id = id;
    customer_id = customer_id;
    created_at = created_at;
    updated_at = updated_at;
  }
  inserted ← insert_cart cart
  if inserted then pure cart else rest

abbrev pub found_or : Action Cart → Option Cart → Action Cart
found_or create none = create
found_or create (some cart) = pure cart

unfoldable pub create_attempts : ℕ → Uuid → Action Cart
unfolding get_cart_by_customer create_attempt
create_attempts zero customer_id = raise integrity_error
create_attempts (suc attempts) customer_id = do
  found ← get_cart_by_customer customer_id
  let rest : Action Cart = create_attempts attempts customer_id
  found_or (create_attempt customer_id rest) found

abbrev pub max_create_attempts : ℕ
max_create_attempts = 5

unfoldable pub get_or_create : Uuid → Action Cart
unfolding create_attempts
get_or_create customer_id = create_attempts max_create_attempts customer_id

-- `WHERE cart_id = …`
unfoldable pub lines_of : Uuid → List CartLine → List CartLine
lines_of cart_id [] = []
lines_of cart_id (line ∷ lines) =
    let rest = lines_of cart_id lines in if line.cart_id == cart_id then line ∷ rest else rest

abbrev pub line_before : Db → CartLine → CartLine → Bool
line_before db a b = db.collation a.product_id b.product_id

abbrev pub cart_lines : Uuid → Db → List CartLine
cart_lines cart_id db = sort_with (line_before db) (lines_of cart_id db.cart_items)

unfoldable pub list_lines : Uuid → Action (List CartLine)
unfolding sort_with lines_of
list_lines cart_id = gets (cart_lines cart_id)

abbrev pub line_key : CartLine → String × String
line_key line = (line.cart_id, line.product_id)

unfoldable pub get_line : Uuid → String → Action (Option CartLine)
get_line cart_id product_id = gets (λ db. find line_key (cart_id, product_id) db.cart_items)

unfoldable pub count_lines : Uuid → Action ℕ
unfolding lines_of
count_lines cart_id = gets (λ db. length (lines_of cart_id db.cart_items))

abbrev pub update_line : CartLine → CartLine → CartLine
update_line existing line = record existing { quantity = line.quantity }

unfoldable pub save_line : CartLine → Action Unit
save_line line =
    modify (λ db. record db { cart_items = upsert line_key update_line line db.cart_items })

unfoldable pub without_line : Uuid → String → List CartLine → List CartLine
without_line cart_id product_id [] = []
without_line cart_id product_id (line ∷ lines) =
    let rest = without_line cart_id product_id lines in
    if line_key line == (cart_id, product_id) then rest else line ∷ rest

abbrev pub delete_found : Uuid → String → Option CartLine → Action Bool
delete_found cart_id product_id none = pure false
delete_found cart_id product_id (some _) = do
  modify (λ db. record db { cart_items = without_line cart_id product_id db.cart_items })
  pure true

unfoldable pub delete_line : Uuid → String → Action Bool
unfolding get_line without_line
delete_line cart_id product_id = do
  found ← get_line cart_id product_id
  delete_found cart_id product_id found

unfoldable pub without_cart : Uuid → List CartLine → List CartLine
without_cart cart_id [] = []
without_cart cart_id (line ∷ lines) =
    let rest = without_cart cart_id lines in if line.cart_id == cart_id then rest else line ∷ rest

unfoldable pub clear_lines : Uuid → Action Unit
unfolding without_cart
clear_lines cart_id = modify (λ db. record db { cart_items = without_cart cart_id db.cart_items })
