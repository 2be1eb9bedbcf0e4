-- ===== src/Checkout/Request.antt =====
-- The body of a checkout request: backend/app/modules/checkout/api/schemas.py. The bounds of the
-- single fields are the schema library's; the rules that relate the fields are here.
use eventcommerce.Base.{
  String, Bool, true, false, not, ◌&&◌, Option, none, some, List, [], ◌∷◌, map, contains, string_eq,
}
use eventcommerce.Base.Int.{ℤ, pos}
use eventcommerce.Base.Decimal.{Decimal, finite}
use eventcommerce.Result.{Uuid}

pub record CheckoutItemRequest : Type 0 where
  pub product_id : String
  pub quantity : ℤ

pub record CheckoutRequest : Type 0 where
  pub customer_id : Option String
  pub cart_id : Option Uuid
  pub items : Option (List CheckoutItemRequest)
  pub amount : Option Decimal
  pub currency : Option String
  pub idempotency_key : Option String

-- Decimal("999999999.99")
abbrev pub max_amount : Decimal
max_amount = finite (pos 99999999999) 2

abbrev item_product : CheckoutItemRequest → String
item_product item = item.product_id

-- `len(product_ids) == len(set(product_ids))`
unfoldable pub all_distinct : List String → Bool
all_distinct [] = true
all_distinct (product_id ∷ rest) = not (contains product_id rest) && all_distinct rest

abbrev pub inline_is_valid :
    Option (List CheckoutItemRequest) → Option Decimal → Option String → Bool
inline_is_valid (some items) (some _) (some _) = all_distinct (map item_product items)
inline_is_valid _ _ _ = false

abbrev cart_is_alone : Option (List CheckoutItemRequest) → Option Decimal → Option String → Bool
cart_is_alone none none none = true
cart_is_alone _ _ _ = false

abbrev shape_of :
    Option Uuid → Option (List CheckoutItemRequest) → Option Decimal → Option String → Bool
shape_of (some _) = cart_is_alone
shape_of none = inline_is_valid

-- `_shape_and_items_are_valid`: false is a ValueError.
unfoldable pub shape_and_items_are_valid : CheckoutRequest → Bool
unfolding all_distinct
shape_and_items_are_valid request =
    shape_of request.cart_id request.items request.amount request.currency
