-- ===== src/Web/Products.antt =====
-- backend/app/modules/catalog/api/routes.py. The body of an answer has all fields of the product.
use eventcommerce.Base.{String, Bool, true, false, Option, none, some, List}
use eventcommerce.Base.Int.{ℤ}
use eventcommerce.Base.Decimal.{Decimal}
use eventcommerce.Result.{product_not_found, product_already_exists, invalid_product}
use eventcommerce.Catalog.Domain.{Product}
use eventcommerce.Catalog.UseCases.{
  NewProduct, ProductChanges, create_product, get_product, list_products, update_product,
}
use eventcommerce.Web.Response.{text, message, Handler, Clauses, no_clauses, commits, reads}
use eventcommerce.Web.Access.{Gate, require_operator, behind}

abbrev pub lookup_clauses : Clauses
lookup_clauses product_not_found = some (404, text "Product not found")
lookup_clauses _ = none

abbrev pub create_clauses : Clauses
create_clauses product_already_exists = some (409, message product_already_exists)
create_clauses invalid_product = some (422, message invalid_product)
create_clauses _ = none

abbrev pub update_clauses : Clauses
update_clauses product_not_found = some (404, text "Product not found")
update_clauses invalid_product = some (422, message invalid_product)
update_clauses _ = none

-- `ProductUpdateRequest`
pub record ProductUpdateRequest : Type 0 where
  pub name : Option String
  pub description : Option String
  pub price : Option Decimal
  pub currency : Option String
  pub active : Option Bool

-- The route never clears a description.
abbrev pub changes_of : ProductUpdateRequest → ProductChanges
changes_of body = record {
  name = body.name;
  description = body.description;
  price = body.price;
  currency = body.currency;
  active = body.active;
  clear_description = false;
}

unfoldable pub list_products_route : ℤ → ℤ → Handler (List Product)
list_products_route limit offset =
    reads no_clauses 200 (λ products. products) (list_products limit offset)

unfoldable pub get_product_route : String → Handler Product
get_product_route product_id =
    reads lookup_clauses 200 (λ product. product) (get_product product_id true)

unfoldable pub create_product_route : (String → String) → NewProduct → Gate → Handler Product
create_product_route strip body gate =
    behind (require_operator gate)
      (λ current. commits create_clauses 201 (λ product. product) (create_product strip body))

unfoldable pub update_product_route :
    (String → String) → String → ProductUpdateRequest → Gate → Handler Product
update_product_route strip product_id body gate = behind (require_operator gate) (λ current.
    commits update_clauses 200 (λ product. product)
      (update_product strip product_id (changes_of body)))
