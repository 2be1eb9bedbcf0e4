-- ===== src/Catalog/Validation.antt =====
-- Which products pass the rules of backend/app/modules/catalog/domain/services.py.
use Prim.Native.String.{count}
use eventcommerce.Base.{
  ℕ, ◌≤◌, String, ◌≡◌, ◌≢◌, ◌↔◌, true, Option, none, some, List, [], ◌∷◌, nat_eq, string_eq, eq_iff,
  arith,
}
use eventcommerce.Base.Decimal.{Decimal}
use eventcommerce.Result.{Result, ok, err}
use eventcommerce.Catalog.Domain.{Product}
use eventcommerce.Catalog.Checks.{
  validate_product_id, validate_name, validate_price, codes, currency_pattern, validate_currency,
  validate_description, then_check, validate_product, IsCurrency, IsPrice, IsDescription, IsValid,
}

currency_pattern-IsCurrency : (text : List ℕ) → (currency_pattern text ≡ true) ↔ IsCurrency text
unfolding currency_pattern
currency_pattern-IsCurrency [] = ground arith
currency_pattern-IsCurrency (a ∷ []) = ground arith
currency_pattern-IsCurrency (a ∷ b ∷ []) = ground arith
currency_pattern-IsCurrency (a ∷ b ∷ c ∷ []) = ground arith
currency_pattern-IsCurrency (a ∷ b ∷ c ∷ n ∷ []) = ground arith
currency_pattern-IsCurrency (a ∷ b ∷ c ∷ n ∷ m ∷ rest) = ground arith

validate_description-IsDescription :
    (description : Option String)
    → (validate_description description ≡ ok tt) ↔ IsDescription description
unfolding validate_description
validate_description-IsDescription none = ground arith
validate_description-IsDescription (some text) = ground arith

then_check-ok :
    (first second : Result Unit)
    → (then_check first second ≡ ok tt) ↔ ((first ≡ ok tt) × (second ≡ ok tt))
then_check-ok (ok tt) second = ground arith
then_check-ok (err e) second = ground arith

validate_product_id_lem :
    (id : String) → (validate_product_id id ≡ ok tt) ↔ ((id ≢ "") × (count id ≤ 128))
unfolding validate_product_id
validate_product_id_lem id = ground (arith, eq_iff id "")

validate_name_lem :
    (strip : String → String) (name : String)
    → (validate_name strip name ≡ ok tt) ↔ ((name ≢ "") × ((strip name ≢ "") × (count name ≤ 255)))
unfolding validate_name
validate_name_lem strip name = ground (arith, eq_iff name "", eq_iff (strip name) "")

validate_price-IsPrice : (price : Decimal) → (validate_price price ≡ ok tt) ↔ IsPrice price
unfolding validate_price
validate_price-IsPrice price = ground arith

validate_currency-IsCurrency :
    (currency : String) → (validate_currency currency ≡ ok tt) ↔ IsCurrency (codes currency)
unfolding validate_currency
validate_currency-IsCurrency currency = ground (arith, currency_pattern-IsCurrency (codes currency))

validate_product_checks :
    (strip : String → String) (product : Product)
    → (validate_product strip product ≡ ok tt) ↔ (
        (validate_product_id product.id ≡ ok tt)
        × ((validate_name strip product.name ≡ ok tt)
            × ((validate_price product.price ≡ ok tt)
                × ((validate_currency product.currency ≡ ok tt)
                    × (validate_description product.description ≡ ok tt)))))
unfolding validate_product
validate_product_checks strip product =
    let described = validate_description product.description in
    let in_currency = then_check (validate_currency product.currency) described in
    let priced = then_check (validate_price product.price) in_currency in
    let named = then_check (validate_name strip product.name) priced in
    ground (
      arith,
      then_check-ok (validate_product_id product.id) named,
      then_check-ok (validate_name strip product.name) priced,
      then_check-ok (validate_price product.price) in_currency,
      then_check-ok (validate_currency product.currency) described,
    )

-- `validate_product` lets exactly the products pass whose id has 1 to 128 characters, whose name has
-- 1 to 255 and not only white space, whose price is from 0 to 999999999.99 with at most two decimal
-- places, whose currency is three capitals with at most one line feed after them, and whose
-- description, if there is one, has at most 2000 characters.
pub validate_product-IsValid :
    (strip : String → String) (product : Product)
    → (validate_product strip product ≡ ok tt) ↔ IsValid strip product
validate_product-IsValid strip product = (
  λ passed.
      let checks = (validate_product_checks strip product).0 passed in
      let id = (validate_product_id_lem product.id).0 checks.0 in
      let name = (validate_name_lem strip product.name).0 checks.1.0 in
      record {
        id_given = id.0;
        id_short = id.1;
        name_given = name.0;
        name_shown = name.1.0;
        name_short = name.1.1;
        price_right = (validate_price-IsPrice product.price).0 checks.1.1.0;
        currency_right = (validate_currency-IsCurrency product.currency).0 checks.1.1.1.0;
        description_short =
            (validate_description-IsDescription product.description).0 checks.1.1.1.1;
      },
  λ valid. (validate_product_checks strip product).1 (
    (validate_product_id_lem product.id).1 (valid.id_given, valid.id_short),
    (
      (validate_name_lem strip product.name).1
          (valid.name_given, (valid.name_shown, valid.name_short)),
      (
        (validate_price-IsPrice product.price).1 valid.price_right,
        (
          (validate_currency-IsCurrency product.currency).1 valid.currency_right,
          (validate_description-IsDescription product.description).1 valid.description_short,
        ),
      ),
    ),
  ),
)
