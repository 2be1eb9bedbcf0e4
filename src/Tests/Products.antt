-- ===== src/Tests/Products.antt =====
-- A product that is created and changed.
use eventcommerce.Base.{String, ◌≡◌, refl, ◌↔◌, true, false, none, some, find, string_eq}
use eventcommerce.Base.Int.{pos, ◌*ℤ◌}
use eventcommerce.Base.Decimal.{finite}
use eventcommerce.Result.{ok, err, product_not_found, integrity_error}
use eventcommerce.Session.{Db}
use eventcommerce.Inventory.Repository.{stock_row}
use eventcommerce.Catalog.Domain.{Product}
use eventcommerce.Catalog.Repository.{
  product_row, get_product_by_id, save_product, is_three_capitals, meets_checks,
}
use eventcommerce.Catalog.Checks.{
  IsValid, codes, validate_product, validate_product_id, validate_name, validate_price,
  validate_currency, validate_description, currency_pattern,
}
use eventcommerce.Catalog.Validation.{validate_product-IsValid}
use eventcommerce.Catalog.UseCases.{
  NewProduct, ProductChanges, new_product, changed, create_product, update_product, get_product,
  save_checked, touch,
}
use eventcommerce.Catalog.Stored.{AllValid, writes-AllValid}
use eventcommerce.Catalog.Writes.{
  created, with_changes, create_product-creates, update_product-rows, update_product-raises,
}
use eventcommerce.Tests.Data.{start, cup_product, pot}

abbrev same_text : String → String
same_text text = text

-- A line feed may end the currency.
abbrev odd_product : Product
odd_product = record cup_product { currency = "EUR\n" }

validate_product-IsValid_example :
    (validate_product same_text odd_product ≡ ok tt) ↔ IsValid same_text odd_product
validate_product-IsValid_example = validate_product-IsValid same_text odd_product

odd_product_passes : validate_product same_text odd_product ≡ ok tt
unfolding validate_product validate_product_id validate_name validate_price validate_currency
    validate_description currency_pattern codes ◌*ℤ◌
odd_product_passes = refl

cup_passes : validate_product same_text cup_product ≡ ok tt
unfolding validate_product validate_product_id validate_name validate_price validate_currency
    validate_description currency_pattern codes ◌*ℤ◌
cup_passes = refl

cup_product-IsValid : IsValid same_text cup_product
cup_product-IsValid = (validate_product-IsValid same_text cup_product).0 cup_passes

cup_meets_checks : meets_checks cup_product ≡ true
unfolding is_three_capitals codes ◌*ℤ◌
cup_meets_checks = refl

abbrev new_pot : NewProduct
new_pot = record {
  id = "pot";
  name = "Pot";
  price = finite (pos 12) 0;
  currency = "EUR";
  description = none;
  active = true;
}

abbrev renamed : ProductChanges
renamed = record {
  name = some "Mug";
  description = none;
  price = none;
  currency = none;
  active = some false;
  clear_description = false;
}

writes-AllValid_example :
    AllValid same_text (create_product same_text new_pot start).1
    × AllValid same_text (update_product same_text "cup" renamed start).1
writes-AllValid_example =
    writes-AllValid same_text new_pot "cup" renamed start
      ((cup_product-IsValid, cup_meets_checks), tt)

pot_passes : validate_product same_text (new_product new_pot 0) ≡ ok tt
unfolding validate_product validate_product_id validate_name validate_price validate_currency
    validate_description currency_pattern codes ◌*ℤ◌
pot_passes = refl

abbrev with_pot : Db
with_pot = (create_product same_text new_pot start).1

create_product-creates_example :
    ((create_product same_text new_pot start).0 ≡ ok (created new_pot start))
    × ((get_product "pot" false with_pot).0 ≡ ok (created new_pot start))
    × (product_row "pot" with_pot ≡ some (created new_pot start))
    × (stock_row "pot" with_pot ≡ some pot)
unfolding find is_three_capitals codes
create_product-creates_example =
    create_product-creates same_text new_pot "pot" start refl
      ((validate_product-IsValid same_text (new_product new_pot 0)).0 pot_passes) refl

renamed_passes : validate_product same_text (changed renamed cup_product) ≡ ok tt
unfolding validate_product validate_product_id validate_name validate_price validate_currency
    validate_description currency_pattern codes ◌*ℤ◌
renamed_passes = refl

abbrev with_mug : Db
with_mug = (update_product same_text "cup" renamed start).1

update_product-rows_example :
    ((update_product same_text "cup" renamed start).0
      ≡ ok (with_changes renamed cup_product (start.next_times 0)))
    × (product_row "cup" with_mug ≡ some (with_changes renamed cup_product (start.next_times 0)))
    × (stock_row "cup" with_mug ≡ stock_row "cup" start)
unfolding find is_three_capitals codes
update_product-rows_example =
    update_product-rows same_text "cup" renamed cup_product "cup" start refl
      ((validate_product-IsValid same_text (changed renamed cup_product)).0 renamed_passes) refl

no_mug : (update_product same_text "mug" renamed start).0 ≡ err product_not_found
unfolding update_product get_product_by_id find
no_mug = refl

update_product-raises_example :
    ((update_product same_text "mug" renamed start).1.products ≡ start.products)
    × ((update_product same_text "mug" renamed start).1.inventory ≡ start.inventory)
update_product-raises_example =
    update_product-raises same_text "mug" renamed product_not_found start no_mug

-- The database refuses what the validation lets through.
abbrev odd_pot : NewProduct
odd_pot = record new_pot { currency = "EUR\n" }

odd_pot_refused : (create_product same_text odd_pot start).0 ≡ err integrity_error
unfolding create_product save_checked touch save_product get_product_by_id find validate_product
    validate_product_id validate_name validate_price validate_currency validate_description
    currency_pattern codes ◌*ℤ◌ is_three_capitals
odd_pot_refused = refl
