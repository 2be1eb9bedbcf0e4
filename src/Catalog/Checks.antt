-- ===== src/Catalog/Checks.antt =====
-- The rules of a product: backend/app/modules/catalog/domain/services.py. A price is a `Decimal` by
-- its type, so that the conversion of `validate_price` is never run. `str.strip` is a parameter.
use Prim.Native.Char.{code}
use Prim.Native.String.{count}
use eventcommerce.Base.{
  ℕ, ◌≤◌, String, ◌≡◌, ◌≢◌, Bool, true, false, not, ◌&&◌, ◌||◌, Option, none, some, List, [], ◌∷◌,
  ltb, leb, ◌==◌, nat_eq, string_eq, if◌then◌else◌,
}
use eventcommerce.Base.Int.{pos}
use eventcommerce.Base.Decimal.{
  Decimal, finite, is_finite, is_negative, exceeds, has_more_than_two_places,
}
use eventcommerce.Result.{Result, ok, err, invalid_product}
use eventcommerce.Catalog.Domain.{Product}

abbrev pub max_product_id_length : ℕ
max_product_id_length = 128

-- Decimal("999999999.99")
abbrev pub max_price : Decimal
max_price = finite (pos 99999999999) 2

abbrev pub refused_if : Bool → Result Unit
refused_if fails = if fails then err invalid_product else ok tt

unfoldable pub validate_product_id : String → Result Unit
validate_product_id product_id =
    refused_if (product_id == "" || ltb max_product_id_length (count product_id))

unfoldable pub validate_name : (String → String) → String → Result Unit
validate_name strip name = refused_if (name == "" || (strip name == "" || ltb 255 (count name)))

-- The exponent of a finite value is an int.
unfoldable pub validate_price : Decimal → Result Unit
validate_price price =
    if not (is_finite price) || (is_negative price || exceeds price max_price)
    then err invalid_product
    else refused_if (has_more_than_two_places price)

unfoldable pub codes : String → List ℕ
codes String.[] = []
codes (String.◌∷◌ c text) = code c ∷ codes text

-- `[A-Z]`
abbrev pub is_capital : ℕ → Bool
is_capital n = leb b'A' n && leb n b'Z'

-- `$` without `re.MULTILINE`: the end of the text, or a line feed that ends it.
abbrev pub at_dollar : List ℕ → Bool
at_dollar [] = true
at_dollar (n ∷ []) = n == 10
at_dollar (_ ∷ _ ∷ _) = false

-- `_CURRENCY_PATTERN.match`, of the pattern `^[A-Z]{3}$`
unfoldable pub currency_pattern : List ℕ → Bool
currency_pattern (a ∷ b ∷ c ∷ rest) =
    is_capital a && (is_capital b && (is_capital c && at_dollar rest))
currency_pattern _ = false

unfoldable pub validate_currency : String → Result Unit
unfolding codes currency_pattern
validate_currency currency = refused_if (not (currency_pattern (codes currency)))

unfoldable pub validate_description : Option String → Result Unit
validate_description none = ok tt
validate_description (some description) = refused_if (ltb 2000 (count description))

abbrev pub then_check : Result Unit → Result Unit → Result Unit
then_check (ok _) next = next
then_check (err e) next = err e

unfoldable pub validate_product : (String → String) → Product → Result Unit
unfolding validate_product_id validate_name validate_price validate_currency validate_description
validate_product strip product = then_check (validate_product_id product.id) (
    then_check (validate_name strip product.name) (
      then_check (validate_price product.price) (
        then_check (validate_currency product.currency)
          (validate_description product.description))))

abbrev pub IsCapital : ℕ → Type 0
IsCapital n = (65 ≤ n) × (n ≤ 90)

-- Three capitals, and at most one line feed after them.
abbrev pub IsCurrency : List ℕ → Type 0
IsCurrency (a ∷ b ∷ c ∷ []) = IsCapital a × (IsCapital b × IsCapital c)
IsCurrency (a ∷ b ∷ c ∷ n ∷ []) = IsCapital a × (IsCapital b × (IsCapital c × (n ≡ 10)))
IsCurrency _ = ⊥

-- A price from 0 to 999999999.99 with at most two decimal places.
abbrev pub IsPrice : Decimal → Type 0
IsPrice price =
    (is_finite price ≡ true)
    × (is_negative price ≡ false)
    × (exceeds price max_price ≡ false)
    × (has_more_than_two_places price ≡ false)

abbrev pub IsDescription : Option String → Type 0
IsDescription none = Unit
IsDescription (some description) = count description ≤ 2000

pub record IsValid (strip : String → String) (product : Product) : Type 0 where
  pub id_given : product.id ≢ ""
  pub id_short : count product.id ≤ 128
  pub name_given : product.name ≢ ""
  pub name_shown : strip product.name ≢ ""
  pub name_short : count product.name ≤ 255
  pub price_right : IsPrice product.price
  pub currency_right : IsCurrency (codes product.currency)
  pub description_short : IsDescription product.description
