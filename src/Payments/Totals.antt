-- ===== src/Payments/Totals.antt =====
-- What an order is charged: `_derive_total` of
-- backend/app/modules/payments/application/process_inventory_reserved.py.
use eventcommerce.Base.{
  String, ◌≡◌, refl, sym, subst, ◌∙◌, true, false, ◌||◌, Option, none, some, List, [], ◌∷◌, All,
  ◌==◌, string_eq, eq_iff, arith, Bool-cases, inl, inr,
}
use eventcommerce.Base.Int.{ℤ, pos, ◌+ℤ◌, ◌*ℤ◌, ◌≤ℤ◌, ltb_ℤ, +ℤ_assoc}
use eventcommerce.Base.Decimal.{cents, is_finite, is_negative, has_more_than_two_places}
use eventcommerce.Session.{Db}
use eventcommerce.Catalog.Domain.{Product}
use eventcommerce.Catalog.Repository.{product_row}
use eventcommerce.Orders.Domain.{OrderItem}
use eventcommerce.Payments.UseCases.{
  total, Priced, unpriced, priced, price_line, mixes, derive_lines, derive_total, priced_row,
  add_line, settle,
}

-- The price of a product in cents.
abbrev pub cents_of : Option Product → ℤ
cents_of none = pos 0
cents_of (some product) = cents product.price

-- The sum of price times quantity.
unfoldable pub order_total : Db → List OrderItem → ℤ
order_total db [] = pos 0
order_total db (item ∷ items) =
    cents_of (product_row item.product_id db) *ℤ item.quantity +ℤ order_total db items

-- An active product of the currency, with a finite price of at most two decimal places that is not
-- negative.
abbrev pub IsSoldIn : String → Option Product → Type 0
IsSoldIn currency none = ⊥
IsSoldIn currency (some product) =
    (product.active ≡ true)
    × ((product.currency ≡ currency)
        × ((is_finite product.price ≡ true)
            × ((is_negative product.price ≡ false)
                × (has_more_than_two_places product.price ≡ false))))

-- A line of a positive quantity of such a product.
abbrev pub IsPayable : Db → String → OrderItem → Type 0
IsPayable db currency item =
    (pos 1 ≤ℤ item.quantity) × IsSoldIn currency (product_row item.product_id db)

priced_row-IsSoldIn :
    (row : Option Product) (price : ℤ) (currency : String)
    → priced_row row ≡ priced price currency
    → (price ≡ cents_of row) × IsSoldIn currency row
priced_row-IsSoldIn none price currency h = cc h
priced_row-IsSoldIn (some product) price currency h = ground arith

price_line-IsPayable :
    (item : OrderItem) (db : Db) (price : ℤ) (currency : String)
    → price_line item db ≡ priced price currency
    → (price ≡ cents_of (product_row item.product_id db)) × IsPayable db currency item
unfolding price_line
price_line-IsPayable item db price currency h =
    elim (Bool-cases (item.product_id == "" || ltb_ℤ item.quantity (pos 1))) [
      | inl bad ↦ cc (rw bad at h)
      | inr good ↦
          let row =
            priced_row-IsSoldIn (product_row item.product_id db) price currency (rw good at h) in
          (row.0, (ground (arith, good), row.1))
    ]

-- The currency that was seen, if any.
abbrev Seen : Option String → String → Type 0
Seen none currency = Unit
Seen (some seen) currency = seen ≡ currency

settle_lem :
    (seen : Option String) (subtotal amount : ℤ) (currency : String)
    → settle seen subtotal ≡ total amount currency
    → (amount ≡ subtotal) × ((pos 1 ≤ℤ amount) × Seen seen currency)
settle_lem none subtotal amount currency h = cc h
settle_lem (some seen) subtotal amount currency h = elim (Bool-cases (ltb_ℤ subtotal (pos 1))) [
  | inl low ↦ cc (rw low at h)
  | inr high ↦
      let same : total subtotal seen ≡ total amount currency = rw high at h in
      let amounts : subtotal ≡ amount = cc same in
      let currencies : seen ≡ currency = cc same in
      let least : pos 1 ≤ℤ subtotal = ground (arith, high) in
      (sym amounts, (subst (λ (a : ℤ). pos 1 ≤ℤ a) amounts least, currencies))
]

-- What a total says of the lines that are left, of the sum before them and of the currency seen.
abbrev Totals : Db → List OrderItem → Option String → ℤ → ℤ → String → Type 0
Totals db items seen subtotal amount currency =
    (amount ≡ subtotal +ℤ order_total db items)
    × ((pos 1 ≤ℤ amount) × (Seen seen currency × All (IsPayable db currency) items))

zero_left : (a : ℤ) → pos 0 +ℤ a ≡ a
unfolding ◌+ℤ◌
zero_left a = ground arith

zero_right : (a : ℤ) → a +ℤ pos 0 ≡ a
unfolding ◌+ℤ◌
zero_right a = ground arith

mixes-Seen :
    (seen : Option String) (one currency : String)
    → mixes seen one ≡ false
    → one ≡ currency
    → Seen seen currency
mixes-Seen none one currency h e = tt
mixes-Seen (some seen) one currency h e = ground (arith, eq_iff seen one)

Totals-line :
    (db : Db) (item : OrderItem) (items : List OrderItem) (seen : Option String)
    → (subtotal amount : ℤ) (currency : String) (p : Priced) → price_line item db ≡ p
    → ((one : String) (sum : ℤ)
        → derive_lines db items (some one) sum ≡ total amount currency
        → Totals db items (some one) sum amount currency)
    → add_line (derive_lines db items) seen subtotal item.quantity p ≡ total amount currency
    → Totals db (item ∷ items) seen subtotal amount currency
unfolding order_total
Totals-line db item items seen subtotal amount currency (unpriced reason) e rest h = cc h
Totals-line db item items seen subtotal amount currency (priced price one) e rest h =
    elim (Bool-cases (mixes seen one)) [
      | inl mixed ↦ cc (rw mixed at h)
      | inr fits ↦
          let line = price_line-IsPayable item db price one e in
          let sum = subtotal +ℤ price *ℤ item.quantity in
          let after = rest one sum (rw fits at h) in
          let same : one ≡ currency = after.1.1.0 in
          (
            after.0
                ∙ rw line.0 (
                    +ℤ_assoc subtotal (cents_of (product_row item.product_id db) *ℤ item.quantity)
                      (order_total db items)),
            (
              after.1.0,
              (
                mixes-Seen seen one currency fits same,
                (subst (λ (c : String). IsPayable db c item) same line.1, after.1.1.1),
              ),
            ),
          )
    ]

derive_lines-Totals :
    (db : Db) (items : List OrderItem) (seen : Option String) (subtotal amount : ℤ)
    → (currency : String) → derive_lines db items seen subtotal ≡ total amount currency
    → Totals db items seen subtotal amount currency
unfolding derive_lines order_total
derive_lines-Totals db [] seen subtotal amount currency h =
    let end = settle_lem seen subtotal amount currency h in
    (end.0 ∙ sym (zero_right subtotal), (end.1.0, (end.1.1, tt)))
derive_lines-Totals db (item ∷ items) seen subtotal amount currency h =
    Totals-line db item items seen subtotal amount currency (price_line item db) refl
      (λ one sum k. derive_lines-Totals db items (some one) sum amount currency k) h

-- A total that is derived for an order is the sum of price times quantity of its lines, in cents,
-- and at least one. Every line has a positive quantity of a product that is active, sold in the one
-- currency of the total, and priced at a finite amount, not negative, of at most two decimal places.
pub derive_total-sum :
    (db : Db) (items : List OrderItem) (amount : ℤ) (currency : String)
    → derive_total db items ≡ total amount currency
    → (amount ≡ order_total db items) × (pos 1 ≤ℤ amount) × All (IsPayable db currency) items
unfolding derive_total
derive_total-sum db [] amount currency h = cc h
derive_total-sum db (item ∷ items) amount currency h =
    let totals = derive_lines-Totals db (item ∷ items) none (pos 0) amount currency h in
    (totals.0 ∙ zero_left (order_total db (item ∷ items)), totals.1.0, totals.1.1.1)
