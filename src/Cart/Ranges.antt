-- ===== src/Cart/Ranges.antt =====
-- The quantities of cart lines stay within the bounds of
-- backend/app/modules/cart/domain/services.py, in the parts of the use cases of a cart.
use eventcommerce.Base.{
  ℕ, String, Bool, true, false, ◌||◌, ◌≡◌, refl, Option, none, some, List, [], ◌∷◌, find, upsert,
  insert_with, sort_with, ◌==◌, string_eq, pair_eq, arith, Bool-cases, inl, inr, All, leb,
  le_of_not_ltb,
}
use eventcommerce.Base.Int.{ℤ, ◌+ℤ◌, ◌≤ℤ◌, ltb_ℤ, int_laws}
use eventcommerce.Result.{Uuid, Error, cart_limit_exceeded}
use eventcommerce.Session.{Db, Action, raise_if, lift, ◌>>=◌, ◌>>◌}
use eventcommerce.Session.Keeps.{Keeps}
use eventcommerce.Cart.Domain.{CartLine, validate_quantity, min_quantity, max_quantity}
use eventcommerce.Cart.Repository.{
  line_key, update_line, lines_of, cart_lines, line_before, list_lines, save_line, without_line,
}
use eventcommerce.Cart.UseCases.{max_lines, current_line, increment_or_insert}

abbrev pub InRange : ℤ → Type 0
InRange quantity = (min_quantity ≤ℤ quantity) × (quantity ≤ℤ max_quantity)

abbrev pub HasQuantity : CartLine → Type 0
HasQuantity line = InRange line.quantity

-- Every line of every cart.
abbrev pub AllInRange : Db → Type 0
AllInRange db = All HasQuantity db.cart_items

module _ {A : Type 0} (P : A → Type 0) where
  insert_with-All :
      (before : A → A → Bool) (a : A) (xs : List A)
      → P a
      → All P xs
      → All P (insert_with before a xs)
  unfolding insert_with
  insert_with-All before a [] p h = (p, tt)
  insert_with-All before a (x ∷ xs) p h = ground (arith, insert_with-All before a xs p h.1)

  sort_with-All : (before : A → A → Bool) (xs : List A) → All P xs → All P (sort_with before xs)
  unfolding sort_with
  sort_with-All before [] h = tt
  sort_with-All before (x ∷ xs) (p, h) =
      insert_with-All before x (sort_with before xs) p (sort_with-All before xs h)

lines_of-All :
    (cart_id : Uuid) (lines : List CartLine)
    → All HasQuantity lines
    → All HasQuantity (lines_of cart_id lines)
unfolding lines_of
lines_of-All cart_id [] h = tt
lines_of-All cart_id (line ∷ lines) (p, h) = elim (Bool-cases (line.cart_id == cart_id)) [
  | inl here ↦ rw here (p, lines_of-All cart_id lines h)
  | inr elsewhere ↦ rw elsewhere (lines_of-All cart_id lines h)
]

upsert-All :
    (line : CartLine) (lines : List CartLine)
    → HasQuantity line
    → All HasQuantity lines
    → All HasQuantity (upsert line_key update_line line lines)
unfolding upsert
upsert-All line [] p h = (p, tt)
upsert-All line (row ∷ lines) p (q, h) = elim (Bool-cases (line_key row == line_key line)) [
  | inl here ↦ rw here (p, h)
  | inr elsewhere ↦ rw elsewhere (q, upsert-All line lines p h)
]

pub without_line-All :
    (cart_id : Uuid) (product_id : String) (lines : List CartLine)
    → All HasQuantity lines
    → All HasQuantity (without_line cart_id product_id lines)
unfolding without_line
without_line-All cart_id product_id [] h = tt
without_line-All cart_id product_id (line ∷ lines) (p, h) =
    elim (Bool-cases (line_key line == (cart_id, product_id))) [
      | inl here ↦ rw here (without_line-All cart_id product_id lines h)
      | inr elsewhere ↦ rw elsewhere (p, without_line-All cart_id product_id lines h)
    ]

-- The current line of a product is one of the lines.
abbrev pub MayHaveQuantity : Option CartLine → Type 0
MayHaveQuantity none = Unit
MayHaveQuantity (some line) = HasQuantity line

pub current_line-HasQuantity :
    (product_id : String) (lines : List CartLine)
    → All HasQuantity lines
    → MayHaveQuantity (current_line product_id lines)
unfolding find
current_line-HasQuantity product_id [] h = tt
current_line-HasQuantity product_id (line ∷ lines) (p, h) =
    elim (Bool-cases (line.product_id == product_id)) [
      | inl here ↦ rw here p
      | inr elsewhere ↦ rw elsewhere (current_line-HasQuantity product_id lines h)
    ]

-- What follows a test may use that it failed.
pub unless-Keeps :
    {A : Type 0} (P : Db → Type 0) (c : Bool) (e : Error) (m : Action A)
    → (c ≡ false → Keeps P m)
    → Keeps P (raise_if c e >> m)
unless-Keeps P true e m k = record { at = λ db h. h }
unless-Keeps P false e m k = record { at = λ db h. (k refl).at db h }

pub valid-Keeps :
    {A : Type 0} (quantity : ℤ) (m : Action A)
    → (InRange quantity → Keeps AllInRange m)
    → Keeps AllInRange (lift (validate_quantity quantity) >> m)
unfolding validate_quantity
valid-Keeps quantity m k =
    elim (Bool-cases (ltb_ℤ quantity min_quantity || ltb_ℤ max_quantity quantity)) [
      | inl outside ↦ rw outside (record { at = λ db h. h })
      | inr within ↦ rw within (record { at = λ db h. (k (ground (arith, within))).at db h })
    ]

pub listed-Keeps :
    {A : Type 0} (cart_id : Uuid) (f : List CartLine → Action A)
    → ((lines : List CartLine) → All HasQuantity lines → Keeps AllInRange (f lines))
    → Keeps AllInRange (list_lines cart_id >>= f)
unfolding list_lines
listed-Keeps cart_id f k = record {
  at = λ db h.
      (k (cart_lines cart_id db) (
          sort_with-All HasQuantity (line_before db) (lines_of cart_id db.cart_items)
            (lines_of-All cart_id db.cart_items h))).at
        db h;
}

pub save_line-Keeps : (line : CartLine) → HasQuantity line → Keeps AllInRange (save_line line)
unfolding save_line
save_line-Keeps line p = record { at = λ db h. upsert-All line db.cart_items p h }

pub increment_or_insert-Keeps :
    (cart_id : Uuid) (product_id : String) (quantity : ℤ) (line_count : ℕ)
    (current : Option CartLine)
    → InRange quantity
    → MayHaveQuantity current
    → Keeps AllInRange (increment_or_insert cart_id product_id quantity line_count current)
increment_or_insert-Keeps cart_id product_id quantity line_count none q c =
    unless-Keeps AllInRange (leb max_lines line_count) cart_limit_exceeded
      (save_line (record { cart_id = cart_id; product_id = product_id; quantity = quantity }))
      (λ _. save_line-Keeps _ q)
increment_or_insert-Keeps cart_id product_id quantity line_count (some current) q c =
    unless-Keeps AllInRange (ltb_ℤ max_quantity (current.quantity +ℤ quantity)) cart_limit_exceeded
      (save_line (record {
        cart_id = cart_id;
        product_id = product_id;
        quantity = current.quantity +ℤ quantity;
      }))
      (λ fits. save_line-Keeps _ (omega (int_laws, q, c), le_of_not_ltb _ _ fits))
