-- ===== src/Cart/Counts.antt =====
-- How many lines a cart has, through the writes of
-- backend/app/modules/cart/infrastructure/sqlalchemy_repository.py.
use eventcommerce.Base.{
  ℕ, suc, ◌≤◌, String, Bool, true, false, ◌||◌, ◌≡◌, refl, ap, ◌∙◌, some, List, [], ◌∷◌, find,
  upsert, insert_with, sort_with, length, ◌==◌, string_eq, pair_eq, arith,
}
use eventcommerce.Result.{Uuid}
use eventcommerce.Cart.Domain.{CartLine}
use eventcommerce.Cart.Repository.{line_key, update_line, lines_of, without_line}
use eventcommerce.Cart.UseCases.{current_line}

abbrev pub line_count : Uuid → List CartLine → ℕ
line_count cart_id lines = length (lines_of cart_id lines)

unfoldable lists : String → List CartLine → Bool
lists product_id [] = false
lists product_id (line ∷ lines) = line.product_id == product_id || lists product_id lines

-- Whether the line that a write is about is there.
unfoldable pub has_line : Uuid → String → List CartLine → Bool
has_line cart_id product_id [] = false
has_line cart_id product_id (line ∷ lines) =
    line_key line == (cart_id, product_id) || has_line cart_id product_id lines

lists-insert_with :
    (product_id : String) (before : CartLine → CartLine → Bool) (line : CartLine)
    (lines : List CartLine)
    → lists product_id (insert_with before line lines) ≡ lists product_id (line ∷ lines)
unfolding lists insert_with
lists-insert_with product_id before line [] = refl
lists-insert_with product_id before line (row ∷ lines) =
    ground (arith, lists-insert_with product_id before line lines)

lists-sort_with :
    (product_id : String) (before : CartLine → CartLine → Bool) (lines : List CartLine)
    → lists product_id (sort_with before lines) ≡ lists product_id lines
unfolding lists sort_with
lists-sort_with product_id before [] = refl
lists-sort_with product_id before (line ∷ lines) =
    lists-insert_with product_id before line (sort_with before lines)
    ∙ ap (λ (b : Bool). line.product_id == product_id || b)
        (lists-sort_with product_id before lines)

lists-lines_of :
    (cart_id : Uuid) (product_id : String) (lines : List CartLine)
    → lists product_id (lines_of cart_id lines) ≡ has_line cart_id product_id lines
unfolding lists lines_of has_line
lists-lines_of cart_id product_id [] = refl
lists-lines_of cart_id product_id (line ∷ lines) =
    ground (arith, lists-lines_of cart_id product_id lines)

lists-current_line :
    (product_id : String) (lines : List CartLine) (line : CartLine)
    → current_line product_id lines ≡ some line
    → lists product_id lines ≡ true
unfolding lists find
lists-current_line product_id [] line h = ground arith
lists-current_line product_id (row ∷ lines) line h =
    ground (arith, lists-current_line product_id lines line)

-- A line among the lines of a cart, in whatever order, is a row of the cart.
pub has_line-current_line :
    (cart_id : Uuid) (product_id : String) (before : CartLine → CartLine → Bool)
    (lines : List CartLine) (line : CartLine)
    → current_line product_id (sort_with before (lines_of cart_id lines)) ≡ some line
    → has_line cart_id product_id lines ≡ true
has_line-current_line cart_id product_id before lines line h =
    rw
      (
        lists-sort_with product_id before (lines_of cart_id lines),
        lists-lines_of cart_id product_id lines,
      )
      at (lists-current_line product_id (sort_with before (lines_of cart_id lines)) line h)

pub has_line-find :
    (cart_id : Uuid) (product_id : String) (lines : List CartLine) (line : CartLine)
    → find line_key (cart_id, product_id) lines ≡ some line
    → has_line cart_id product_id lines ≡ true
unfolding has_line find
has_line-find cart_id product_id [] line h = ground arith
has_line-find cart_id product_id (row ∷ lines) line h =
    ground (arith, has_line-find cart_id product_id lines line)

-- A write of a line that is there keeps the counts.
pub line_count-upsert :
    (cart_id : Uuid) (line : CartLine) (lines : List CartLine)
    → has_line line.cart_id line.product_id lines ≡ true
    → line_count cart_id (upsert line_key update_line line lines) ≡ line_count cart_id lines
unfolding has_line upsert lines_of
line_count-upsert cart_id line [] h = ground arith
line_count-upsert cart_id line (row ∷ lines) h =
    ground (arith, line_count-upsert cart_id line lines)

-- A write of a line of another cart keeps the count of a cart.
pub line_count-elsewhere :
    (cart_id : Uuid) (line : CartLine) (lines : List CartLine)
    → (line.cart_id == cart_id) ≡ false
    → line_count cart_id (upsert line_key update_line line lines) ≡ line_count cart_id lines
unfolding upsert lines_of
line_count-elsewhere cart_id line [] h = rw h refl
line_count-elsewhere cart_id line (row ∷ lines) h =
    ground (arith, line_count-elsewhere cart_id line lines)

pub line_count-upsert_le :
    (cart_id : Uuid) (line : CartLine) (lines : List CartLine)
    → line_count cart_id (upsert line_key update_line line lines) ≤ suc (line_count cart_id lines)
unfolding upsert lines_of
line_count-upsert_le cart_id line [] = ground arith
line_count-upsert_le cart_id line (row ∷ lines) =
    ground (arith, line_count-upsert_le cart_id line lines)

pub line_count-without_line :
    (cart_id : Uuid) (of_cart : Uuid) (product_id : String) (lines : List CartLine)
    → line_count cart_id (without_line of_cart product_id lines) ≤ line_count cart_id lines
unfolding without_line lines_of
line_count-without_line cart_id of_cart product_id [] = ground arith
line_count-without_line cart_id of_cart product_id (line ∷ lines) =
    ground (arith, line_count-without_line cart_id of_cart product_id lines)
