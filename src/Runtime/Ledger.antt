-- ===== src/Runtime/Ledger.antt =====
-- The stock of a product, over the steps of the whole system.
use eventcommerce.Base.{
  String, false, ◌≡◌, refl, ◌⊎◌, inl, inr, Option, none, some, List, [], ◌∷◌, find, ◌==◌, string_eq,
  Bool-cases, Option-cases, eq_iff, key-find, subst, ap, sym, ◌∙◌,
}
use eventcommerce.Base.Int.{ℤ, pos, ◌+ℤ◌, ltb_ℤ}
use eventcommerce.Result.{Uuid, Result, ok, err}
use eventcommerce.Session.{Db, in_transaction, lift, pure, ◌>>=◌, ◌>>◌}
use eventcommerce.Session.Keeps.{Keeps, keeps_rules, Keeps-in_transaction}
use eventcommerce.Messaging.Events.{ProcessedEvent}
use eventcommerce.Messaging.Worker.{mark_published}
use eventcommerce.Orders.Domain.{OrderItem}
use eventcommerce.Orders.UseCases.{create_order, confirm_order, cancel_order}
use eventcommerce.Inventory.Domain.{Inventory, adjust_available_stock}
use eventcommerce.Inventory.Repository.{
  stock_row, inventory_key, save_inventory, stock_row-save_inventory,
}
use eventcommerce.Inventory.UseCases.{adjust_stock}
use eventcommerce.Inventory.Conservation.{total_of}
use eventcommerce.Checkout.Stock.{execute-conserves_stock}
use eventcommerce.Catalog.UseCases.{zero_stock, seed_inventory}
use eventcommerce.Catalog.Writes.{stock_row-seed_inventory}
use eventcommerce.Runtime.Shopping.{OfOthers}
use eventcommerce.Runtime.Asking.{perform-Keeps}
use eventcommerce.Runtime.Handlers.{Services}
use eventcommerce.Runtime.Kept.{Kept-get_order}
use eventcommerce.Runtime.Publishing.{run_once-Keeps}
use eventcommerce.Runtime.Stock.{OfInventory, Keeps-record_transition, delivery_conserves_stock}
use eventcommerce.Runtime.System.{
  Step, creates, checks_out, confirms, cancels, adjusts, asks, delivers, publishes,
}

module _ (Q : List Inventory → List ProcessedEvent → Type 0) where
  pub create_order-Keeps :
      (customer_id : String) (items : List OrderItem)
      → Keeps (OfInventory Q) (create_order customer_id items)
  unfolding create_order
  create_order-Keeps customer_id [] = search keeps_rules
  create_order-Keeps customer_id (item ∷ items) = record { at = λ db h. h }

  pub confirm_order-Keeps : (order_id : Uuid) → Keeps (OfInventory Q) (confirm_order order_id)
  unfolding confirm_order
  confirm_order-Keeps order_id =
      search (keeps_rules, Kept-get_order, Keeps-record_transition) depth 9

  pub cancel_order-Keeps :
      (order_id : Uuid) (reason : String) → Keeps (OfInventory Q) (cancel_order order_id reason)
  unfolding cancel_order
  cancel_order-Keeps order_id reason =
      search (keeps_rules, Kept-get_order, Keeps-record_transition) depth 9

  pub mark_published-Keeps : (id : Uuid) → Keeps (OfInventory Q) (mark_published id)
  unfolding mark_published
  mark_published-Keeps id = record { at = λ db h. h }

-- An adjustment of one product leaves the rows of the others.
adjusted-product :
    (inventory adjusted : Inventory) (delta : ℤ)
    → adjust_available_stock inventory delta ≡ ok adjusted
    → inventory.product_id ≡ adjusted.product_id
unfolding adjust_available_stock
adjusted-product inventory adjusted delta e =
    elim (Bool-cases (ltb_ℤ (inventory.available_quantity +ℤ delta) (pos 0))) [
      | inl short ↦ cc (rw short at e)
      | inr enough ↦ cc (rw enough at e)
    ]

module _ (k product_id : String) (elsewhere : (product_id == k) ≡ false)
    (r : Option Inventory) where
  abbrev IsRow : Db → Type 0
  IsRow db = stock_row k db ≡ r

  save_inventory-IsRow :
      (inventory : Inventory) (db : Db)
      → product_id ≡ inventory.product_id
      → IsRow db
      → IsRow (save_inventory inventory db).1
  save_inventory-IsRow inventory db same h =
      rw stock_row-save_inventory (rw (subst (λ p. (p == k) ≡ false) same elsewhere) h)

  adjust_stock-IsRow : (delta : ℤ) → Keeps IsRow (adjust_stock product_id delta)
  unfolding adjust_stock
  adjust_stock-IsRow delta = record {
    at = λ db h. elim (Option-cases (stock_row product_id db)) [
      | inl missing ↦ rw missing h
      | inr (inventory, found) ↦ rw found (
          go (adjust_available_stock inventory delta) inventory db refl
            (sym (key-find inventory_key product_id db.inventory found)) h)
    ];
  }
    where
      go :
          (a : Result Inventory) (inventory : Inventory) (db : Db)
          → adjust_available_stock inventory delta ≡ a
          → product_id ≡ inventory.product_id
          → IsRow db
          → IsRow ((lift a >>= λ adjusted. save_inventory adjusted >> pure adjusted) db).1
      go (err e) inventory db is same h = h
      go (ok adjusted) inventory db is same h =
          save_inventory-IsRow adjusted db (same ∙ adjusted-product inventory adjusted delta is) h

-- A new product gets a row of stock, of zero, where it has none.
abbrev IsSeeded : String → Db → List Inventory → Type 0
IsSeeded k db rows =
    (total_of (find inventory_key k rows) ≡ total_of (stock_row k db))
    ⊎ ((stock_row k db ≡ none) × (find inventory_key k rows ≡ some (zero_stock k)))

total_of-none : (row : Option Inventory) → total_of none ≡ total_of row → row ≡ none
total_of-none none e = refl
total_of-none (some row) e = cc

seed_inventory-IsSeeded :
    (k : String) (db : Db) (product_id : String)
    → Keeps (OfOthers (λ _ _ _ rows. IsSeeded k db rows)) (seed_inventory product_id)
seed_inventory-IsSeeded k db product_id = record {
  at = λ now h.
      rw (stock_row-seed_inventory k product_id now) (elim (Bool-cases (product_id == k)) [
        | inr other ↦ rw other h
        | inl same ↦ elim (Option-cases (stock_row k now)) [
          | inr (row, found) ↦ rw (same, found) (rw found at h)
          | inl missing ↦ elim h [
            | inl total ↦
                rw (same, missing)
                  (inr (
                    total_of-none (stock_row k db) (rw missing at total),
                    ap (λ (id : String). some (zero_stock id)) ((eq_iff product_id k).0 same),
                  ))
            | inr (_, found) ↦ cc (missing, found)
          ]
        ]
      ]);
}

abbrev HasSameTotal : String → Db → List Inventory → List ProcessedEvent → Type 0
HasSameTotal k db rows processed = total_of (find inventory_key k rows) ≡ total_of (stock_row k db)

module _ (services : Services) (k : String) {db : Db} where
  -- One step of the system (a request to any route, a delivery or a run of the worker) leaves
  -- available and reserved stock of a product adding up to what they did before, unless it is an
  -- adjustment of that product's stock, or gives the product a row of stock where it had none,
  -- which has zero available and reserved.
  pub stock_conserved :
      {after : Db}
      → Step services db after
      → (total_of (stock_row k after) ≡ total_of (stock_row k db))
        ⊎ ((delta : ℤ) × (after ≡ (in_transaction (adjust_stock k delta) db).1))
        ⊎ ((stock_row k db ≡ none) × (stock_row k after ≡ some (zero_stock k)))
  stock_conserved (creates customer_id items fresh e) = inl (
      rw e (
        (Keeps-in_transaction _ (create_order-Keeps (HasSameTotal k db) customer_id items)).at db
          refl))
  stock_conserved (checks_out checkout request fresh e) =
      inl (rw e (execute-conserves_stock checkout request db k))
  stock_conserved (confirms order_id e) = inl (
      rw e ((Keeps-in_transaction _ (confirm_order-Keeps (HasSameTotal k db) order_id)).at db refl))
  stock_conserved (cancels order_id reason e) = inl (
      rw e (
        (Keeps-in_transaction _ (cancel_order-Keeps (HasSameTotal k db) order_id reason)).at db
          refl))
  stock_conserved {after} (adjusts product_id delta e) = elim (Bool-cases (product_id == k)) [
    | inl here ↦ inr (
        inl (
          delta,
          subst (λ p. after ≡ (in_transaction (adjust_stock p delta) db).1)
              ((eq_iff product_id k).0 here) e,
        ))
    | inr elsewhere ↦ inl (
        rw e (
          ap total_of (
            (Keeps-in_transaction _
                (adjust_stock-IsRow k product_id elsewhere (stock_row k db) delta)).at
              db refl)))
  ]
  stock_conserved (asks request e) =
      rw e
        (elim (perform-Keeps (λ _ _ _ rows. IsSeeded k db rows) (seed_inventory-IsSeeded k db)
          request db (inl refl)) [ inl total ↦ inl total | inr seeded ↦ inr (inr seeded) ])
  stock_conserved (delivers m e) = inl (rw e (delivery_conserves_stock services m db k))
  stock_conserved (publishes publish batch_size e) = inl (
      rw e (
        (Keeps-in_transaction _
            (run_once-Keeps (mark_published-Keeps (HasSameTotal k db)) publish batch_size)).at
          db refl))
