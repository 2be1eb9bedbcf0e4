-- ===== src/Checkout/Totals.antt =====
-- What the reservation and the release of a checkout keep of the stock:
-- backend/app/modules/checkout/application/checkout.py.
use eventcommerce.Base.{
  String, ◌≡◌, refl, Option, none, some, List, [], ◌∷◌, find, merged, ◌==◌, string_eq, Bool-cases,
  Option-cases, inl, inr, eq_iff, key-find, ap, sym, ◌∙◌, All, sort_with,
}
use eventcommerce.Base.Int.{ℤ, ltb_ℤ}
use eventcommerce.Result.{Result, ok, err, key_error}
use eventcommerce.Session.{Db, Action, lift, or_raise, ◌>>=◌, ◌>>◌}
use eventcommerce.Session.Keeps.{Keeps, keeps_rules, Keeps-bind, Keeps-or_raise}
use eventcommerce.Inventory.Domain.{Inventory, reserve_stock}
use eventcommerce.Inventory.Repository.{
  stock_row, inventory_key, update_inventory, save_inventory, stock_row-save_inventory,
}
use eventcommerce.Inventory.Locking.{by_product, check_rows, checked, lock_and_check_availability}
use eventcommerce.Inventory.UseCases.{release_inventory}
use eventcommerce.Inventory.Conservation.{
  row_total, total_of, reserve_stock-ok, release_inventory-HasTotal,
}
use eventcommerce.Checkout.Execute.{line_key, reserve_locked, release_lines}

-- The stock of every product adds up to what `t` says.
abbrev pub Totals : (String → Option ℤ) → Db → Type 0
Totals t db = (k : String) → total_of (stock_row k db) ≡ t k

module _ (t : String → Option ℤ) where
  -- An entity that was read from the tables, whatever has been written since.
  abbrev pub IsRead : Inventory → Type 0
  IsRead inventory = some (row_total inventory) ≡ t inventory.product_id

  merged-total :
      (inventory : Inventory) (found : Option Inventory)
      → total_of (some (merged inventory_key update_inventory inventory found))
        ≡ some (row_total inventory)
  merged-total inventory none = refl
  merged-total inventory (some row) = refl

  save_inventory-Totals :
      (inventory : Inventory) → IsRead inventory → Keeps (Totals t) (save_inventory inventory)
  save_inventory-Totals inventory is = record {
    at = λ db h k. rw stock_row-save_inventory (elim (Bool-cases (inventory.product_id == k)) [
      | inl here ↦ rw here (
          merged-total inventory (stock_row k db)
          ∙ is
          ∙ ap t ((eq_iff inventory.product_id k).0 here))
      | inr elsewhere ↦ rw elsewhere (h k)
    ]);
  }

  reserve_stock-IsRead :
      (inventory reserved : Inventory) (quantity : ℤ)
      → IsRead inventory
      → reserve_stock inventory quantity ≡ ok reserved
      → IsRead reserved
  reserve_stock-IsRead inventory reserved quantity is e =
      let (total, id, _) = reserve_stock-ok inventory reserved quantity e in
      ap some total ∙ is ∙ ap t (sym id)

  reserved-Totals :
      (inventory : Inventory) (quantity : ℤ) (rest : Action Unit)
      → IsRead inventory
      → Keeps (Totals t) rest
      → Keeps
          (Totals t)
          (lift (reserve_stock inventory quantity) >>= λ reserved. save_inventory reserved >> rest)
  reserved-Totals inventory quantity rest is kept = record {
    at = λ db h. go (reserve_stock inventory quantity) refl db h;
  }
    where
      go :
          (r : Result Inventory)
          → reserve_stock inventory quantity ≡ r
          → (db : Db) → Totals t db
          → Totals t ((lift r >>= λ reserved. save_inventory reserved >> rest) db).1
      go (err x) e db h = h
      go (ok reserved) e db h =
          (Keeps-bind (save_inventory reserved) (λ _. rest)
              (save_inventory-Totals reserved
                (reserve_stock-IsRead inventory reserved quantity is e))
              (λ _. kept)).at
            db h

  pub reserve_locked-Totals :
      (quantities : List (String × ℤ)) (locked : List Inventory)
      → All IsRead locked
      → Keeps (Totals t) (reserve_locked quantities locked)
  unfolding reserve_locked
  reserve_locked-Totals quantities [] h = search keeps_rules
  reserve_locked-Totals quantities (inventory ∷ locked) (is, h) =
      Keeps-bind (or_raise (find line_key inventory.product_id quantities) key_error)
        (λ line. lift (reserve_stock inventory line.1) >>= λ reserved.
          save_inventory reserved >> reserve_locked quantities locked)
        (Keeps-or_raise (find line_key inventory.product_id quantities) key_error)
        (λ line.
          reserved-Totals inventory line.1 (reserve_locked quantities locked) is
            (reserve_locked-Totals quantities locked h))

  abbrev AreRead : Result (List Inventory) → Type 0
  AreRead (err e) = Unit
  AreRead (ok locked) = All IsRead locked

  checked-AreRead :
      (quantity : ℤ) (inventory : Inventory) (rest : Result (List Inventory))
      → IsRead inventory
      → AreRead rest
      → AreRead (checked quantity (some inventory) rest)
  checked-AreRead quantity inventory rest is h =
      elim (Bool-cases (ltb_ℤ inventory.available_quantity quantity)) [
        | inl short ↦ rw short tt
        | inr enough ↦ rw enough (go rest h)
      ]
    where
      go :
          (rest : Result (List Inventory))
          → AreRead rest
          → AreRead
              (elim rest [ ok inventory_list ↦ ok (inventory ∷ inventory_list) | err e ↦ err e ])
      go (ok inventory_list) h = (is, h)
      go (err e) h = tt

  check_rows-AreRead :
      (items : List (String × ℤ)) (db : Db) → Totals t db → AreRead (check_rows items db)
  unfolding check_rows
  check_rows-AreRead [] db h = tt
  check_rows-AreRead ((product_id, quantity) ∷ items) db h =
      elim (Option-cases (stock_row product_id db)) [
        | inl missing ↦ rw missing tt
        | inr (inventory, found) ↦ rw found (
            checked-AreRead quantity inventory (check_rows items db)
              (sym (ap total_of found)
                ∙ h product_id
                ∙ ap t (sym (key-find inventory_key product_id db.inventory found)))
              (check_rows-AreRead items db h))
      ]

  -- What is done with the rows may use that they were read.
  pub lock-Totals :
      {A : Type 0} (items : List (String × ℤ)) (f : List Inventory → Action A)
      → ((locked : List Inventory) → All IsRead locked → Keeps (Totals t) (f locked))
      → Keeps (Totals t) (lock_and_check_availability items >>= f)
  unfolding lock_and_check_availability
  lock-Totals {A} items f kept = record {
    at = λ db h.
        go (check_rows (sort_with by_product items) db)
          (check_rows-AreRead (sort_with by_product items) db h) db h;
  }
    where
      go :
          (r : Result (List Inventory))
          → AreRead r
          → (db : Db) → Totals t db
          → Totals t ((lift r >>= f) db).1
      go (err e) read db h = h
      go (ok locked) read db h = (kept locked read).at db h

  pub release_lines-Totals : (lines : List (String × ℤ)) → Keeps (Totals t) (release_lines lines)
  unfolding release_lines
  release_lines-Totals [] = search keeps_rules
  release_lines-Totals ((product_id, quantity) ∷ lines) =
      Keeps-bind (release_inventory product_id quantity) (λ _. release_lines lines)
        (record {
          at = λ db h k. (release_inventory-HasTotal k (t k) product_id quantity).at db (h k);
        })
        (λ _. release_lines-Totals lines)
