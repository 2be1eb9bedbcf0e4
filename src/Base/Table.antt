-- ===== src/Base/Table.antt =====
-- A database table as the list of its rows, with a primary key.
use mathlib.Core.Path.{◌≡◌, refl}
use mathlib.Core.Option.{Option, none, some}
use mathlib.Core.List.{List, [], ◌∷◌}
use native.Mathlib.Omega.{arith}
use eventcommerce.Base.Tests.{if◌then◌else◌}
use eventcommerce.Base.Equality.{Comparable, ◌==◌}

module _ {K R : Type 0} ⦃e : Comparable K⦄ (key : R → K) where
  -- `select(Model).where(Model.key == k)` and `scalar_one_or_none()`
  unfoldable pub find : K → List R → Option R
  find k [] = none
  find k (r ∷ rows) = if key r == k then some r else find k rows

  -- The row with the key of `r` becomes `merge row r`; where there is none, `r` is inserted.
  unfoldable pub upsert : (R → R → R) → R → List R → List R
  upsert merge r [] = r ∷ []
  upsert merge r (row ∷ rows) =
      if key row == key r then merge row r ∷ rows else row ∷ upsert merge r rows

  abbrev pub merged : (R → R → R) → R → Option R → R
  merged merge r none = r
  merged merge r (some row) = merge row r

  pub find-upsert :
      (merge : R → R → R)
      → ((row r : R) → key (merge row r) ≡ key row)
      → (k : K) (r : R) (rows : List R)
      → find k (upsert merge r rows)
        ≡ (if key r == k then some (merged merge r (find k rows)) else find k rows)
  unfolding find upsert
  find-upsert merge keeps k r [] = refl
  find-upsert merge keeps k r (row ∷ rows) = ground (
    arith,
    keeps row r,
    e.same_iff (key row) (key r),
    e.same_iff (key row) k,
    e.same_iff (key r) k,
    e.same_iff (key (merge row r)) k,
    find-upsert merge keeps k r rows,
  )

  -- A row that is found has the key that was looked for.
  pub key-find : (k : K) (rows : List R) {r : R} → find k rows ≡ some r → key r ≡ k
  unfolding find
  key-find k [] h = ground arith
  key-find k (row ∷ rows) {r} h = ground (arith, e.same_iff (key row) k, key-find k rows {r = r})
