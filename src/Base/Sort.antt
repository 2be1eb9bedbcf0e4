-- ===== src/Base/Sort.antt =====
-- `ORDER BY` a number, ascending and stable, and sorting by any other order.
use Prim.Native.Nat.{ℕ, suc, ◌≤◌}
use mathlib.Core.Path.{◌≡◌, refl, ap}
use mathlib.Core.Logic.{inl, inr}
use mathlib.Core.Bool.{Bool}
use mathlib.Core.List.{List, [], ◌∷◌, Perm}
use mathlib.Core.List.Perm
use native.Mathlib.Omega.{arith}
use eventcommerce.Base.Tests.{ltb, if◌then◌else◌, Bool-cases}
use eventcommerce.Base.Lists.{All, length}

module _ {A : Type 0} (key : A → ℕ) where
  unfoldable pub insert_by : A → List A → List A
  insert_by a [] = a ∷ []
  insert_by a (x ∷ xs) = if ltb (key x) (key a) then x ∷ insert_by a xs else a ∷ x ∷ xs

  unfoldable pub sort_by : List A → List A
  unfolding insert_by
  sort_by [] = []
  sort_by (a ∷ rest) = insert_by a (sort_by rest)

  -- Every row comes before those with a smaller key do.
  abbrev pub IsOrdered : List A → Type 0
  IsOrdered [] = Unit
  IsOrdered (x ∷ xs) = All (λ y. key x ≤ key y) xs × IsOrdered xs

  insert_by-All : (P : A → Type 0) (a : A) (xs : List A) → P a → All P xs → All P (insert_by a xs)
  unfolding insert_by
  insert_by-All P a [] p h = (p, tt)
  insert_by-All P a (x ∷ xs) p h = ground (arith, insert_by-All P a xs p h.1)

  All-le :
      (a x : A) (xs : List A)
      → key a ≤ key x
      → All (λ y. key x ≤ key y) xs
      → All (λ y. key a ≤ key y) xs
  All-le a x [] h hs = tt
  All-le a x (y ∷ ys) h hs = (omega arith, All-le a x ys h hs.1)

  insert_by-IsOrdered : (a : A) (xs : List A) → IsOrdered xs → IsOrdered (insert_by a xs)
  unfolding insert_by
  insert_by-IsOrdered a [] h = (tt, tt)
  insert_by-IsOrdered a (x ∷ xs) h = elim (Bool-cases (ltb (key x) (key a))) [
    | inl before ↦
        rw before
          (insert_by-All (λ y. key x ≤ key y) a xs (ground arith) h.0, insert_by-IsOrdered a xs h.1)
    | inr after ↦ rw after ((ground arith, All-le a x xs (ground arith) h.0), h)
  ]

  pub sort_by-IsOrdered : (xs : List A) → IsOrdered (sort_by xs)
  unfolding sort_by
  sort_by-IsOrdered [] = tt
  sort_by-IsOrdered (x ∷ xs) = insert_by-IsOrdered x (sort_by xs) (sort_by-IsOrdered xs)

  insert_by-perm : (a : A) (xs : List A) → Perm (insert_by a xs) (a ∷ xs)
  unfolding insert_by
  insert_by-perm a [] = Perm.refl (a ∷ [])
  insert_by-perm a (x ∷ xs) = elim (Bool-cases (ltb (key x) (key a))) [
    | inl before ↦ rw before (Perm.trans (Perm.cons x (insert_by-perm a xs)) (Perm.swap a x xs))
    | inr after ↦ rw after (Perm.refl (a ∷ x ∷ xs))
  ]

  pub sort_by-perm : (xs : List A) → Perm (sort_by xs) xs
  unfolding sort_by
  sort_by-perm [] = Perm.refl []
  sort_by-perm (x ∷ xs) = Perm.trans (insert_by-perm x (sort_by xs)) (Perm.cons x (sort_by-perm xs))

-- Sorting by an order of keys that is given as a test: `before x y` says that `x` comes first. An
-- item stays behind the equal ones that stood before it.
module _ {A : Type 0} (before : A → A → Bool) where
  unfoldable pub insert_with : A → List A → List A
  insert_with a [] = a ∷ []
  insert_with a (x ∷ xs) = if before x a then x ∷ insert_with a xs else a ∷ x ∷ xs

  unfoldable pub sort_with : List A → List A
  unfolding insert_with
  sort_with [] = []
  sort_with (a ∷ rest) = insert_with a (sort_with rest)

  insert_with-perm : (a : A) (xs : List A) → Perm (insert_with a xs) (a ∷ xs)
  unfolding insert_with
  insert_with-perm a [] = Perm.refl (a ∷ [])
  insert_with-perm a (x ∷ xs) = elim (Bool-cases (before x a)) [
    | inl first ↦ rw first (Perm.trans (Perm.cons x (insert_with-perm a xs)) (Perm.swap a x xs))
    | inr behind ↦ rw behind (Perm.refl (a ∷ x ∷ xs))
  ]

  pub sort_with-perm : (xs : List A) → Perm (sort_with xs) xs
  unfolding sort_with
  sort_with-perm [] = Perm.refl []
  sort_with-perm (x ∷ xs) =
      Perm.trans (insert_with-perm x (sort_with xs)) (Perm.cons x (sort_with-perm xs))

  length-insert_with : (a : A) (xs : List A) → length (insert_with a xs) ≡ suc (length xs)
  unfolding insert_with
  length-insert_with a [] = refl
  length-insert_with a (x ∷ xs) = ground (arith, length-insert_with a xs)

  pub length-sort_with : (xs : List A) → length (sort_with xs) ≡ length xs
  unfolding sort_with
  length-sort_with [] = refl
  length-sort_with (x ∷ xs) =
      rw (length-insert_with x (sort_with xs)) (ap (λ (n : ℕ). suc n) (length-sort_with xs))
