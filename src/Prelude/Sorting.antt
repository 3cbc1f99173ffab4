-- ===== src/Prelude/Sorting.antt =====
-- `ORDER BY`: insertion of rows by a Boolean order, which keeps the rows that it is given.
use mathlib.Core.Path.{◌≡◌, refl}
use mathlib.Core.Bool.{Bool, true, false}
use mathlib.Core.Logic.{◌⊎◌, inl, inr}
use mathlib.Core.List.{List, [], ◌∷◌}
use native.Mathlib.Omega.{arith}
use invenio_files_rest.Prelude.Tests.{if◌then◌else◌}
use invenio_files_rest.Prelude.Tables.{count}
use invenio_files_rest.Prelude.Members.{IsIn}

module _ {ℓ} {A : Type ℓ} (before : A → A → Bool) where
  abbrev pub insert_sorted : A → List A → List A
  insert_sorted x [] = x ∷ []
  insert_sorted x (y ∷ ys) = if before y x then y ∷ insert_sorted x ys else x ∷ y ∷ ys

  abbrev pub order_by : List A → List A
  order_by [] = []
  order_by (x ∷ xs) = insert_sorted x (order_by xs)

  count-insert_sorted :
      (p : A → Bool) (x : A) (xs : List A) → count p (insert_sorted x xs) ≡ count p (x ∷ xs)
  count-insert_sorted p x [] = refl
  count-insert_sorted p x (y ∷ ys) = ground (arith, count-insert_sorted p x ys)

  -- Sorting keeps the number of rows that pass any test.
  pub count-order_by : (p : A → Bool) (xs : List A) → count p (order_by xs) ≡ count p xs
  count-order_by p [] = refl
  count-order_by p (x ∷ xs) =
      ground (arith, count-insert_sorted p x (order_by xs), count-order_by p xs)

module _ {A : Type 0} (before : A → A → Bool) where
  IsIn-insert_sorted :
      (z x : A) (xs : List A) → IsIn z (insert_sorted before x xs) → (z ≡ x) ⊎ IsIn z xs
  IsIn-insert_sorted z x [] m = m
  IsIn-insert_sorted z x (y ∷ ys) m = go (IsIn-insert_sorted z x ys) (before y x) m
    where
      go :
          (IsIn z (insert_sorted before x ys) → (z ≡ x) ⊎ IsIn z ys)
          → (b : Bool) → IsIn z (if b then y ∷ insert_sorted before x ys else x ∷ y ∷ ys)
          → (z ≡ x) ⊎ IsIn z (y ∷ ys)
      go ih true (inl e) = inr (inl e)
      go ih true (inr n) = elim (ih n) [ inl e ↦ inl e | inr k ↦ inr (inr k) ]
      go ih false n = n

  pub IsIn-order_by : (z : A) (xs : List A) → IsIn z (order_by before xs) → IsIn z xs
  IsIn-order_by z [] m = m
  IsIn-order_by z (x ∷ xs) m = elim (IsIn-insert_sorted z x (order_by before xs) m) [
    | inl e ↦ inl e
    | inr n ↦ inr (IsIn-order_by z xs n)
  ]
