-- ===== src/Prelude/Members.antt =====
-- The rows that are in a table, and what selections make of them.
use Prim.Native.Nat.{◌≤◌}
use mathlib.Core.Path.{◌≡◌, refl, sym, ap, ◌∙◌}
use mathlib.Core.Logic.{◌⊎◌, inl, inr}
use mathlib.Core.Bool.{Bool, true, false}
use mathlib.Core.List.{List, [], ◌∷◌}
use native.Mathlib.Omega.{arith}
use invenio_files_rest.Prelude.Tests.{if◌then◌else◌}
use invenio_files_rest.Prelude.Tables.{select, count, select-count_zero}

module _ {A : Type 0} where
  -- The row is one of the table's.
  abbrev pub IsIn : A → List A → Type 0
  IsIn x [] = ⊥
  IsIn x (y ∷ ys) = (x ≡ y) ⊎ IsIn x ys

  pub count-IsIn : (p : A → Bool) (x : A) (xs : List A) → IsIn x xs → p x ≡ true → 1 ≤ count p xs
  count-IsIn p x [] m h = absurd m
  count-IsIn p x (y ∷ xs) (inl e) h = ground (arith, ap p e)
  count-IsIn p x (y ∷ xs) (inr m) h = ground (arith, count-IsIn p x xs m h)

  -- A row that passes a test which one row at most passes is what the test selects.
  pub select-IsIn :
      (p : A → Bool) (x : A) (xs : List A)
      → IsIn x xs
      → p x ≡ true
      → count p xs ≤ 1
      → select p xs ≡ x ∷ []
  select-IsIn p x [] m h c = absurd m
  select-IsIn p x (y ∷ xs) (inl e) h c =
      let here : p y ≡ true = ap p (sym e) ∙ h in
      let none_left : select p xs ≡ [] = select-count_zero p xs (ground arith) in
      rw here (rw none_left (ap (λ z. z ∷ []) (sym e)))
  select-IsIn p x (y ∷ xs) (inr m) h c =
      ground (arith, count-IsIn p x xs m h, select-IsIn p x xs m h)

  pub IsIn-select : (p : A → Bool) (x : A) (xs : List A) → IsIn x (select p xs) → IsIn x xs
  IsIn-select p x [] m = m
  IsIn-select p x (y ∷ xs) m = go (IsIn-select p x xs) (p y) m
    where
      go :
          (IsIn x (select p xs) → IsIn x xs)
          → (b : Bool) → IsIn x (if b then y ∷ select p xs else select p xs)
          → (x ≡ y) ⊎ IsIn x xs
      go ih true (inl e) = inl e
      go ih true (inr n) = inr (ih n)
      go ih false n = inr (ih n)

  pub select-IsIn_passes : (p : A → Bool) (x : A) (xs : List A) → IsIn x (select p xs) → p x ≡ true
  select-IsIn_passes p x [] m = absurd m
  select-IsIn_passes p x (y ∷ xs) m = go (select-IsIn_passes p x xs) (p y) refl m
    where
      go :
          (IsIn x (select p xs) → p x ≡ true)
          → (b : Bool) → p y ≡ b
          → IsIn x (if b then y ∷ select p xs else select p xs)
          → p x ≡ true
      go ih true e (inl same) = ap p same ∙ e
      go ih true e (inr n) = ih n
      go ih false e n = ih n
