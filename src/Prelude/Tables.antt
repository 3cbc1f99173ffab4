-- ===== src/Prelude/Tables.antt =====
-- Tables as lists of rows: selection by a test, update and deletion of the rows that pass it, and
-- how the number of rows that pass another test changes.
use Prim.Native.Nat.{ℕ, suc, ◌+◌, ◌≤◌}
use mathlib.Core.Path.{◌≡◌, refl}
use mathlib.Core.Logic.{◌⊎◌, inl, inr}
use mathlib.Core.Bool.{Bool, true, false, not, ◌&&◌}
use mathlib.Core.List.{List, [], ◌∷◌, ◌++◌}
use native.Mathlib.Omega.{arith}
use invenio_files_rest.Prelude.Tests.{if◌then◌else◌, Bool-cases}

module _ {ℓ} {A : Type ℓ} where
  abbrev pub length : List A → ℕ
  length [] = 0
  length (x ∷ xs) = suc (length xs)

  -- `query.filter(test)`.
  abbrev pub select : (A → Bool) → List A → List A
  select p [] = []
  select p (x ∷ xs) = if p x then x ∷ select p xs else select p xs

  -- The number of rows that pass the test.
  abbrev pub count : (A → Bool) → List A → ℕ
  count p [] = 0
  count p (x ∷ xs) = if p x then suc (count p xs) else count p xs

  -- Change the rows that pass the test.
  abbrev pub update : (A → Bool) → (A → A) → List A → List A
  update p f [] = []
  update p f (x ∷ xs) = (if p x then f x else x) ∷ update p f xs

  -- `query.filter(test).delete()`.
  abbrev pub delete : (A → Bool) → List A → List A
  delete p [] = []
  delete p (x ∷ xs) = if p x then delete p xs else x ∷ delete p xs

  -- `query.any()`.
  abbrev pub some_row : List A → Bool
  some_row [] = false
  some_row (x ∷ xs) = true

  pub length-select : (p : A → Bool) (xs : List A) → length (select p xs) ≡ count p xs
  length-select p [] = refl
  length-select p (x ∷ xs) = ground (arith, length-select p xs)

  -- At most one row passes: no row or one.
  pub select_cases :
      (p : A → Bool) (xs : List A)
      → count p xs ≤ 1
      → (select p xs ≡ []) ⊎ ((x : A) × (select p xs ≡ x ∷ []))
  select_cases p xs h = go (select p xs) (length-select p xs)
    where
      go : (l : List A) → length l ≡ count p xs → (l ≡ []) ⊎ ((x : A) × (l ≡ x ∷ []))
      go [] e = inl refl
      go (x ∷ []) e = inr (x, refl)
      go (x ∷ y ∷ l) e = absurd (omega arith)

  -- Where no row passes, an update and a deletion leave the table alone.
  pub update-select_nil :
      (p : A → Bool) (f : A → A) (xs : List A) → select p xs ≡ [] → update p f xs ≡ xs
  update-select_nil p f [] h = refl
  update-select_nil p f (x ∷ xs) h = ground (arith, update-select_nil p f xs)

  pub count-select_nil : (p : A → Bool) (xs : List A) → select p xs ≡ [] → count p xs ≡ 0
  count-select_nil p [] h = refl
  count-select_nil p (x ∷ xs) h = ground (arith, count-select_nil p xs)

  pub select-count_zero : (p : A → Bool) (xs : List A) → count p xs ≡ 0 → select p xs ≡ []
  select-count_zero p [] h = refl
  select-count_zero p (x ∷ xs) h = ground (arith, select-count_zero p xs)

  -- The row that one test selects counts for another test that it passes.
  pub count_pos :
      (p q : A → Bool) (xs : List A) (x : A) → select p xs ≡ x ∷ [] → q x ≡ true → 1 ≤ count q xs
  count_pos p q [] x h e = cc
  count_pos p q (y ∷ xs) x h e = ground (arith, count_pos p q xs x)

  -- If `p` selects one row, and `q` passes it and no other, to update by either is the same.
  pub update_same :
      (p q : A → Bool) (f : A → A) (xs : List A) (x : A)
      → select p xs ≡ x ∷ []
      → q x ≡ true
      → count q xs ≤ 1
      → update q f xs ≡ update p f xs
  update_same p q f [] x h e c = refl
  update_same p q f (y ∷ xs) x h e c = elim (Bool-cases (p y)) [
    | inl yes_p ↦
        let none_p : select p xs ≡ [] = ground arith in
        let yes_q : q y ≡ true = ground arith in
        let none_q : select q xs ≡ [] = select-count_zero q xs (ground arith) in
        ground (arith, update-select_nil p f xs none_p, update-select_nil q f xs none_q)
    | inr no_p ↦
        let rest : select p xs ≡ x ∷ [] = ground arith in
        let no_q : q y ≡ false = ground (arith, count_pos p q xs x rest e) in
        ground (arith, update_same p q f xs x rest e)
  ]

  -- An update that does not change whether a row passes leaves no row passing if none did.
  pub select-update_nil :
      (p q : A → Bool) (f : A → A) (xs : List A)
      → ((x : A) → q (f x) ≡ q x)
      → select q xs ≡ []
      → select q (update p f xs) ≡ []
  select-update_nil p q f [] h e = refl
  select-update_nil p q f (x ∷ xs) h e = ground (arith, h x, select-update_nil p q f xs h)

  pub count-update_same :
      (p q : A → Bool) (f : A → A) (xs : List A)
      → ((x : A) → q (f x) ≡ q x)
      → count q (update p f xs) ≡ count q xs
  count-update_same p q f [] h = refl
  count-update_same p q f (x ∷ xs) h = ground (arith, h x, count-update_same p q f xs h)

  -- Where the changed rows pass neither before nor after, the rows that pass are the same.
  pub select-update_other :
      (p q : A → Bool) (f : A → A) (xs : List A)
      → ((x : A) → p x ≡ true → (q x ≡ false) × (q (f x) ≡ false))
      → select q (update p f xs) ≡ select q xs
  select-update_other p q f [] h = refl
  select-update_other p q f (x ∷ xs) h = ground (arith, h x, select-update_other p q f xs h)

  -- An update that makes every row that passes fail leaves none.
  pub select-update_clear :
      (p q : A → Bool) (f : A → A) (xs : List A)
      → ((x : A) → p x ≡ true → q (f x) ≡ false)
      → ((x : A) → p x ≡ false → q x ≡ false)
      → select q (update p f xs) ≡ []
  select-update_clear p q f [] h g = refl
  select-update_clear p q f (x ∷ xs) h g =
      ground (arith, h x, g x, select-update_clear p q f xs h g)

  pub count-update_le :
      (p q : A → Bool) (f : A → A) (xs : List A)
      → ((x : A) → q x ≡ false → q (f x) ≡ false)
      → count q (update p f xs) ≤ count q xs
  count-update_le p q f [] h = omega arith
  count-update_le p q f (x ∷ xs) h = ground (arith, h x, count-update_le p q f xs h)

  pub count-delete_le : (p q : A → Bool) (xs : List A) → count q (delete p xs) ≤ count q xs
  count-delete_le p q [] = omega arith
  count-delete_le p q (x ∷ xs) = ground (arith, count-delete_le p q xs)

  pub select-delete_other :
      (p q : A → Bool) (xs : List A)
      → ((x : A) → p x ≡ true → q x ≡ false)
      → select q (delete p xs) ≡ select q xs
  select-delete_other p q [] h = refl
  select-delete_other p q (x ∷ xs) h = ground (arith, h x, select-delete_other p q xs h)

  pub select-passes :
      (p : A → Bool) (xs : List A) (x : A) (l : List A) → select p xs ≡ x ∷ l → p x ≡ true
  select-passes p [] x l h = cc
  select-passes p (y ∷ xs) x l h = ground (arith, select-passes p xs x l)

  pub some_row_cases : (xs : List A) → ((some_row xs ≡ false) × (xs ≡ [])) ⊎ (some_row xs ≡ true)
  some_row_cases [] = inl (refl, refl)
  some_row_cases (x ∷ xs) = inr refl

  -- The one row that passes, after an update of the rows that pass.
  pub select-update_self :
      (p : A → Bool) (f : A → A) (xs : List A) (x : A)
      → ((y : A) → p (f y) ≡ p y)
      → select p xs ≡ x ∷ []
      → select p (update p f xs) ≡ f x ∷ []
  select-update_self p f [] x h e = cc
  select-update_self p f (y ∷ xs) x h e =
      ground (arith, h y, select-update_self p f xs x h, select-update_nil p p f xs h)

  pub length-append : (xs ys : List A) → length (xs ++ ys) ≡ length xs + length ys
  length-append [] ys = omega arith
  length-append (x ∷ xs) ys = omega (arith, length-append xs ys)

  pub select-delete_self : (p : A → Bool) (xs : List A) → select p (delete p xs) ≡ []
  select-delete_self p [] = refl
  select-delete_self p (x ∷ xs) = ground (arith, select-delete_self p xs)

  -- How counting goes with a conjunction, a selection and an update.
  pub count-split :
      (p r : A → Bool) (xs : List A)
      → count p xs ≡ count (λ x. p x && r x) xs + count (λ x. p x && not (r x)) xs
  count-split p r [] = omega arith
  count-split p r (x ∷ xs) = ground (arith, count-split p r xs)

  pub count_mono :
      (p q : A → Bool) (xs : List A) → ((x : A) → p x ≡ true → q x ≡ true) → count p xs ≤ count q xs
  count_mono p q [] h = omega arith
  count_mono p q (x ∷ xs) h = ground (arith, h x, count_mono p q xs h)

  pub count-select :
      (p r : A → Bool) (xs : List A) → count p (select r xs) ≡ count (λ x. p x && r x) xs
  count-select p r [] = refl
  count-select p r (x ∷ xs) = ground (arith, count-select p r xs)

  pub count-update_bound :
      (p q : A → Bool) (f : A → A) (xs : List A)
      → count q (update p f xs) ≤ count q xs + count (λ x. p x && q (f x)) xs
  count-update_bound p q f [] = omega arith
  count-update_bound p q f (x ∷ xs) = ground (arith, count-update_bound p q f xs)

  pub count-update_ge :
      (p q : A → Bool) (f : A → A) (xs : List A)
      → count (λ x. p x && q (f x)) xs ≤ count q (update p f xs)
  count-update_ge p q f [] = omega arith
  count-update_ge p q f (x ∷ xs) = ground (arith, count-update_ge p q f xs)

  pub count-delete :
      (p q : A → Bool) (xs : List A)
      → count q xs ≡ count q (delete p xs) + count (λ x. q x && p x) xs
  count-delete p q [] = omega arith
  count-delete p q (x ∷ xs) = ground (arith, count-delete p q xs)

  pub select-update_new :
      (p q : A → Bool) (f : A → A) (xs : List A) (x : A)
      → select q xs ≡ []
      → select p xs ≡ x ∷ []
      → q (f x) ≡ true
      → select q (update p f xs) ≡ f x ∷ []
  select-update_new p q f [] x n h e = cc
  select-update_new p q f (y ∷ xs) x n h e = elim (Bool-cases (p y)) [
    | inl here ↦
        let left : select p xs ≡ [] = ground arith in
        let same : y ≡ x = ground arith in ground (arith, update-select_nil p f xs left, same)
    | inr there ↦ ground (arith, select-update_new p q f xs x)
  ]

  -- The row that a test finds is the row that any other test finds that it passes.
  pub select_unique :
      (p q : A → Bool) (xs : List A) (x : A)
      → select p xs ≡ x ∷ []
      → q x ≡ true
      → count q xs ≤ 1
      → select q xs ≡ x ∷ []
  select_unique p q [] x e h n = cc
  select_unique p q (y ∷ xs) x e h n = elim (Bool-cases (p y)) [
    | inl here ↦ let same : y ≡ x = ground arith in ground (arith, same, select-count_zero q xs)
    | inr there ↦ ground (arith, count_pos p q xs x, select_unique p q xs x)
  ]
