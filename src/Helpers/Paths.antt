-- ===== src/Helpers/Paths.antt =====
-- `make_path` of helpers.py: a path is split into directories. A text is the list of its characters,
-- and `os.path.join` of the standard library is a parameter.
use invenio_files_rest.Prelude.{
  ℕ, zero, suc, ◌+◌, ◌*◌, ◌≤◌, ◌<◌, ◌≡◌, refl, ◌∙◌, ap, Option, none, some, List, [], ◌∷◌, ◌++◌,
  arith, ltb, if◌then◌else◌,
}
use mathlib.Core.List.{append-nil}
use Prim.Native.Nat.mul
use invenio_files_rest.Prelude.Tables.{length}

module _ {A : Type 0} where
  -- `path[0:n]` and `path[n:]`
  abbrev pub take : ℕ → List A → List A
  take zero l = []
  take (suc n) [] = []
  take (suc n) (x ∷ l) = x ∷ take n l

  abbrev pub drop : ℕ → List A → List A
  drop zero l = l
  drop (suc n) [] = []
  drop (suc n) (x ∷ l) = drop n l

  -- The loop of `make_path` and the rest of the path after it.
  unfoldable pub uri_parts : ℕ → ℕ → List A → List (List A)
  uri_parts zero split_length path = path ∷ []
  uri_parts (suc i) split_length path =
      take split_length path ∷ uri_parts i split_length (drop split_length path)

  -- `make_path`; `none` is the failed assertion.
  unfoldable pub make_path :
      (List A → List (List A) → List A) → List A → List A → List A → ℕ → ℕ → Option (List A)
  unfolding uri_parts
  make_path join base_uri path filename path_dimensions split_length =
      if ltb (path_dimensions * split_length) (length path)
      then some (join base_uri (uri_parts path_dimensions split_length path ++ filename ∷ []))
      else none

  -- The parts one after the other.
  abbrev pub concat : List (List A) → List A
  concat [] = []
  concat (l ∷ ls) = l ++ concat ls

  take-drop : (n : ℕ) (l : List A) → take n l ++ drop n l ≡ l
  take-drop zero l = refl
  take-drop (suc n) [] = refl
  take-drop (suc n) (x ∷ l) = ap (λ r. x ∷ r) (take-drop n l)

  length-take : (n : ℕ) (l : List A) → n ≤ length l → length (take n l) ≡ n
  length-take zero l h = refl
  length-take (suc n) [] h = omega (arith, h)
  length-take (suc n) (x ∷ l) h = ap suc (length-take n l (omega (arith, h)))

  length-drop : (n : ℕ) (l : List A) → n ≤ length l → n + length (drop n l) ≡ length l
  length-drop zero l h = omega arith
  length-drop (suc n) [] h = omega (arith, h)
  length-drop (suc n) (x ∷ l) h =
      let rest = length-drop n l (omega (arith, h)) in omega (arith, rest)

  -- `dims` parts of `n` characters each, and a last one that is not empty.
  abbrev pub AreParts : ℕ → ℕ → List (List A) → Type 0
  AreParts zero n [] = 1 ≤ 0
  AreParts zero n (l ∷ []) = 1 ≤ length l
  AreParts zero n (l ∷ m ∷ ls) = 1 ≤ 0
  AreParts (suc dims) n [] = 1 ≤ 0
  AreParts (suc dims) n (l ∷ ls) = (length l ≡ n) × AreParts dims n ls

  -- A path that is longer than the product of the number of directories and their length is split
  -- into that many parts of that length and a last part that is not empty, and the parts one
  -- after the other are the path.
  pub uri_parts_lem :
      (dims n : ℕ) (path : List A)
      → dims * n < length path
      → AreParts dims n (uri_parts dims n path) × (concat (uri_parts dims n path) ≡ path)
  unfolding uri_parts
  uri_parts_lem zero n path h = (omega (arith, h), append-nil path)
  uri_parts_lem (suc dims) n path h =
      let long = mul.suc dims n in
      let fits : n ≤ length path = omega (arith, h, long) in
      let split = length-drop n path fits in
      let rest = uri_parts_lem dims n (drop n path) (omega (arith, h, long, split)) in
      ((length-take n path fits, rest.0), ap (λ r. take n path ++ r) rest.1 ∙ take-drop n path)
