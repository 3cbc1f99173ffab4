-- ===== src/Limiters/Bounds.antt =====
-- The size limit of a bucket is the least of the limits that are set.
use mathlib.Core.Path.{subst}
use invenio_files_rest.Prelude.{
  Option, sym, ℕ, ◌≤◌, ◌≡◌, refl, ◌⊎◌, inl, inr, none, some, List, [], ◌∷◌, arith, ltb, is_some,
  Option-cases, Bool-cases,
}
use invenio_files_rest.Prelude.Tables.{select}
use invenio_files_rest.Prelude.Members.{IsIn}
use invenio_files_rest.Schema.{FileSizeLimit}
use invenio_files_rest.Session.{ok}
use invenio_files_rest.Limiters.{less_than, minimum, size_limit}

-- `n` is at most the limit, if that is set.
abbrev pub IsAtMost : ℕ → Option ℕ → Type 0
IsAtMost n none = Unit
IsAtMost n (some m) = n ≤ m

-- `n` is at most every limit of the list that is set.
abbrev pub IsBelowAll : ℕ → List FileSizeLimit → Type 0
IsBelowAll n [] = Unit
IsBelowAll n (l ∷ ls) = IsAtMost n l.limit × IsBelowAll n ls

IsAtMost-unset : (n : ℕ) (l : FileSizeLimit) → l.limit ≡ none → IsAtMost n l.limit
IsAtMost-unset n l e = subst (IsAtMost n) (sym e) tt

IsAtMost-set : (n m : ℕ) (l : FileSizeLimit) → l.limit ≡ some m → n ≤ m → IsAtMost n l.limit
IsAtMost-set n m l e h = subst (IsAtMost n) (sym e) h

-- What the loop of `min` returns, begun with a best limit of `b`.
abbrev Minimum : FileSizeLimit → ℕ → List FileSizeLimit → Type 0
Minimum best b ls =
    (m : FileSizeLimit) × (n : ℕ) × (minimum best (select (λ l. is_some l.limit) ls) ≡ ok m)
    × (m.limit ≡ some n)
    × (n ≤ b)
    × IsBelowAll n ls
    × ((m ≡ best) ⊎ IsIn m ls)

minimum_lem :
    (best : FileSizeLimit) (b : ℕ) (ls : List FileSizeLimit)
    → best.limit ≡ some b
    → Minimum best b ls
unfolding minimum less_than
minimum_lem best b [] h = (best, b, refl, h, omega arith, tt, inl refl)
minimum_lem best b (l ∷ ls) h = elim (Option-cases l.limit) [
  | inl unset ↦
      let (m, n, e, f, le, below, src) = minimum_lem best b ls h in
      (
        m,
        n,
        ground arith,
        f,
        le,
        (IsAtMost-unset n l unset, below),
        elim src [ inl same ↦ inl same | inr there ↦ inr (inr there) ],
      )
  | inr (x, e) ↦ elim (Bool-cases (ltb x b)) [
    | inl less ↦
        let (m, n, e', f, le, below, src) = minimum_lem l x ls e in
        (
          m,
          n,
          ground arith,
          f,
          ground arith,
          (IsAtMost-set n x l e (ground arith), below),
          inr (elim src [ inl same ↦ inl same | inr there ↦ inr there ]),
        )
    | inr more ↦
        let (m, n, e', f, le, below, src) = minimum_lem best b ls h in
        (
          m,
          n,
          ground arith,
          f,
          le,
          (IsAtMost-set n x l e (ground arith), below),
          elim src [ inl same ↦ inl same | inr there ↦ inr (inr there) ],
        )
  ]
]

-- No limiter of the list is set.
abbrev pub AllUnset : List FileSizeLimit → Type 0
AllUnset [] = Unit
AllUnset (l ∷ ls) = (l.limit ≡ none) × AllUnset ls

-- Bucket.size_limit raises nothing, and returns no limit where no limiter is set, and else one of
-- the limiters of the list, whose limit is the least of those that are set.
pub size_limit_least :
    (ls : List FileSizeLimit)
    → ((size_limit ls ≡ ok none) × AllUnset ls)
      ⊎ ((m : FileSizeLimit) × (n : ℕ) × (size_limit ls ≡ ok (some m))
          × (m.limit ≡ some n)
          × IsBelowAll n ls
          × IsIn m ls)
unfolding size_limit
size_limit_least [] = inl (refl, tt)
size_limit_least (l ∷ ls) = elim (Option-cases l.limit) [
  | inl unset ↦ elim (size_limit_least ls) [
    | inl h ↦ inl (ground arith, (unset, h.1))
    | inr (m, n, e, f, below, src) ↦
        inr (m, n, ground arith, f, (IsAtMost-unset n l unset, below), inr src)
  ]
  | inr (x, e) ↦
      let (m, n, e', f, le, below, src) = minimum_lem l x ls e in
      inr (m, n, ground arith, f, (IsAtMost-set n x l e (ground arith), below), src)
]
