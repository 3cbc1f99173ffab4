-- ===== src/Limiters.antt =====
-- limiters.py and the two properties of `Bucket` (models.py) that it serves: the quota that is left
-- and the size limit, the least of the limits that are set.
pub mod Bounds
mod Tests
use invenio_files_rest.Prelude.{
  ℕ, zero, suc, Bool, true, false, Option, none, some, List, [], ◌∷◌, ltb, ◌==◌, if◌then◌else◌,
  is_some,
}
use invenio_files_rest.Prelude.Int.{ℤ, pos, negsuc, pos_part, ◌-ℤ◌}
use invenio_files_rest.Prelude.Tables.{select}
use invenio_files_rest.Errors.{type_error, not_implemented}
use invenio_files_rest.Schema.{Bucket, FileSizeLimit}
use invenio_files_rest.Session.{Result, ok, err, and_then}

-- What a limit is compared with. A limit is not negative.
pub data Comparand : Type 0 where
  int : ℤ → Comparand
  file_size_limit : FileSizeLimit → Comparand
  other : Comparand

-- A comparison of `self.limit`, which fails where that is `None`.
abbrev compare_limit : (ℕ → ℕ → Bool) → Option ℕ → Option ℕ → Result Bool
compare_limit test (some a) (some b) = ok (test a b)
compare_limit test _ _ = err type_error

-- `FileSizeLimit.__lt__`
unfoldable pub less_than : FileSizeLimit → Comparand → Result Bool
less_than self (int (pos n)) = compare_limit ltb self.limit (some n)
less_than self (int (negsuc n)) = compare_limit (λ a b. false) self.limit (some n)
less_than self (file_size_limit l) = compare_limit ltb self.limit l.limit
less_than self other = err not_implemented

-- `FileSizeLimit.__gt__`
unfoldable pub greater_than : FileSizeLimit → Comparand → Result Bool
greater_than self (int (pos n)) = compare_limit (λ a b. ltb b a) self.limit (some n)
greater_than self (int (negsuc n)) = compare_limit (λ a b. true) self.limit (some n)
greater_than self (file_size_limit l) = compare_limit (λ a b. ltb b a) self.limit l.limit
greater_than self other = err not_implemented

-- `Bucket.quota_left`: a quota of 0 counts as no quota.
unfoldable pub quota_left : Bucket → Option ℕ
quota_left b = elim b.quota_size [
  | none ↦ none
  | some q ↦ if q == 0 then none else some (pos_part (pos q -ℤ b.size))
]

unfoldable pub file_size_limiters : Bucket → List FileSizeLimit
unfolding quota_left
file_size_limiters b =
    record { limit = quota_left b; reason = "Bucket quota exceeded." }
    ∷ record { limit = b.max_file_size; reason = "Maximum file size exceeded." }
    ∷ []

-- Python's `min`, from the first item on: an item replaces the best so far if it is less.
minimum : FileSizeLimit → List FileSizeLimit → Result FileSizeLimit
minimum best [] = ok best
minimum best (l ∷ ls) =
    let rest = λ (smaller : Bool). minimum (if smaller then l else best) ls in
    and_then (less_than l (file_size_limit best)) rest

abbrev min_or_none : List FileSizeLimit → Result (Option FileSizeLimit)
min_or_none [] = ok none
min_or_none (l ∷ ls) = and_then (minimum l ls) (λ m. ok (some m))

-- `Bucket.size_limit`, over what the configured factory of limiters returns.
unfoldable pub size_limit : List FileSizeLimit → Result (Option FileSizeLimit)
unfolding minimum
size_limit limiters = min_or_none (select (λ l. is_some l.limit) limiters)
