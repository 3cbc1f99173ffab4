-- ===== src/ObjectVersion/Quota.antt =====
-- The quotas of buckets: which are kept, and how much may be added to a bucket.
pub mod Marking
pub mod Outcomes
pub mod Saving
use mathlib.Core.Path.{subst}
use native.Mathlib.Nat.{le_trans}
use invenio_files_rest.Prelude.{
  ℕ, Bool, false, Option, none, some, List, [], ◌∷◌, ◌≡◌, refl, sym, ap, ◌∙◌, ◌≤◌, ◌==◌, arith,
  Bool-cases, inl, inr, if◌then◌else◌,
}
use invenio_files_rest.Prelude.Int.{ℤ, pos, negsuc, ltb_ℤ, ◌+ℤ◌, ◌-ℤ◌, pos_part}
use invenio_files_rest.Prelude.Tables.{
  select, select_cases, count, update, count-update_same, count_pos, update-select_nil,
}
use invenio_files_rest.Schema.{Db, Bucket as BucketRow, FileSizeLimit}
use invenio_files_rest.Session.{Session, Action, Result, ok, ◌>>=◌}
use invenio_files_rest.Session.Reads.{Reads, reads_rules}
use invenio_files_rest.Limiters
use invenio_files_rest.Limiters.{quota_left, file_size_limiters}
use invenio_files_rest.Limiters.Bounds.{IsAtMost, size_limit_least}
use invenio_files_rest.Bucket

-- The bucket has a quota, and is larger than that. A quota of 0 is none.
abbrev pub over_quota : BucketRow → Bool
over_quota r = elim r.quota_size [
  | none ↦ false
  | some q ↦ if q == 0 then false else ltb_ℤ (pos q) r.size
]

abbrev pub grown : ℕ → BucketRow → BucketRow
grown m r = record r { size = r.size +ℤ pos m }

-- What the quota leaves can be added.
below-grown :
    (q m : ℕ) (z : ℤ)
    → ltb_ℤ (pos q) z ≡ false
    → m ≤ pos_part (pos q -ℤ z)
    → ltb_ℤ (pos q) (z +ℤ pos m) ≡ false
unfolding ◌+ℤ◌ ◌-ℤ◌
below-grown q m (pos n) h fits = ground arith
below-grown q m (negsuc n) h fits = ground arith

pub grown-over_quota :
    (quota : Option ℕ) (r : BucketRow) (m : ℕ)
    → r.quota_size ≡ quota
    → over_quota r ≡ false
    → IsAtMost m (quota_left r)
    → over_quota (grown m r) ≡ false
unfolding quota_left
grown-over_quota none r m e h fits = rw e refl
grown-over_quota (some q) r m e h fits = elim (Bool-cases (q == 0)) [
  | inl zero ↦ ground (arith, e)
  | inr more ↦
      let left : quota_left r ≡ some (pos_part (pos q -ℤ r.size)) = ground (arith, e, more) in
      let under : ltb_ℤ (pos q) r.size ≡ false = ground (arith, e, more, h) in
      let next : ltb_ℤ (pos q) (r.size +ℤ pos m) ≡ false =
        below-grown q m r.size under (subst (IsAtMost m) left fits) in
      ground (arith, e, more, next)
]

-- What a file that is saved under the limit may hold.
abbrev pub IsAllowed : ℕ → Option FileSizeLimit → Type 0
IsAllowed m none = Unit
IsAllowed m (some l) = IsAtMost m l.limit

-- No bucket is larger than its quota, and no two have the same identifier.
pub record IsWithinQuota (d : Db) : Type 0 where
  pub ids : (i : ℕ) → count (Bucket.has_id i) d.buckets ≤ 1
  pub within : count over_quota d.buckets ≡ 0

-- One row of a table changes.
count-update_one :
    (p q : BucketRow → Bool) (f : BucketRow → BucketRow) (xs : List BucketRow) (x : BucketRow)
    → select p xs ≡ x ∷ []
    → count q xs ≡ 0
    → q (f x) ≡ false
    → count q (update p f xs) ≡ 0
count-update_one p q f [] x e n h = cc
count-update_one p q f (y ∷ xs) x e n h = elim (Bool-cases (p y)) [
  | inl here ↦
      let left : select p xs ≡ [] = ground arith in
      let same : y ≡ x = ground arith in ground (arith, update-select_nil p f xs left, same)
  | inr there ↦ ground (arith, count-update_one p q f xs x)
]

pub row-within :
    (r : BucketRow) (d : Db) (b : ℕ)
    → IsWithinQuota d
    → select (Bucket.has_id b) d.buckets ≡ r ∷ []
    → over_quota r ≡ false
row-within r d b w here = elim (Bool-cases (over_quota r)) [
  | inl over ↦
      ground (arith, count_pos (Bucket.has_id b) over_quota d.buckets r here over, w.within)
  | inr under ↦ under
]

pub grown-IsWithinQuota :
    (b m : ℕ) (r : BucketRow) (d : Db) (bs : List BucketRow)
    → IsWithinQuota d
    → select (Bucket.has_id b) d.buckets ≡ r ∷ []
    → over_quota (grown m r) ≡ false
    → bs ≡ update (Bucket.has_id b) (grown m) d.buckets
    → IsWithinQuota (record d { buckets = bs })
grown-IsWithinQuota b m r d bs w here fits e = record {
  ids = λ i. rw e (
      rw (count-update_same (Bucket.has_id b) (Bucket.has_id i) (grown m) d.buckets (λ x. refl))
        (w.ids i));
  within =
      rw e (count-update_one (Bucket.has_id b) over_quota (grown m) d.buckets r here w.within fits);
}

pub IsWithinQuota-same : (d e : Db) → e.buckets ≡ d.buckets → IsWithinQuota d → IsWithinQuota e
IsWithinQuota-same d e same w = record { ids = λ i. rw same (w.ids i); within = rw same w.within }

IsAtMost-mono : (m n : ℕ) (q : Option ℕ) → m ≤ n → IsAtMost n q → IsAtMost m q
IsAtMost-mono m n none h k = tt
IsAtMost-mono m n (some q) h k = le_trans h k

-- The limit of a bucket allows what its quota leaves.
pub limit-IsAtMost :
    (r : BucketRow) (limit : Option FileSizeLimit)
    → Limiters.size_limit (file_size_limiters r) ≡ ok limit
    → (m : ℕ) → IsAllowed m limit
    → IsAtMost m (quota_left r)
unfolding file_size_limiters
limit-IsAtMost r none e m h = elim (size_limit_least (file_size_limiters r)) [
  | inl (_, unset) ↦ subst (IsAtMost m) (sym unset.0) tt
  | inr (l, n, f, k, below, src) ↦ cc
]
limit-IsAtMost r (some l) e m h = elim (size_limit_least (file_size_limiters r)) [
  | inl (f, unset) ↦ cc
  | inr (k, n, f, same, below, src) ↦
      let limit : l.limit ≡ some n = cc in
      IsAtMost-mono m n (quota_left r) (subst (IsAtMost m) limit h) below.0
]

pub size_limit-Reads : (b : ℕ) → Reads (Bucket.size_limit b)
unfolding Bucket.size_limit
size_limit-Reads b = search reads_rules depth 9

-- A limit that is read of a bucket is that of its row.
pub size_limit_row :
    (b : ℕ) (limit : Option FileSizeLimit) (s : Session)
    → s.config.size_limiters ≡ file_size_limiters
    → IsWithinQuota s.db
    → Bucket.size_limit b s ≡ (ok limit, s)
    → (r : BucketRow) × (select (Bucket.has_id b) s.buckets ≡ r ∷ [])
      × (Limiters.size_limit (file_size_limiters r) ≡ ok limit)
unfolding Bucket.size_limit ◌>>=◌
size_limit_row b limit s standard w found =
    elim (select_cases (Bucket.has_id b) s.buckets (w.ids b)) [
      | inl gone ↦ ground (arith, gone, found)
      | inr (r, bucket) ↦ (r, bucket, ground (arith, bucket, standard, found))
    ]

-- What was read of a session that reading leaves as it is.
pub read_here :
    {A : Type 0} (m : Action A) {a : A} {s t : Session}
    → Reads m
    → m s ≡ (ok a, t)
    → m s ≡ (ok a, s)
read_here {A = A} m {a = a} {s = s} h e =
    e ∙ ap (λ (u : Session). (ok a, u)) (ap (λ (p : Result A × Session). p.1) (sym e) ∙ h.at s)
