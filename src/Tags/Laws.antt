-- ===== src/Tags/Laws.antt =====
-- The tags of a bucket are a dictionary: what is read after a tag is written or deleted.
use invenio_files_rest.Prelude.{
  ℕ, String, ◌≡◌, refl, ◌≤◌, true, false, Option, none, some, List, [], ◌∷◌, ◌&&◌, ◌==◌, str_eq,
  arith, ==→eq, eq_iff, if◌then◌else◌, inl, inr, Bool-cases,
}
use invenio_files_rest.Prelude.Tables.{
  select, count, update, select_cases, select-update_self, select-update_other, select-delete_other,
  select-delete_self,
}
use invenio_files_rest.Schema.{BucketTag}
use invenio_files_rest.Session.{Session, Result, ok, ◌>>=◌}
use invenio_files_rest.Bucket.{BucketArg, as_bucket_id}
use invenio_files_rest.Tags.OfBucket.{is_tag, get_value, get, create, create_or_update, delete}

-- What `get_value` returns.
abbrev pub value : BucketArg → String → Session → Result (Option String)
value arg key s = (get_value arg key s).0

-- The primary key: no bucket has a key twice.
abbrev pub HasUniqueTags : Session → Type 0
HasUniqueTags s = (b : ℕ) (key : String) → count (is_tag b key) s.bucket_tags ≤ 1

abbrev with_tags : Session → List BucketTag → Session
with_tags s ts = record s { db = record s.db { bucket_tags = ts } }

abbrev new_tag : BucketArg → String → String → BucketTag
new_tag arg key v = record { bucket_id = as_bucket_id arg; key = key; value = v }

abbrev set_value : String → BucketTag → BucketTag
set_value v t = record t { value = v }

created_tag :
    (arg : BucketArg) (key v : String) (s : Session)
    → select (is_tag (as_bucket_id arg) key) s.bucket_tags ≡ []
    → create_or_update arg key v s ≡ (ok tt, with_tags s (new_tag arg key v ∷ s.bucket_tags))
unfolding create_or_update get create ◌>>=◌
created_tag arg key v s h = ground arith

updated_tag :
    (arg : BucketArg) (key v : String) (s : Session) (t : BucketTag)
    → select (is_tag (as_bucket_id arg) key) s.bucket_tags ≡ t ∷ []
    → create_or_update arg key v s
      ≡ (ok tt, with_tags s (update (is_tag (as_bucket_id arg) key) (set_value v) s.bucket_tags))
unfolding create_or_update get ◌>>=◌
updated_tag arg key v s t h = ground arith

-- The tags of other keys and buckets.
other_tag :
    (b : ℕ) (key : String) (c : ℕ) (k : String) (t : BucketTag)
    → (b == c && str_eq key k) ≡ false
    → is_tag b key t ≡ true
    → is_tag c k t ≡ false
other_tag b key c k t other h = ground (arith, ==→eq t.bucket_id b, eq_iff t.key key)

same_tag :
    (b : ℕ) (key : String) (c : ℕ) (k : String)
    → (b == c && str_eq key k) ≡ true
    → (b ≡ c) × (key ≡ k)
same_tag b key c k h = (ground (arith, ==→eq b c), ground (arith, eq_iff key k))

-- Where no bucket has a key twice, BucketTag.get_value after create_or_update returns the new
-- value for the bucket and key that were written, and for every other bucket or key what it
-- returned before.
pub get_value-create_or_update :
    (arg : BucketArg) (key v : String) (s : Session)
    → HasUniqueTags s
    → (other : BucketArg) (k : String)
    → value other k (create_or_update arg key v s).1 ≡ (
        if as_bucket_id arg == as_bucket_id other && str_eq key k
        then ok (some v)
        else value other k s)
unfolding get_value get ◌>>=◌
get_value-create_or_update arg key v s unique other k =
    let b = as_bucket_id arg in
    let c = as_bucket_id other in
    elim (select_cases (is_tag b key) s.bucket_tags (unique b key)) [
      | inl missing ↦
          rw (created_tag arg key v s missing) (elim (Bool-cases (b == c && str_eq key k)) [
            | inl same ↦ ground (arith, missing, same_tag b key c k same)
            | inr differ ↦ ground (arith, differ)
          ])
      | inr (t, found) ↦
          rw (updated_tag arg key v s t found) (elim (Bool-cases (b == c && str_eq key k)) [
            | inl same ↦ ground (
              arith,
              same_tag b key c k same,
              select-update_self (is_tag b key) (set_value v) s.bucket_tags t (λ y. refl) found,
            )
            | inr differ ↦ ground (
              arith,
              differ,
              select-update_other (is_tag b key) (is_tag c k) (set_value v) s.bucket_tags
                  (λ x h. (other_tag b key c k x differ h, other_tag b key c k x differ h)),
            )
          ])
    ]

-- BucketTag.get_value after delete returns nothing for the bucket and key that were deleted, and
-- for every other bucket or key what it returned before.
pub get_value-delete :
    (arg : BucketArg) (key : String) (s : Session) (other : BucketArg) (k : String)
    → value other k (delete arg key s).1 ≡ (
        if as_bucket_id arg == as_bucket_id other && str_eq key k then ok none else value other k s)
unfolding get_value get delete ◌>>=◌
get_value-delete arg key s other k =
    let b = as_bucket_id arg in
    let c = as_bucket_id other in
    elim (Bool-cases (b == c && str_eq key k)) [
      | inl same ↦
          ground (arith, same_tag b key c k same, select-delete_self (is_tag b key) s.bucket_tags)
      | inr differ ↦ ground (
        arith,
        differ,
        select-delete_other (is_tag b key) (is_tag c k) s.bucket_tags
            (λ x h. other_tag b key c k x differ h),
      )
    ]
