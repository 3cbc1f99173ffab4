-- ===== src/Bucket.antt =====
-- `Bucket` of models.py: the container of objects, with its size, its quota and its lock.
pub mod Mirror
pub mod Invariant
pub mod Syncing
use invenio_files_rest.Prelude.{
  ℕ, String, Bool, true, false, Option, none, some, List, [], ◌∷◌, ◌&&◌, ◌==◌, str_eq, not,
  if◌then◌else◌,
}
use invenio_files_rest.Prelude.Int.{pos, ◌+ℤ◌, ◌-ℤ◌}
use invenio_files_rest.Prelude.Tables.{some_row, select, update, delete as delete_rows}
use invenio_files_rest.Errors.{value_error, bucket_locked, attribute_error, integrity_error}
use invenio_files_rest.Schema.{
  Bucket, BucketTag, FileSizeLimit, Location, ObjectVersion, ObjectVersionTag, MultipartObject,
}
use invenio_files_rest.Session.{
  ⊤, Action, pure, gets, lift, or_raise, ◌>>=◌, ◌>>◌, raise_if, modify_buckets, modify_objects,
  modify_object_tags, modify_bucket_tags, begin_nested, if_some, uuid4, one_or_none, row_of,
}
use invenio_files_rest.Limiters
use invenio_files_rest.Location as Locations

abbrev pub has_id : ℕ → Bucket → Bool
has_id i b = b.id == i

abbrev pub row : ℕ → Action Bucket
row i = do row_of (← gets (λ s. select (has_id i) s.buckets))

abbrev pub set_row : ℕ → (Bucket → Bucket) → Action ⊤
set_row i f = modify_buckets (update (has_id i) f)

-- `bucket.size += n`, `bucket.size -= n`
abbrev pub grow : ℕ → ℕ → Action ⊤
grow i n = set_row i (λ b. record b { size = b.size +ℤ pos n })

abbrev pub shrink : ℕ → ℕ → Action ⊤
shrink i n = set_row i (λ b. record b { size = b.size -ℤ pos n })

-- An argument that is a bucket or the identifier of one.
pub data BucketArg : Type 0 where
  instance_of : ℕ → BucketArg
  by_id : ℕ → BucketArg

abbrev not_deleted : ℕ → Bucket → Bool
not_deleted i b = b.id == i && not b.deleted

-- `Bucket.get`: none where the bucket is marked as deleted.
unfoldable pub get : ℕ → Action (Option ℕ)
get i = do
  found ← one_or_none (← gets (λ s. select (not_deleted i) s.buckets))
  pure (elim found [ none ↦ none | some b ↦ some b.id ])

-- `as_bucket`
unfoldable pub as_bucket : BucketArg → Action (Option ℕ)
unfolding get
as_bucket (instance_of i) = pure (some i)
as_bucket (by_id i) = get i

-- `as_bucket_id`
unfoldable pub as_bucket_id : BucketArg → ℕ
as_bucket_id (instance_of i) = i
as_bucket_id (by_id i) = i

-- `Bucket.all`
unfoldable pub all : Action (List Bucket)
all = gets (λ s. select (λ b. not b.deleted) s.buckets)

-- `Bucket.size_limit`, with the limiters that are configured.
unfoldable pub size_limit : ℕ → Action (Option FileSizeLimit)
unfolding Limiters.size_limit
size_limit i = do
  b ← row i
  limiters ← gets (λ s. s.config.size_limiters)
  lift (Limiters.size_limit (limiters b))

abbrev one_of : String → List String → Bool
one_of x [] = false
one_of x (y ∷ ys) = if str_eq x y then true else one_of x ys

-- `validate_storage_class`
unfoldable pub validate_storage_class : String → Action ⊤
validate_storage_class c = do
  classes ← gets (λ s. s.config.storage_class_list)
  raise_if (not (one_of c classes)) (value_error "Invalid storage class.")

-- A column that is `None` on insertion takes its default.
abbrev or_default : {A : Type 0} → Option A → Option A → Option A
or_default none d = d
or_default (some x) d = some x

-- The constructor, and `db.session.add`: the other columns take their defaults.
unfoldable pub add_new : ℕ → String → Option ℕ → Option ℕ → Action ℕ
unfolding validate_storage_class
add_new location storage_class quota_size max_file_size = do
  validate_storage_class storage_class
  config ← gets (λ s. s.config)
  i ← uuid4
  modify_buckets (λ bs.
      record {
        id = i;
        default_location = location;
        default_storage_class = storage_class;
        size = pos 0;
        quota_size = or_default quota_size config.default_quota_size;
        max_file_size = or_default max_file_size config.default_max_file_size;
        locked = false;
        deleted = false;
      }
      ∷ bs)
  pure i

-- `location` of `Bucket.create`: an instance, a name or nothing.
pub data LocationArg : Type 0 where
  default : LocationArg
  named : String → LocationArg
  location : Location → LocationArg

abbrev resolve : LocationArg → Action (Option Location)
resolve default = Locations.get_default
resolve (named name) = Locations.get_by_name name
resolve (location l) = pure (some l)

-- `storage_class or default`: the empty text is no storage class.
abbrev storage_class_or : Option String → String → String
storage_class_or none d = d
storage_class_or (some c) d = if str_eq c "" then d else c

-- `Bucket.create`, with the keyword arguments `quota_size` and `max_file_size`.
unfoldable pub create : LocationArg → Option String → Option ℕ → Option ℕ → Action ℕ
unfolding add_new Locations.get_default Locations.get_by_name
create arg storage_class quota_size max_file_size = begin_nested (do
  found ← resolve arg
  l ← or_raise found attribute_error
  standard ← gets (λ s. s.config.default_storage_class)
  add_new l.id (storage_class_or storage_class standard) quota_size max_file_size)

-- `Bucket.delete`: marks the bucket as deleted; false where there is none.
unfoldable pub delete : ℕ → Action Bool
unfolding get
delete i = do
  found ← get i
  if_some found (λ b. do set_row b (λ r. record r { deleted = true }); pure true) (pure false)

-- `ensure_unlocked`
unfoldable pub ensure_unlocked : ℕ → Action ⊤
ensure_unlocked i = do b ← row i; raise_if b.locked bucket_locked

abbrev pub in_bucket : ℕ → ObjectVersion → Bool
in_bucket i o = o.bucket_id == i

-- The tags of the versions of a bucket (`ondelete="CASCADE"`).
abbrev tags_version_in : ℕ → List ObjectVersion → ObjectVersionTag → Bool
tags_version_in i os t = some_row (select (λ o. in_bucket i o && o.version_id == t.version_id) os)

abbrev tags_bucket : ℕ → BucketTag → Bool
tags_bucket i t = t.bucket_id == i

abbrev uploads_to : ℕ → MultipartObject → Bool
uploads_to i m = m.bucket_id == i

-- `Bucket.remove`: the database refuses it while multipart uploads refer to the bucket.
unfoldable pub remove : ℕ → Action ⊤
unfolding ensure_unlocked
remove i = do
  ensure_unlocked i
  begin_nested (do
    os ← gets (λ s. s.objects)
    modify_object_tags (delete_rows (tags_version_in i os))
    modify_objects (delete_rows (in_bucket i))
    uploads ← gets (λ s. select (uploads_to i) s.multiparts)
    raise_if (some_row uploads) integrity_error
    modify_bucket_tags (delete_rows (tags_bucket i))
    modify_buckets (delete_rows (has_id i)))
