-- ===== src/ObjectVersion/Reading.antt =====
-- The queries of `ObjectVersion`.
use invenio_files_rest.Prelude.{
  ℕ, String, Bool, false, Option, none, some, List, ◌&&◌, ◌||◌, ◌==◌, str_eq, ltb, not,
  if◌then◌else◌, is_some, option_eq,
}
use invenio_files_rest.Prelude.Tables.{select, update}
use invenio_files_rest.Prelude.Sorting.{order_by}
use invenio_files_rest.Schema.{ObjectVersion, ObjectVersionTag}
use invenio_files_rest.Session.{⊤, Action, pure, gets, ◌>>=◌, modify_objects, one_or_none, row_of}
use invenio_files_rest.Bucket.{BucketArg, as_bucket_id}

abbrev pub has_version : ℕ → ObjectVersion → Bool
has_version v o = o.version_id == v

abbrev pub row : ℕ → Action ObjectVersion
row v = do row_of (← gets (λ s. select (has_version v) s.objects))

abbrev pub set_row : ℕ → (ObjectVersion → ObjectVersion) → Action ⊤
set_row v f = modify_objects (update (has_version v) f)

-- The versions of an object, and its head.
abbrev pub of_key : ℕ → String → ObjectVersion → Bool
of_key b key o = o.bucket_id == b && str_eq o.key key

abbrev pub head_of : ℕ → String → ObjectVersion → Bool
head_of b key o = of_key b key o && o.is_head

-- `ObjectVersion.deleted`
abbrev pub deleted : ObjectVersion → Bool
deleted o = not (is_some o.file_id)

-- The filters of `get`: the version, or the head if it is no delete marker.
abbrev pub wanted : ℕ → String → Option ℕ → ObjectVersion → Bool
wanted b key none o = head_of b key o && is_some o.file_id
wanted b key (some v) o = of_key b key o && o.version_id == v

-- `ObjectVersion.get`
unfoldable pub get : BucketArg → String → Option ℕ → Action (Option ObjectVersion)
unfolding as_bucket_id
get arg key version_id = do
  one_or_none (← gets (λ s. select (wanted (as_bucket_id arg) key version_id) s.objects))

-- `order_by(created.desc())` and `order_by(created.asc())`
abbrev pub newer : ObjectVersion → ObjectVersion → Bool
newer a b = ltb b.created a.created

abbrev pub older : ObjectVersion → ObjectVersion → Bool
older a b = ltb a.created b.created

-- `order_by(key, created.desc())`
abbrev pub by_key : (String → String → Bool) → ObjectVersion → ObjectVersion → Bool
by_key before a b = before a.key b.key || str_eq a.key b.key && newer a b

-- `ObjectVersion.get_versions`
unfoldable pub get_versions : BucketArg → String → Bool → Action (List ObjectVersion)
unfolding as_bucket_id
get_versions arg key desc = gets (λ s.
    order_by (if desc then newer else older) (select (of_key (as_bucket_id arg) key) s.objects))

abbrev pub listed : ℕ → Bool → Bool → ObjectVersion → Bool
listed b versions with_deleted o =
    o.bucket_id == b && (versions || o.is_head) && (with_deleted || is_some o.file_id)

-- `ObjectVersion.get_by_bucket`
unfoldable pub get_by_bucket : BucketArg → Bool → Bool → Action (List ObjectVersion)
unfolding as_bucket_id
get_by_bucket arg versions with_deleted = gets (λ s.
    order_by (by_key s.config.key_before)
      (select (listed (as_bucket_id arg) versions with_deleted) s.objects))

-- `ObjectVersion.get_tags`
unfoldable pub get_tags : ℕ → Action (List ObjectVersionTag)
get_tags v = gets (λ s. select (λ t. t.version_id == v) s.object_tags)

-- An argument that is a version or the identifier of one.
pub data VersionArg : Type 0 where
  version : ObjectVersion → VersionArg
  by_id : ℕ → VersionArg

-- `as_object_version`
unfoldable pub as_object_version : VersionArg → Action (Option ObjectVersion)
as_object_version (version o) = pure (some o)
as_object_version (by_id v) = do one_or_none (← gets (λ s. select (has_version v) s.objects))

-- `as_object_version_id`
unfoldable pub as_object_version_id : VersionArg → ℕ
as_object_version_id (version o) = o.version_id
as_object_version_id (by_id v) = v

-- What a version is compared with: a value that is false, a version, or something else.
pub data Comparand : Type 0 where
  nothing : Comparand
  other_version : ObjectVersion → Comparand
  something : Comparand

-- `__eq__` and `__ne__`: the buckets are not compared.
unfoldable pub equals : ObjectVersion → Comparand → Bool
equals o nothing = false
equals o (other_version p) = str_eq o.key p.key && option_eq o.file_id p.file_id
equals o something = false

unfoldable pub not_equals : ObjectVersion → Comparand → Bool
unfolding equals
not_equals o c = not (equals o c)
