-- ===== src/ObjectVersion/Changing.antt =====
-- The operations of `ObjectVersion` on versions that exist.
use invenio_files_rest.Prelude.{
  ℕ, String, Bool, false, Option, none, some, List, [], ◌∷◌, ◌++◌, ◌&&◌, ◌==◌, str_eq, option_eq,
  not, if◌then◌else◌, is_some,
}
use invenio_files_rest.Prelude.Tables.{update, delete as delete_rows}
use invenio_files_rest.Errors.{invalid_operation, attribute_error, assertion_error}
use invenio_files_rest.Schema.{ObjectVersion, FileInstance}
use invenio_files_rest.Session.{
  ⊤, Action, pure, or_raise, ◌>>=◌, ◌>>◌, raise_if, modify_objects, modify_object_tags,
  begin_nested, if_some, uuid4,
}
use invenio_files_rest.FileInstance as Files
use invenio_files_rest.Bucket
use invenio_files_rest.Bucket.{BucketArg, instance_of, by_id}
use invenio_files_rest.Tags.OfVersion
use invenio_files_rest.ObjectVersion.Reading.{row, deleted, of_key, get, get_by_bucket, get_tags}
use invenio_files_rest.ObjectVersion.Creating.{create}

-- `key or self.key`
abbrev pub key_or : Option String → String → String
key_or none own = own
key_or (some k) own = if str_eq k "" then own else k

abbrev bucket_or : Option BucketArg → ℕ → BucketArg
bucket_or none own = instance_of own
bucket_or (some arg) own = arg

-- `ObjectVersion.copy`: `as_bucket` is applied before `create` applies it to its result.
unfoldable pub copy : ℕ → Option BucketArg → Option String → Action ℕ
unfolding Bucket.as_bucket get_tags
copy v bucket key = do
  o ← row v
  raise_if (deleted o) (invalid_operation "Cannot copy a delete marker.")
  found ← Bucket.as_bucket (bucket_or bucket o.bucket_id)
  b ← or_raise found attribute_error
  new ← create (instance_of b) (key_or key o.key) o.file_id none none
  tags ← get_tags v
  OfVersion.copy_all new tags
  pure new

-- `ObjectVersion.restore`
unfoldable pub restore : ℕ → Action ℕ
restore v = do
  o ← row v
  raise_if o.is_head (invalid_operation "Cannot restore latest version.")
  copy v none none

-- The bucket shrinks by the size of the version's file, if it has one.
unfoldable pub release_size : ObjectVersion → Action ⊤
release_size o =
    if_some o.file_id (λ i. do f ← Files.row i; Bucket.shrink o.bucket_id f.size) (pure tt)

abbrev pub is_row_of : ObjectVersion → ObjectVersion → Bool
is_row_of o p = of_key o.bucket_id o.key p && p.version_id == o.version_id

-- `ObjectVersion.remove`; the tags of the row go with it (`ondelete="CASCADE"`).
unfoldable pub remove : ℕ → Action ⊤
unfolding Bucket.ensure_unlocked
remove v = do
  o ← row v
  Bucket.ensure_unlocked o.bucket_id
  begin_nested (do
    release_size o
    modify_objects (delete_rows (is_row_of o))
    modify_object_tags (delete_rows (λ t. t.version_id == v)))

unfoldable pub delete_found : ℕ → String → ObjectVersion → Action (Option ℕ)
unfolding release_size
delete_found b key o = do
  release_size o
  v ← create (instance_of b) key none none none
  pure (some v)

-- `ObjectVersion.delete`: a delete marker for the key, if it has a visible version.
unfoldable pub delete : BucketArg → String → Action (Option ℕ)
unfolding Bucket.as_bucket get delete_found
delete arg key = do
  found ← Bucket.as_bucket arg
  b ← or_raise found attribute_error
  obj ← get (by_id b) key none
  if_some obj (delete_found b key) (pure none)

abbrev same_checksum : FileInstance → FileInstance → Bool
same_checksum f g = elim f.checksum [
  | none ↦ not (is_some g.checksum)
  | some c ↦ elim g.checksum [ none ↦ false | some d ↦ str_eq c d ]
]

-- `ObjectVersion.relink_all`
unfoldable pub relink_all : ℕ → ℕ → Action ⊤
relink_all old new = do
  f ← Files.row old
  g ← Files.row new
  raise_if (not (same_checksum f g)) assertion_error
  begin_nested (
      modify_objects
        (update (λ o. option_eq o.file_id (some old)) (λ o. record o { file_id = some new })))

-- The rows that `copy_from` inserts, each with a new version identifier.
unfoldable pub copies : List ObjectVersion → ℕ → Action (List ObjectVersion)
copies [] target = pure []
copies (o ∷ os) target = uuid4 >>= λ v.
    copies os target >>= λ rest. pure (record o { bucket_id = target; version_id = v } ∷ rest)

-- `ObjectVersion.copy_from`: the visible heads of the source, inserted by value.
unfoldable pub copy_from : ℕ → ℕ → Action (List ObjectVersion)
unfolding get_by_bucket copies
copy_from source target = begin_nested (do
  os ← get_by_bucket (by_id source) false false
  new ← copies os target
  modify_objects (λ rows. new ++ rows)
  pure new)
