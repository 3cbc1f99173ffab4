-- ===== src/Multipart/Uploads.antt =====
-- The operations of `MultipartObject`.
use invenio_files_rest.Prelude.{
  ℕ, String, Bool, true, false, Option, none, some, List, ◌∷◌, ◌&&◌, ◌||◌, ◌==◌, str_eq, ltb, not,
}
use invenio_files_rest.Prelude.Int.{pos, ◌+ℤ◌, int_eq}
use invenio_files_rest.Prelude.Tables.{select, update, delete as delete_rows}
use invenio_files_rest.Errors.{
  bucket_locked, attribute_error, multipart_invalid_chunk_size, multipart_invalid_size,
  multipart_already_completed, multipart_not_completed, multipart_missing_parts, file_size_error,
}
use invenio_files_rest.Schema.{MultipartObject, FileSizeLimit}
use invenio_files_rest.Session.{
  ⊤, Action, pure, gets, lift, or_raise, if_some, ◌>>=◌, ◌>>◌, raise_if, modify_multiparts,
  modify_parts, begin_nested, uuid4, utcnow, one_or_none,
}
use invenio_files_rest.Limiters.{less_than, int}
use invenio_files_rest.Storage.{Backend}
use invenio_files_rest.FileInstance
use invenio_files_rest.Bucket
use invenio_files_rest.Bucket.{BucketArg, instance_of}
use invenio_files_rest.ObjectVersion.Creating as Versions
use invenio_files_rest.Multipart.Sizes.{last_part_number, is_valid_chunksize, is_valid_size}
use invenio_files_rest.Multipart.Parts.{has_id, row, part_of, part_count}

abbrev pub set_row : ℕ → (MultipartObject → MultipartObject) → Action ⊤
set_row u f = modify_multiparts (update (has_id u) f)

-- `if bucket_limit and size > bucket_limit`, which `FileSizeLimit.__lt__` answers.
abbrev pub check_limit : ℕ → FileSizeLimit → Action ⊤
check_limit size l = do
  exceeded ← lift (less_than l (int (pos size)))
  raise_if exceeded (file_size_error l.reason)

-- The savepoint of `create`: the file instance, the upload and the size of the bucket.
unfoldable pub add_new : ℕ → String → ℕ → ℕ → Action (ℕ × ℕ)
unfolding FileInstance.create Versions.validate_key
add_new b key size chunk_size = do
  i ← FileInstance.create
  FileInstance.set_row i (λ f. record f { size = size })
  u ← uuid4
  Versions.validate_key key
  now ← utcnow
  modify_multiparts (λ ms.
      record {
        upload_id = u;
        bucket_id = b;
        key = key;
        file_id = i;
        chunk_size = chunk_size;
        size = size;
        completed = false;
        created = now;
      }
      ∷ ms)
  Bucket.grow b size
  pure (u, i)

-- `MultipartObject.create`
unfoldable pub create : Backend → BucketArg → String → ℕ → ℕ → Action ℕ
unfolding Bucket.as_bucket Bucket.size_limit is_valid_chunksize is_valid_size less_than
    FileInstance.init_contents add_new
create backend arg key size chunk_size = do
  found ← Bucket.as_bucket arg
  b ← or_raise found attribute_error
  r ← Bucket.row b
  raise_if r.locked bucket_locked
  config ← gets (λ s. s.config)
  raise_if (not (is_valid_chunksize config chunk_size)) multipart_invalid_chunk_size
  raise_if (not (is_valid_size config size chunk_size)) multipart_invalid_size
  limit ← Bucket.size_limit b
  if_some limit (check_limit size) (pure tt)
  (u, i) ← begin_nested (add_new b key size chunk_size)
  FileInstance.init_contents backend i size
  pure u

-- `MultipartObject.complete`
unfoldable pub complete : ℕ → Action ⊤
unfolding last_part_number part_count
complete u = do
  mp ← row u
  raise_if mp.completed multipart_already_completed
  n ← part_count u
  last ← lift (last_part_number mp)
  raise_if (not (int_eq (pos n) (last +ℤ pos 1))) multipart_missing_parts
  begin_nested (do
    set_row u (λ m. record m { completed = true })
    FileInstance.set_row mp.file_id (λ f. record f { readable = true; writable = false }))

-- `MultipartObject.delete`
unfoldable pub delete : ℕ → Action ⊤
delete u = do
  mp ← row u
  Bucket.shrink mp.bucket_id mp.size
  modify_parts (delete_rows (part_of u))
  modify_multiparts (delete_rows (has_id u))

-- `MultipartObject.merge_parts`
unfoldable pub merge_parts : Backend → ℕ → Option ℕ → Action ℕ
unfolding FileInstance.update_checksum Versions.create delete
merge_parts backend u version_id = do
  mp ← row u
  raise_if (not mp.completed) multipart_not_completed
  FileInstance.update_checksum backend mp.file_id
  begin_nested (do
    v ← Versions.create (instance_of mp.bucket_id) mp.key (some mp.file_id) none version_id
    delete u
    pure v)

abbrev wanted : ℕ → String → ℕ → Bool → MultipartObject → Bool
wanted b key u with_completed m =
    m.upload_id == u && m.bucket_id == b && str_eq m.key key && (with_completed || not m.completed)

-- `MultipartObject.get`
unfoldable pub get : BucketArg → String → ℕ → Bool → Action (Option MultipartObject)
unfolding Bucket.as_bucket_id
get arg key u with_completed = do
  one_or_none
      (← gets (λ s. select (wanted (Bucket.as_bucket_id arg) key u with_completed) s.multiparts))

abbrev in_bucket : Option BucketArg → MultipartObject → Bool
in_bucket none m = true
in_bucket (some arg) m = m.bucket_id == Bucket.as_bucket_id arg

-- `MultipartObject.query_expired`
unfoldable pub query_expired : ℕ → Option BucketArg → Action (List MultipartObject)
unfolding Bucket.as_bucket_id
query_expired dt bucket =
    gets (λ s. select (λ m. ltb m.created dt && m.completed && in_bucket bucket m) s.multiparts)

-- `MultipartObject.query_by_bucket`
unfoldable pub query_by_bucket : BucketArg → Action (List MultipartObject)
unfolding Bucket.as_bucket_id
query_by_bucket arg = gets (λ s. select (λ m. m.bucket_id == Bucket.as_bucket_id arg) s.multiparts)
