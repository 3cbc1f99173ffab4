-- ===== src/ObjectVersion/Creating.antt =====
-- Creation of object versions, and how they are given their file.
use Prim.Native.String.{count as text_count}
use invenio_files_rest.Prelude.Int.{ℤ}
use invenio_files_rest.Prelude.{ℕ, String, true, false, Option, none, some, ◌∷◌, ltb, is_some}
use invenio_files_rest.Prelude.Tables.{some_row, select}
use invenio_files_rest.Errors.{
  invalid_key, file_instance_already_set, attribute_error, integrity_error, bucket_locked,
}
use invenio_files_rest.Schema.{FileSizeLimit}
use invenio_files_rest.Session.{
  ⊤, Action, pure, gets, or_raise, ◌>>=◌, ◌>>◌, raise_if, modify_objects, modify_files,
  begin_nested, if_some, uuid4, utcnow, one_or_none,
}
use invenio_files_rest.Storage.{Backend}
use invenio_files_rest.Storage.Writing.{Stream}
use invenio_files_rest.FileInstance
use invenio_files_rest.Bucket
use invenio_files_rest.Bucket.{BucketArg, instance_of}
use invenio_files_rest.ObjectVersion.Reading.{row, set_row, head_of, has_version}

-- `validate_key`
unfoldable pub validate_key : String → Action ⊤
validate_key key = do
  limit ← gets (λ s. s.config.object_key_max_len)
  raise_if (ltb limit (text_count key)) invalid_key

-- `ensure_no_file`
unfoldable pub ensure_no_file : ℕ → Action ⊤
ensure_no_file v = do o ← row v; raise_if (is_some o.file_id) file_instance_already_set

-- `update_bucket_size`: after the operation the bucket grows by the size of the file.
unfoldable pub update_bucket_size : ℕ → Action ⊤
update_bucket_size v = do
  o ← row v
  i ← or_raise o.file_id attribute_error
  f ← FileInstance.row i
  Bucket.grow o.bucket_id f.size

-- `ObjectVersion.set_file`; an argument that is `None` leaves no file whose size could be read.
unfoldable pub set_file : ℕ → Option ℕ → Action ⊤
unfolding ensure_no_file update_bucket_size
set_file v file = do
  ensure_no_file v
  set_row v (λ o. record o { file_id = file })
  update_bucket_size v

-- `ObjectVersion.set_location`
unfoldable pub set_location : ℕ → FileInstance.Location → Option String → Action ⊤
unfolding ensure_no_file update_bucket_size FileInstance.set_uri
set_location v location storage_class = do
  ensure_no_file v
  i ← uuid4
  modify_files (λ fs.
      record {
        id = i;
        uri = none;
        storage_class = none;
        size = 0;
        checksum = none;
        readable = true;
        writable = true;
        last_check_at = none;
        last_check = some true;
      }
      ∷ fs)
  set_row v (λ o. record o { file_id = some i })
  FileInstance.set_uri i location true false storage_class
  update_bucket_size v

abbrev pub limit_or : Option FileSizeLimit → ℕ → Action (Option FileSizeLimit)
limit_or l b = if_some l (λ k. pure (some k)) (Bucket.size_limit b)

-- `ObjectVersion.set_contents`
unfoldable pub set_contents : Backend → ℕ → Stream → Option ℤ → Option FileSizeLimit → Action ⊤
unfolding ensure_no_file update_bucket_size Bucket.size_limit FileInstance.create
    FileInstance.set_contents
set_contents backend v stream size size_limit = do
  ensure_no_file v
  o ← row v
  limit ← limit_or size_limit o.bucket_id
  i ← FileInstance.create
  set_row v (λ p. record p { file_id = some i })
  FileInstance.set_contents backend i stream size limit
  update_bucket_size v

-- The head of the object, if it has one, is the head no longer.
unfoldable pub demote_latest : ℕ → String → Action ⊤
demote_latest b key = do
  latest ← one_or_none (← gets (λ s. select (head_of b key) s.objects))
  if_some latest (λ o. set_row o.version_id (λ p. record p { is_head = false })) (pure tt)

-- `version_id or uuid.uuid4()`
abbrev identifier_or : Option ℕ → Action ℕ
identifier_or version_id = if_some version_id pure uuid4

-- The new row: a head, and a delete marker so far.
unfoldable pub add_new : ℕ → String → Option String → Option ℕ → Action ℕ
unfolding validate_key
add_new b key mimetype version_id = do
  v ← identifier_or version_id
  validate_key key
  present ← gets (λ s. some_row (select (has_version v) s.objects))
  raise_if present integrity_error
  now ← utcnow
  modify_objects (λ os.
      record {
        version_id = v;
        key = key;
        bucket_id = b;
        file_id = none;
        mimetype = mimetype;
        is_head = true;
        created = now;
      }
      ∷ os)
  pure v

-- `_file_id` of `create`: a file that is looked up, `none` for no argument.
unfoldable pub attach_file : ℕ → Option ℕ → Action ⊤
unfolding set_file FileInstance.get
attach_file v file = if_some file (λ i. do set_file v (← FileInstance.get i)) (pure tt)

-- The savepoint of `create`.
unfoldable pub create_row : ℕ → String → Option ℕ → Option String → Option ℕ → Action ℕ
create_row b key file mimetype version_id = do
  demote_latest b key
  v ← add_new b key mimetype version_id
  attach_file v file
  pure v

-- `ObjectVersion.create` with no stream.
unfoldable pub create : BucketArg → String → Option ℕ → Option String → Option ℕ → Action ℕ
unfolding Bucket.as_bucket create_row
create arg key file mimetype version_id = do
  found ← Bucket.as_bucket arg
  b ← or_raise found attribute_error
  r ← Bucket.row b
  raise_if r.locked bucket_locked
  begin_nested (create_row b key file mimetype version_id)

-- `ObjectVersion.create` with a stream, whose contents are saved after the version is created.
unfoldable pub create_from_stream :
    Backend
    → BucketArg
    → String
    → Option String
    → Stream
    → Option ℤ
    → Option FileSizeLimit
    → Action ℕ
create_from_stream backend arg key mimetype stream size size_limit = do
  v ← create arg key none mimetype none
  set_contents backend v stream size size_limit
  pure v
