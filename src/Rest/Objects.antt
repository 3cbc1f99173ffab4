-- ===== src/Rest/Objects.antt =====
-- The objects of `ObjectResource`: created, deleted and sent.
use invenio_files_rest.Prelude.{
  ℕ, String, Bool, true, false, Option, none, some, List, [], ◌∷◌, if◌then◌else◌,
}
use invenio_files_rest.Prelude.Int.{ℤ, pos, int_eq}
use invenio_files_rest.Errors.{attribute_error, file_size_error}
use invenio_files_rest.Schema.{ObjectVersion, FileSizeLimit, remove_file_data as remove_data}
use invenio_files_rest.Session.{
  ⊤, Action, pure, gets, lift, or_raise, if_some, ◌>>=◌, ◌>>◌, raise_if, begin_nested, delay,
  for_each,
}
use invenio_files_rest.Limiters.{less_than, int}
use invenio_files_rest.FileInstance as Files
use invenio_files_rest.Bucket
use invenio_files_rest.Bucket.{instance_of}
use invenio_files_rest.Tags.OfVersion
use invenio_files_rest.ObjectVersion.Reading as Versions
use invenio_files_rest.ObjectVersion.Creating
use invenio_files_rest.ObjectVersion.Changing
use invenio_files_rest.Permissions.{
  bucket, object, object_delete, object_delete_version, object_read_version,
}
use invenio_files_rest.Rest.Request.{
  App, Request, Upload, Response, object_data, file_contents, redirection, no_content,
}
use invenio_files_rest.Rest.Factories.{Tags, upload_factory}
use invenio_files_rest.Rest.Access.{need_permission, get_object}

-- `if content_length and size_limit and content_length > size_limit`
abbrev exceeds : ℤ → FileSizeLimit → Action ⊤
exceeds size l = do
  too_large ← lift (less_than l (int size))
  raise_if too_large (file_size_error l.reason)

unfoldable pub check_length : Option ℤ → Option FileSizeLimit → Action ⊤
unfolding less_than
check_length none limit = pure tt
check_length (some size) limit =
    if int_eq size (pos 0) then pure tt else if_some limit (exceeds size) (pure tt)

-- The loop over the tags of the request.
unfoldable pub add_tags : ℕ → Option Tags → Action ⊤
unfolding OfVersion.create for_each
add_tags v tags =
    if_some tags (λ ts. for_each ts (λ (key, value). OfVersion.create v key value)) (pure tt)

-- The savepoint of `create_object`.
unfoldable pub store_object : App → ℕ → String → Upload → Option FileSizeLimit → Action ℕ
unfolding Creating.create Creating.set_contents add_tags
store_object app b key upload limit = do
  v ← Creating.create (instance_of b) key none none none
  Creating.set_contents app.backend v upload.stream upload.content_length limit
  add_tags v upload.tags
  pure v

-- `ObjectResource.create_object`
unfoldable pub create_object : App → Request → ℕ → String → Action Response
unfolding upload_factory Bucket.size_limit check_length store_object
create_object app rq b key = do
  config ← gets (λ s. s.config)
  upload ← lift (upload_factory app rq config)
  limit ← Bucket.size_limit b
  check_length upload.content_length limit
  v ← begin_nested (store_object app b key upload limit)
  o ← Versions.row v
  i ← or_raise o.file_id attribute_error
  f ← Files.row i
  pure (object_data v f.checksum)

abbrev pub first : List ObjectVersion → Option ObjectVersion
first [] = none
first (o ∷ os) = some o

-- `if obj.is_head:` after a version was removed: the newest version that is left becomes the head.
unfoldable pub restore_head : ObjectVersion → Action ⊤
unfolding Versions.get_versions
restore_head o =
    if o.is_head
    then (Versions.get_versions (instance_of o.bucket_id) o.key true >>= λ os.
        if_some (first os) (λ l. Versions.set_row l.version_id (λ p. record p { is_head = true }))
          (pure tt))
    else pure tt

-- A version is removed, and the head of its object restored.
unfoldable pub remove_version : ObjectVersion → Action ⊤
unfolding Changing.remove restore_head
remove_version o = do Changing.remove o.version_id; restore_head o

-- What `delete_object` does for a version: the last statement sends off the removal of its file.
unfoldable pub delete_version : Request → ℕ → ObjectVersion → Action ⊤
unfolding need_permission remove_version
delete_version rq b o = do
  r ← Bucket.row b
  need_permission rq (bucket r) object_delete_version false
  remove_version o
  if_some o.file_id (λ i. delay (remove_data i false)) (pure tt)

-- `ObjectResource.delete_object`
unfoldable pub delete_object : Request → ℕ → ObjectVersion → Option ℕ → Action Response
unfolding need_permission delete_version Changing.delete
delete_object rq b o version_id = do
  need_permission rq (object o) object_delete false
  if_some version_id (λ v. delete_version rq b o)
      (begin_nested (Changing.delete (instance_of b) o.key) >> pure tt)
  pure no_content

-- `ObjectResource.send_object` and `ObjectVersion.send_file`, which wants a readable file.
unfoldable pub send_object : Request → ObjectVersion → Bool → Action Response
unfolding need_permission Files.ensure_readable
send_object rq o as_attachment = do
  if o.is_head then pure tt else need_permission rq (object o) object_read_version false
  i ← or_raise o.file_id attribute_error
  Files.ensure_readable i
  pure (file_contents i as_attachment)

-- `ObjectResource.get` for an object.
unfoldable pub download : App → Request → ℕ → String → Option ℕ → Bool → Action Response
unfolding get_object send_object
download app rq b key version_id as_attachment = do
  o ← get_object rq b key version_id
  if app.xsendfile_enabled then pure (redirection o) else send_object rq o as_attachment
