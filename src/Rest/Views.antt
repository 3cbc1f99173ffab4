-- ===== src/Rest/Views.antt =====
-- The methods of `LocationResource`, `BucketResource` and `ObjectResource`, with their decorators.
use invenio_files_rest.Prelude.{ℕ, String, Bool, true, false, Option, none, if◌then◌else◌}
use invenio_files_rest.Errors.{aborted}
use invenio_files_rest.Session.{
  ⊤, Action, pure, raise, if_some, ◌>>=◌, ◌>>◌, raise_if, begin_nested,
}
use invenio_files_rest.Bucket
use invenio_files_rest.Bucket.{instance_of, by_id}
use invenio_files_rest.Multipart.Uploads as Multiparts
use invenio_files_rest.ObjectVersion.Reading as Versions
use invenio_files_rest.Permissions.{
  bucket, nothing, location_update, bucket_read, bucket_read_versions, bucket_update,
  bucket_listmultiparts,
}
use invenio_files_rest.Tasks.{take}
use invenio_files_rest.Rest.Request.{
  App, Request, Response, bucket_data, objects_data, uploads_data, empty,
}
use invenio_files_rest.Rest.Access.{need_permission, pass_bucket, ensure_input_stream, get_object}
use invenio_files_rest.Rest.Objects.{create_object, delete_object, download}
use invenio_files_rest.Rest.Uploads.{
  list_parts, initiate, upload_part, complete_upload, abort_upload,
}

-- A request to one of the three views. A flag says whether a query parameter is there.
pub data Call : Type 0 where
  post_location : Call
  -- versions, uploads
  get_bucket : String → Bool → Bool → Call
  head_bucket : String → Call
  -- versionId, uploadId, uploads, download
  get_object_or_parts : String → String → Option ℕ → Option ℕ → Bool → Bool → Call
  -- uploads, uploadId, size, partSize
  post_object : String → String → Bool → Option ℕ → Option ℕ → Option ℕ → Call
  -- uploadId
  put_object : String → String → Option ℕ → Call
  -- versionId, uploadId, uploads
  delete_object_or_upload : String → String → Option ℕ → Option ℕ → Bool → Call

-- `LocationResource.post`: `Bucket.create` with no arguments.
unfoldable pub location_post : Request → Action Response
unfolding need_permission Bucket.create
location_post rq = do
  need_permission rq nothing location_update false
  b ← begin_nested (Bucket.create Bucket.LocationArg.default none none none)
  pure (bucket_data b)

-- `BucketResource.multipart_listuploads`
unfoldable pub list_uploads : Request → ℕ → Action Response
unfolding need_permission Multiparts.query_by_bucket
list_uploads rq b = do
  r ← Bucket.row b
  need_permission rq (bucket r) bucket_listmultiparts true
  us ← Multiparts.query_by_bucket (instance_of b)
  pure (uploads_data (take 1000 us))

-- `BucketResource.listobjects`
unfoldable pub list_objects : Request → ℕ → Bool → Action Response
unfolding need_permission Versions.get_by_bucket
list_objects rq b versions = do
  r ← Bucket.row b
  need_permission rq (bucket r) bucket_read true
  if versions then need_permission rq (bucket r) bucket_read_versions false else pure tt
  os ← Versions.get_by_bucket (by_id b) versions false
  pure (objects_data (take 1000 os))

-- `BucketResource.get` and `head`
unfoldable pub bucket_get : Request → String → Bool → Bool → Action Response
unfolding pass_bucket list_uploads list_objects
bucket_get rq id versions uploads = do
  b ← pass_bucket rq id
  if uploads then list_uploads rq b else list_objects rq b versions

unfoldable pub bucket_head : Request → String → Action Response
unfolding pass_bucket need_permission
bucket_head rq id = do
  b ← pass_bucket rq id
  r ← Bucket.row b
  need_permission rq (bucket r) bucket_read true
  pure empty

-- `invalid_subresource_validator`
abbrev no_subresource : Bool → Action ⊤
no_subresource present = raise_if present (aborted 405)

-- `ObjectResource.get`
unfoldable pub object_get :
    App → Request → String → String → Option ℕ → Option ℕ → Bool → Bool → Action Response
unfolding pass_bucket list_parts download
object_get app rq id key version_id upload_id uploads as_attachment = do
  no_subresource uploads
  b ← pass_bucket rq id
  if_some upload_id (list_parts rq b key) (download app rq b key version_id as_attachment)

-- The decorators of `post` and `put`.
unfoldable pub writable_bucket : Request → String → Action ℕ
unfolding pass_bucket need_permission ensure_input_stream
writable_bucket rq id = do
  b ← pass_bucket rq id
  r ← Bucket.row b
  need_permission rq (bucket r) bucket_update true
  ensure_input_stream rq
  pure b

-- `ObjectResource.post`
unfoldable pub object_post :
    App → Request → String → String → Bool → Option ℕ → Option ℕ → Option ℕ → Action Response
unfolding writable_bucket initiate complete_upload
object_post app rq id key uploads upload_id size part_size = do
  b ← writable_bucket rq id
  if uploads
      then initiate app b key size part_size
      else if_some upload_id (complete_upload b key) (raise (aborted 403))

-- `ObjectResource.put`
unfoldable pub object_put : App → Request → String → String → Option ℕ → Action Response
unfolding writable_bucket upload_part create_object
object_put app rq id key upload_id = do
  b ← writable_bucket rq id
  if_some upload_id (upload_part app rq b key) (create_object app rq b key)

-- `ObjectResource.delete`
unfoldable pub object_delete :
    Request → String → String → Option ℕ → Option ℕ → Bool → Action Response
unfolding pass_bucket abort_upload get_object delete_object
object_delete rq id key version_id upload_id uploads = do
  no_subresource uploads
  b ← pass_bucket rq id
  if_some upload_id (abort_upload rq b key)
      (get_object rq b key version_id >>= λ o. delete_object rq b o version_id)

-- The view that answers a request.
unfoldable pub handle : App → Request → Call → Action Response
unfolding location_post bucket_get bucket_head object_get object_post object_put object_delete
handle app rq post_location = location_post rq
handle app rq (get_bucket id versions uploads) = bucket_get rq id versions uploads
handle app rq (head_bucket id) = bucket_head rq id
handle app rq (get_object_or_parts id key v u uploads as_attachment) =
    object_get app rq id key v u uploads as_attachment
handle app rq (post_object id key uploads u size part_size) =
    object_post app rq id key uploads u size part_size
handle app rq (put_object id key u) = object_put app rq id key u
handle app rq (delete_object_or_upload id key v u uploads) = object_delete rq id key v u uploads
