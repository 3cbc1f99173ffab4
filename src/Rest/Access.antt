-- ===== src/Rest/Access.antt =====
-- The permission checks of views.py and the decorators that look up a bucket or an upload.
use invenio_files_rest.Prelude.{
  ℕ, String, Bool, true, false, Option, none, some, not, ◌&&◌, if◌then◌else◌,
}
use invenio_files_rest.Prelude.Int.{ℤ, pos, int_eq}
use invenio_files_rest.Errors.{aborted, exhausted_stream}
use invenio_files_rest.Schema.{ObjectVersion, MultipartObject}
use invenio_files_rest.Session.{
  ⊤, Action, Result, ok, and_then, pure, raise, lift, or_raise, ◌>>=◌, ◌>>◌, raise_if,
}
use invenio_files_rest.Bucket
use invenio_files_rest.Bucket.{instance_of}
use invenio_files_rest.Multipart.Uploads
use invenio_files_rest.ObjectVersion.Reading as Versions
use invenio_files_rest.Permissions.{
  Access, Target, Need, permission_factory, object, object_read, object_read_version,
}
use invenio_files_rest.Rest.Request.{Request}

-- The default factory, for a user who meets the needs that `meets` says.
unfoldable pub default_permission : (Need → Bool) → Target → Access → Result (Option Bool)
unfolding permission_factory
default_permission meets t a = and_then (permission_factory t a) λ n. ok (some (meets n))

-- `check_permission`
unfoldable pub check_permission : Request → Option Bool → Bool → Action ⊤
check_permission rq none hidden = pure tt
check_permission rq (some true) hidden = pure tt
check_permission rq (some false) hidden =
    if hidden
    then raise (aborted 404)
    else if rq.is_authenticated
    then raise (aborted 403)
    else raise (aborted 401)

-- `check_permission(current_permission_factory(target, access), hidden=hidden)`, which is also what
-- `need_permissions` does before it calls the function.
unfoldable pub need_permission : Request → Target → Access → Bool → Action ⊤
unfolding check_permission
need_permission rq target access hidden = do
  p ← lift (rq.permission target access)
  check_permission rq p hidden

-- `pass_bucket`, with `as_uuid`
unfoldable pub pass_bucket : Request → String → Action ℕ
unfolding Bucket.get
pass_bucket rq id = do
  i ← or_raise (rq.uuid id) (aborted 404)
  found ← Bucket.get i
  or_raise found (aborted 404)

-- `pass_multipart`
unfoldable pub pass_multipart : ℕ → String → ℕ → Bool → Action MultipartObject
unfolding Uploads.get
pass_multipart b key u with_completed = do
  found ← Uploads.get (instance_of b) key u with_completed
  or_raise found (aborted 404)

-- `ensure_input_stream_is_not_exhausted`; a content length of 0 counts as none.
abbrev has_length : Option ℤ → Bool
has_length none = false
has_length (some n) = not (int_eq n (pos 0))

unfoldable pub ensure_input_stream : Request → Action ⊤
ensure_input_stream rq = raise_if (has_length rq.content_length && rq.is_exhausted) exhausted_stream

-- `ObjectResource.check_object_permission`
unfoldable pub check_object_permission : Request → ObjectVersion → Action ⊤
unfolding need_permission
check_object_permission rq o = do
  need_permission rq (object o) object_read true
  if o.is_head then pure tt else need_permission rq (object o) object_read_version false

-- `ObjectResource.get_object`
unfoldable pub get_object : Request → ℕ → String → Option ℕ → Action ObjectVersion
unfolding Versions.get check_object_permission
get_object rq b key version_id = do
  found ← Versions.get (instance_of b) key version_id
  o ← or_raise found (aborted 404)
  check_object_permission rq o
  pure o
