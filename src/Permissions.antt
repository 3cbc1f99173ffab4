-- ===== src/Permissions.antt =====
-- permissions.py: the need that an action on an object asks for. Whether the current user meets a
-- need is decided by Invenio-Access, which the REST views take as a parameter.
use invenio_files_rest.Prelude.{ℕ, String, Option, none, some}
use invenio_files_rest.Errors.{runtime_error}
use invenio_files_rest.Schema.{Bucket, ObjectVersion, MultipartObject}
use invenio_files_rest.Session.{Result, ok, err}

-- The names of actions, the keys of `_action2need_map`.
pub data Access : Type 0 where
  location_update : Access
  bucket_read : Access
  bucket_read_versions : Access
  bucket_update : Access
  bucket_listmultiparts : Access
  object_read : Access
  object_read_version : Access
  object_delete : Access
  object_delete_version : Access
  multipart_read : Access
  multipart_delete : Access

-- What an action is done to; `anything_else` is an object of no known class.
pub data Target : Type 0 where
  nothing : Target
  bucket : Bucket → Target
  object : ObjectVersion → Target
  multipart : MultipartObject → Target
  anything_else : Target

-- An action need with its argument: the identifier of a bucket, or none for all of them.
pub record Need : Type 0 where
  pub action : String
  pub argument : Option ℕ

-- `_action2need_map`
unfoldable pub need_class : Access → String
need_class location_update = "files-rest-location-update"
need_class bucket_read = "files-rest-bucket-read"
need_class bucket_read_versions = "files-rest-bucket-read-versions"
need_class bucket_update = "files-rest-bucket-update"
need_class bucket_listmultiparts = "files-rest-bucket-listmultiparts"
need_class object_read = "files-rest-object-read"
need_class object_read_version = "files-rest-object-read-version"
need_class object_delete = "files-rest-object-delete"
need_class object_delete_version = "files-rest-object-delete-version"
need_class multipart_read = "files-rest-multipart-read"
need_class multipart_delete = "files-rest-multipart-delete"

abbrev need : Access → Option ℕ → Result Need
need a i = ok (record { action = need_class a; argument = i })

-- `permission_factory`
unfoldable pub permission_factory : Target → Access → Result Need
unfolding need_class
permission_factory nothing a = need a none
permission_factory (bucket b) a = need a (some b.id)
permission_factory (object o) a = need a (some o.bucket_id)
permission_factory (multipart m) a = need a (some m.bucket_id)
permission_factory anything_else a = err (runtime_error "Unknown object")
