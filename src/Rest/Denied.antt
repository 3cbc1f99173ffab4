-- ===== src/Rest/Denied.antt =====
-- A user without permissions reads nothing and changes nothing.
use invenio_files_rest.Prelude.{ℕ, String, Bool, true, false, Option, none, some, ◌≡◌, sym}
use mathlib.Core.Path.{subst}
use invenio_files_rest.Errors.{Error}
use invenio_files_rest.Schema.{ObjectVersion}
use invenio_files_rest.Session.{Session, Result, ok, err, lift, ◌>>=◌}
use invenio_files_rest.Session.Reads.{Reads, Refuses, Refuses-first, reads_rules, refuses_rules}
use invenio_files_rest.Bucket
use invenio_files_rest.Multipart.Uploads as Multiparts
use invenio_files_rest.ObjectVersion.Reading as Versions
use invenio_files_rest.Permissions
use invenio_files_rest.Permissions.{
  Target, Access, location_update, bucket_read, bucket_listmultiparts, bucket_update, object_read,
  object_delete_version, multipart_read, multipart_delete,
}
use invenio_files_rest.Rest.Request.{App, Request}
use invenio_files_rest.Rest.Access.{
  check_permission, need_permission, pass_bucket, pass_multipart, check_object_permission,
  get_object,
}
use invenio_files_rest.Rest.Objects.{download, delete_object, delete_version}
use invenio_files_rest.Rest.Uploads.{list_parts, abort_upload}
use invenio_files_rest.Rest.Views.{
  Call, location_post, list_uploads, list_objects, bucket_get, bucket_head, object_get,
  writable_bucket, object_post, object_put, object_delete, handle, post_location, get_bucket,
  head_bucket, get_object_or_parts, post_object, put_object, delete_object_or_upload,
}

pub pass_bucket-Reads : (rq : Request) (id : String) → Reads (pass_bucket rq id)
unfolding pass_bucket Bucket.get
pass_bucket-Reads rq id = search reads_rules depth 12

pub pass_multipart-Reads :
    (b : ℕ) (key : String) (u : ℕ) (c : Bool) → Reads (pass_multipart b key u c)
unfolding pass_multipart Multiparts.get
pass_multipart-Reads b key u c = search reads_rules depth 12

pub get-Reads :
    (arg : Bucket.BucketArg) (key : String) (v : Option ℕ) → Reads (Versions.get arg key v)
unfolding Versions.get
get-Reads arg key v = search reads_rules depth 12

check-Reads : (rq : Request) (p : Option Bool) (h : Bool) → Reads (check_permission rq p h)
unfolding check_permission
check-Reads rq none h = search reads_rules
check-Reads rq (some true) h = search reads_rules
check-Reads rq (some false) h = search reads_rules

pub need-Reads :
    (rq : Request) (t : Target) (a : Access) (h : Bool) → Reads (need_permission rq t a h)
unfolding need_permission
need-Reads rq t a h = search (reads_rules, check-Reads)

pub object_permission-Reads :
    (rq : Request) (o : ObjectVersion) → Reads (check_object_permission rq o)
unfolding check_object_permission
object_permission-Reads rq o = search (reads_rules, need-Reads)

pub get_object-Reads :
    (rq : Request) (b : ℕ) (key : String) (v : Option ℕ) → Reads (get_object rq b key v)
unfolding get_object
get_object-Reads rq b key v = search (reads_rules, get-Reads, object_permission-Reads) depth 12

refused : (rq : Request) (hidden : Bool) → Refuses (check_permission rq (some false) hidden)
unfolding check_permission
refused rq hidden = search refuses_rules

-- The permission that a request cannot do without.
abbrev pub needed : Call → Access
needed post_location = location_update
needed (get_bucket id versions true) = bucket_listmultiparts
needed (get_bucket id versions false) = bucket_read
needed (head_bucket id) = bucket_read
needed (get_object_or_parts id key v (some u) uploads c) = multipart_read
needed (get_object_or_parts id key v none uploads c) = object_read
needed (post_object id key uploads u size part_size) = bucket_update
needed (put_object id key u) = bucket_update
needed (delete_object_or_upload id key v (some u) uploads) = multipart_delete
needed (delete_object_or_upload id key (some v) none uploads) = object_delete_version
needed (delete_object_or_upload id key none none uploads) = Permissions.object_delete

module _ (rq : Request) (a : Access)
    (denied : (t : Target) → rq.permission t a ≡ ok (some false)) where
  need-Refuses : (t : Target) (hidden : Bool) → Refuses (need_permission rq t a hidden)
  unfolding need_permission lift ◌>>=◌
  need-Refuses t hidden =
      subst (λ (r : Result (Option Bool)). Refuses (lift r >>= λ p. check_permission rq p hidden))
        (sym (denied t)) (record { at = λ s. (refused rq hidden).at s })

ruleset denied_rules = (
  refuses_rules, pass_bucket-Reads, pass_multipart-Reads, get-Reads, get_object-Reads, need-Reads,
)

module _ (app : App) (rq : Request) where
  location-Refuses :
      ((t : Target) → rq.permission t location_update ≡ ok (some false))
      → Refuses (location_post rq)
  unfolding location_post
  location-Refuses d = search (denied_rules, need-Refuses rq location_update d) depth 8

  listing-Refuses :
      (id : String) (versions : Bool)
      → ((t : Target) → rq.permission t bucket_listmultiparts ≡ ok (some false))
      → Refuses (bucket_get rq id versions true)
  unfolding bucket_get list_uploads
  listing-Refuses id versions d =
      search (denied_rules, need-Refuses rq bucket_listmultiparts d) depth 12

  reading-Refuses :
      (id : String) (versions : Bool)
      → ((t : Target) → rq.permission t bucket_read ≡ ok (some false))
      → Refuses (bucket_get rq id versions false)
  unfolding bucket_get list_objects
  reading-Refuses id versions d = search (denied_rules, need-Refuses rq bucket_read d) depth 12

  head-Refuses :
      (id : String)
      → ((t : Target) → rq.permission t bucket_read ≡ ok (some false))
      → Refuses (bucket_head rq id)
  unfolding bucket_head
  head-Refuses id d = search (denied_rules, need-Refuses rq bucket_read d) depth 12

  parts-Refuses :
      (id key : String) (v : Option ℕ) (u : ℕ) (uploads c : Bool)
      → ((t : Target) → rq.permission t multipart_read ≡ ok (some false))
      → Refuses (object_get app rq id key v (some u) uploads c)
  unfolding object_get list_parts
  parts-Refuses id key v u uploads c d =
      search (denied_rules, need-Refuses rq multipart_read d) depth 16

  download-Refuses :
      (id key : String) (v : Option ℕ) (uploads c : Bool)
      → ((t : Target) → rq.permission t object_read ≡ ok (some false))
      → Refuses (object_get app rq id key v none uploads c)
  unfolding object_get download get_object check_object_permission
  download-Refuses id key v uploads c d =
      search (denied_rules, need-Refuses rq object_read d) depth 20

  writable_bucket-Refuses :
      (id : String)
      → ((t : Target) → rq.permission t bucket_update ≡ ok (some false))
      → Refuses (writable_bucket rq id)
  unfolding writable_bucket
  writable_bucket-Refuses id d = search (denied_rules, need-Refuses rq bucket_update d) depth 12

  post-Refuses :
      (id key : String) (uploads : Bool) (u size part_size : Option ℕ)
      → ((t : Target) → rq.permission t bucket_update ≡ ok (some false))
      → Refuses (object_post app rq id key uploads u size part_size)
  unfolding object_post
  post-Refuses id key uploads u size part_size d =
      search (Refuses-first, writable_bucket-Refuses id d)

  put-Refuses :
      (id key : String) (u : Option ℕ)
      → ((t : Target) → rq.permission t bucket_update ≡ ok (some false))
      → Refuses (object_put app rq id key u)
  unfolding object_put
  put-Refuses id key u d = search (Refuses-first, writable_bucket-Refuses id d)

  abort-Refuses :
      (id key : String) (v : Option ℕ) (u : ℕ) (uploads : Bool)
      → ((t : Target) → rq.permission t multipart_delete ≡ ok (some false))
      → Refuses (object_delete rq id key v (some u) uploads)
  unfolding object_delete abort_upload
  abort-Refuses id key v u uploads d =
      search (denied_rules, need-Refuses rq multipart_delete d) depth 16

  remove-Refuses :
      (id key : String) (v : ℕ) (uploads : Bool)
      → ((t : Target) → rq.permission t object_delete_version ≡ ok (some false))
      → Refuses (object_delete rq id key (some v) none uploads)
  unfolding object_delete delete_object delete_version
  remove-Refuses id key v uploads d =
      search (denied_rules, need-Refuses rq object_delete_version d) depth 20

  delete-Refuses :
      (id key : String) (uploads : Bool)
      → ((t : Target) → rq.permission t Permissions.object_delete ≡ ok (some false))
      → Refuses (object_delete rq id key none none uploads)
  unfolding object_delete delete_object
  delete-Refuses id key uploads d =
      search (denied_rules, need-Refuses rq Permissions.object_delete d) depth 20

  handle-Refuses :
      (call : Call)
      → ((t : Target) → rq.permission t (needed call) ≡ ok (some false))
      → Refuses (handle app rq call)
  unfolding handle
  handle-Refuses post_location d = location-Refuses d
  handle-Refuses (get_bucket id versions true) d = listing-Refuses id versions d
  handle-Refuses (get_bucket id versions false) d = reading-Refuses id versions d
  handle-Refuses (head_bucket id) d = head-Refuses id d
  handle-Refuses (get_object_or_parts id key v (some u) uploads c) d =
      parts-Refuses id key v u uploads c d
  handle-Refuses (get_object_or_parts id key v none uploads c) d =
      download-Refuses id key v uploads c d
  handle-Refuses (post_object id key uploads u size part_size) d =
      post-Refuses id key uploads u size part_size d
  handle-Refuses (put_object id key u) d = put-Refuses id key u d
  handle-Refuses (delete_object_or_upload id key v (some u) uploads) d =
      abort-Refuses id key v u uploads d
  handle-Refuses (delete_object_or_upload id key (some v) none uploads) d =
      remove-Refuses id key v uploads d
  handle-Refuses (delete_object_or_upload id key none none uploads) d =
      delete-Refuses id key uploads d

-- A request for which the permission that its kind of request cannot do without (to update
-- locations or the bucket, to list uploads, to read or delete the object, version or upload) is
-- denied for every target is answered by an exception, and the session is as it was: nothing is
-- stored, deleted or put on the queue.
pub handle_denied :
    (app : App) (rq : Request) (call : Call) (s : Session)
    → ((t : Target) → rq.permission t (needed call) ≡ ok (some false))
    → (e : Error) × (handle app rq call s ≡ (err e, s))
handle_denied app rq call s denied = (handle-Refuses app rq call denied).at s
