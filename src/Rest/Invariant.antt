-- ===== src/Rest/Invariant.antt =====
-- Every request keeps the versions well-formed.
use invenio_files_rest.Prelude.{
  ℕ, String, Bool, false, Option, none, some, List, ◌≡◌, inl, inr, ap, [], ◌∷◌, ◌∙◌, arith, ==_refl,
}
use invenio_files_rest.Prelude.Int.{ℤ}
use invenio_files_rest.Prelude.Tables.{select}
use invenio_files_rest.Prelude.Members.{IsIn, IsIn-select, select-IsIn}
use invenio_files_rest.Schema.{remove_file_data as remove_data, ObjectVersion, FileSizeLimit}
use invenio_files_rest.Session.{
  Session, ok, pure, delay, if_some, ◌>>◌, one_or_none, ◌>>=◌, begin_nested,
}
use invenio_files_rest.Session.Keeps.{Keeps, bind-at}
use invenio_files_rest.Session.Reads.{
  Action-cases, Reads, reads_then, keeps_known, Keeps-Reads, reads_rules,
}
use invenio_files_rest.Bucket
use invenio_files_rest.Bucket.Invariant as BucketInvariant
use invenio_files_rest.Tags.OfVersion
use invenio_files_rest.ObjectVersion.Heads.{IsWellFormed}
use invenio_files_rest.ObjectVersion.Reading.{get, wanted, has_version, get_by_bucket}
use invenio_files_rest.ObjectVersion.Invariant.{version_rules, create-Keeps}
use invenio_files_rest.ObjectVersion.Changing
use invenio_files_rest.ObjectVersion.Operations as Versions
use invenio_files_rest.Multipart.Uploads.{query_by_bucket}
use invenio_files_rest.Multipart.Parts as Parts
use invenio_files_rest.Permissions
use invenio_files_rest.Rest.Request.{App, Request, Upload, no_content}
use invenio_files_rest.Rest.Factories.{Tags}
use invenio_files_rest.Rest.Access.{
  need_permission, check_object_permission, get_object, ensure_input_stream,
}
use invenio_files_rest.Rest.Objects.{
  check_length, add_tags, store_object, create_object, delete_version, delete_object, send_object,
  download, remove_version,
}
use invenio_files_rest.Rest.Uploads.{list_parts}
use invenio_files_rest.Rest.Views.{
  Call, location_post, list_uploads, list_objects, bucket_get, bucket_head, object_get,
  writable_bucket, object_post, object_put, object_delete, handle, post_location, get_bucket,
  head_bucket, get_object_or_parts, post_object, put_object, delete_object_or_upload,
}
use invenio_files_rest.Rest.Denied.{
  pass_bucket-Reads, pass_multipart-Reads, need-Reads, get_object-Reads,
}
use invenio_files_rest.Rest.UploadInvariant.{
  rest_rules, upload_part-Keeps, initiate-Keeps, complete_upload-Keeps, abort_upload-Keeps,
}
use invenio_files_rest.Rest.Removing.{remove_version-IsWellFormed}

check_length-Reads :
    (size : Option ℤ) (limit : Option FileSizeLimit) → Reads (check_length size limit)
unfolding check_length
check_length-Reads none limit = search reads_rules
check_length-Reads (some n) limit = search reads_rules depth 8

add_tags-Keeps : (v : ℕ) (tags : Option Tags) → Keeps IsWellFormed (add_tags v tags)
unfolding add_tags OfVersion.create
add_tags-Keeps v tags = search version_rules depth 16

store_object-Keeps :
    (app : App) (b : ℕ) (key : String) (u : Upload) (l : Option FileSizeLimit)
    → Keeps IsWellFormed (store_object app b key u l)
unfolding store_object
store_object-Keeps app b key u l =
    search (version_rules, create-Keeps, Versions.set_contents-Keeps, add_tags-Keeps) depth 12

create_object-Keeps :
    (app : App) (rq : Request) (b : ℕ) (key : String)
    → Keeps IsWellFormed (create_object app rq b key)
unfolding create_object Bucket.size_limit
create_object-Keeps app rq b key =
    search (version_rules, store_object-Keeps, Keeps-Reads, check_length-Reads) depth 20

download-Keeps :
    (app : App) (rq : Request) (b : ℕ) (key : String) (v : Option ℕ) (c : Bool)
    → Keeps IsWellFormed (download app rq b key v c)
unfolding download send_object
download-Keeps app rq b key v c =
    search (version_rules, Keeps-Reads, need-Reads, get_object-Reads) depth 20

list_parts-Keeps :
    (rq : Request) (b : ℕ) (key : String) (u : ℕ) → Keeps IsWellFormed (list_parts rq b key u)
unfolding list_parts Parts.query_by_multipart
list_parts-Keeps rq b key u =
    search (version_rules, Keeps-Reads, pass_multipart-Reads, need-Reads) depth 12

writable_bucket-Reads : (rq : Request) (id : String) → Reads (writable_bucket rq id)
unfolding writable_bucket ensure_input_stream
writable_bucket-Reads rq id = search (reads_rules, pass_bucket-Reads, need-Reads) depth 12

-- What `get` returns is a row.
get_row :
    (b : ℕ) (key : String) (v : Option ℕ) (s t : Session) (o : ObjectVersion)
    → IsWellFormed s.db
    → get (Bucket.instance_of b) key v s ≡ (ok (some o), t)
    → select (has_version o.version_id) s.objects ≡ o ∷ []
unfolding get Bucket.as_bucket_id ◌>>=◌
get_row b key v s t o w h =
    let inside : IsIn o s.objects =
      IsIn-select (wanted b key v) o s.objects (found (select (wanted b key v) s.objects) h) in
    select-IsIn (has_version o.version_id) o s.objects inside (==_refl o.version_id)
      (w.unique_versions o.version_id)
  where
    found : (l : List ObjectVersion) → one_or_none l s ≡ (ok (some o), t) → IsIn o l
    found [] h = cc
    found (x ∷ []) h = inl (cc h)
    found (x ∷ y ∷ l) h = cc

get_object_row :
    (rq : Request) (b : ℕ) (key : String) (v : Option ℕ) (s t : Session) (o : ObjectVersion)
    → IsWellFormed s.db
    → get_object rq b key v s ≡ (ok o, t)
    → select (has_version o.version_id) s.objects ≡ o ∷ []
unfolding get_object ◌>>=◌
get_object_row rq b key v s t o w h = elim (Action-cases (get (Bucket.instance_of b) key v s)) [
  | inl (none, t', e) ↦ absurd (ground (arith, e))
  | inl (some x, t', e) ↦ elim (Action-cases (check_object_permission rq x t')) [
    | inl (u, t'', e') ↦
        let same : x ≡ o = ground (arith, e, e') in
        get_row b key v s t' o w (e ∙ ap (λ (y : ObjectVersion). (ok (some y), t')) same)
    | inr (x', t'', e') ↦ absurd (ground (arith, e, e'))
  ]
  | inr (x, t', e) ↦ absurd (ground (arith, e))
]

delete_version_after :
    (rq : Request) (b : ℕ) (o : ObjectVersion) (s : Session)
    → IsWellFormed s.db
    → select (has_version o.version_id) s.objects ≡ o ∷ []
    → IsWellFormed (delete_version rq b o s).1.db
unfolding delete_version
delete_version_after rq b o s w row =
    reads_then IsWellFormed (Bucket.row b) _ s (search (reads_rules)) w λ r.
      reads_then IsWellFormed
        (need_permission rq (Permissions.bucket r) Permissions.object_delete_version false) _ s
        (need-Reads rq _ _ false) w
        λ _.
          bind-at {P = IsWellFormed} (remove_version o)
            (λ _. if_some o.file_id (λ i. delay (remove_data i false)) (pure tt)) s
            (remove_version-IsWellFormed o s w row) (λ _. search version_rules depth 8)

deleted_after :
    (rq : Request) (b : ℕ) (o : ObjectVersion) (v : Option ℕ) (s : Session)
    → IsWellFormed s.db
    → select (has_version o.version_id) s.objects ≡ o ∷ []
    → IsWellFormed
        (if_some v
          (λ u. delete_version rq b o)
          (begin_nested (Changing.delete (Bucket.instance_of b) o.key) >> pure tt)
          s).1.db
unfolding if_some
deleted_after rq b o (some u) s w row = delete_version_after rq b o s w row
deleted_after rq b o none s w row = kept.at s w
  where
    kept :
        Keeps IsWellFormed (begin_nested (Changing.delete (Bucket.instance_of b) o.key) >> pure tt)
    kept = search (version_rules, Versions.delete-object-Keeps) depth 8

delete_object_after :
    (rq : Request) (b : ℕ) (o : ObjectVersion) (v : Option ℕ) (s : Session)
    → IsWellFormed s.db
    → select (has_version o.version_id) s.objects ≡ o ∷ []
    → IsWellFormed (delete_object rq b o v s).1.db
unfolding delete_object
delete_object_after rq b o v s w row =
    reads_then IsWellFormed
      (need_permission rq (Permissions.object o) Permissions.object_delete false) _ s
      (need-Reads rq _ _ false) w
      λ _.
        bind-at {P = IsWellFormed} _ (λ _. pure no_content) s (deleted_after rq b o v s w row)
          (λ _. search version_rules)

-- An object that was looked up is deleted.
delete_found-Keeps :
    (rq : Request) (b : ℕ) (key : String) (v : Option ℕ)
    → Keeps IsWellFormed (get_object rq b key v >>= λ o. delete_object rq b o v)
delete_found-Keeps rq b key v = record {
  at = λ s w.
      keeps_known IsWellFormed (get_object rq b key v) (λ o. delete_object rq b o v) s
        (get_object-Reads rq b key v) w
        (λ o t e. delete_object_after rq b o v s w (get_object_row rq b key v s t o w e));
}

object_delete-Keeps :
    (rq : Request) (id key : String) (v u : Option ℕ) (uploads : Bool)
    → Keeps IsWellFormed (object_delete rq id key v u uploads)
unfolding object_delete
object_delete-Keeps rq id key v u uploads =
    search (version_rules, Keeps-Reads, pass_bucket-Reads, abort_upload-Keeps, delete_found-Keeps)
      depth 12

pub handle-Keeps :
    (app : App) (rq : Request) (call : Call) → Keeps IsWellFormed (handle app rq call)
unfolding handle location_post bucket_get list_uploads list_objects bucket_head object_get
    object_post object_put query_by_bucket get_by_bucket
handle-Keeps app rq post_location = search (rest_rules, BucketInvariant.create-Keeps) depth 16
handle-Keeps app rq (get_bucket id versions uploads) = search rest_rules depth 20
handle-Keeps app rq (head_bucket id) = search rest_rules depth 16
handle-Keeps app rq (get_object_or_parts id key v u uploads c) =
    search (rest_rules, list_parts-Keeps, download-Keeps) depth 16
handle-Keeps app rq (post_object id key uploads u size part_size) =
    search (rest_rules, writable_bucket-Reads, initiate-Keeps, complete_upload-Keeps) depth 16
handle-Keeps app rq (put_object id key u) =
    search (rest_rules, writable_bucket-Reads, upload_part-Keeps, create_object-Keeps) depth 16
handle-Keeps app rq (delete_object_or_upload id key v u uploads) =
    object_delete-Keeps rq id key v u uploads
