-- ===== src/Rest/Uploads.antt =====
-- The multipart uploads of `ObjectResource`.
use invenio_files_rest.Prelude.{ℕ, String, true, false, Option, none, some, not, if◌then◌else◌}
use invenio_files_rest.Prelude.Int.{ℤ, int_eq, pos}
use invenio_files_rest.Prelude.Sorting.{order_by}
use invenio_files_rest.Prelude.{ltb}
use invenio_files_rest.Errors.{missing_query_parameter, multipart_invalid_chunk_size}
use invenio_files_rest.Schema.{
  MultipartObject, remove_file_data as remove_data, merge_multipartobject as merge_later,
}
use invenio_files_rest.Session.{
  ⊤, Action, Result, ok, err, and_then, pure, gets, lift, or_raise, if_some, ◌>>=◌, ◌>>◌, raise_if,
  delay, uuid4,
}
use invenio_files_rest.Storage.{Backend}
use invenio_files_rest.Storage.Writing.{Stream}
use invenio_files_rest.Bucket.{instance_of}
use invenio_files_rest.Multipart.Sizes.{last_part_number, last_part_size}
use invenio_files_rest.Multipart.Parts as Parts
use invenio_files_rest.Multipart.Uploads as Uploads
use invenio_files_rest.Permissions.{multipart, multipart_read, multipart_delete}
use invenio_files_rest.Rest.Request.{
  App, Request, Response, upload_data, part_data, parts_data, no_content,
}
use invenio_files_rest.Rest.Factories.{multipart_partfactory}
use invenio_files_rest.Rest.Access.{need_permission, pass_multipart}
use invenio_files_rest.Tasks.{take}

-- `ObjectResource.multipart_listparts`
unfoldable pub list_parts : Request → ℕ → String → ℕ → Action Response
unfolding pass_multipart need_permission Parts.query_by_multipart
list_parts rq b key u = do
  mp ← pass_multipart b key u true
  need_permission rq (multipart mp) multipart_read true
  ps ← Parts.query_by_multipart u
  pure (parts_data (take 1000 (order_by (λ p q. ltb p.part_number q.part_number) ps)))

-- `ObjectResource.multipart_init`. The sizes are natural numbers: a negative one does not pass the
-- checks of `MultipartObject.create`.
unfoldable pub initiate : App → ℕ → String → Option ℕ → Option ℕ → Action Response
unfolding Uploads.create
initiate app b key size part_size = do
  n ← or_raise size (missing_query_parameter "size")
  chunk ← or_raise part_size (missing_query_parameter "partSize")
  u ← Uploads.create app.backend (instance_of b) key n chunk
  pure (upload_data u none)

-- The length that a part of this number has to have.
unfoldable pub part_length : MultipartObject → ℤ → Result ℕ
unfolding last_part_number last_part_size
part_length mp n =
    and_then (last_part_number mp)
      λ last. if int_eq n last then last_part_size mp else ok mp.chunk_size

-- `if content_length:`
unfoldable pub check_part_length : MultipartObject → ℤ → Option ℤ → Action ⊤
unfolding part_length
check_part_length mp n none = pure tt
check_part_length mp n (some size) =
    if int_eq size (pos 0)
    then pure tt
    else (lift (part_length mp n) >>= λ expected.
        raise_if (not (int_eq (pos expected) size)) multipart_invalid_chunk_size)

-- The part is created if it is new, and filled.
unfoldable pub fill_part : Backend → ℕ → ℤ → Stream → Action ⊤
unfolding Parts.get_or_create Parts.set_contents
fill_part backend u n stream = do
  Parts.get_or_create u n
  if_some (Parts.number n) (λ k. Parts.set_contents backend u k stream) (pure tt)

-- The `except` clause of `multipart_uploadpart`: a rollback, and the part is deleted.
unfoldable pub or_delete_part : ℕ → ℤ → Action ⊤ → Action ⊤
unfolding Parts.delete
or_delete_part u n m s =
    let (r, t) = m s in
    elim r [ ok a ↦ (ok a, t) | err e ↦ (err e, (Parts.delete u n (record t { db = s.db })).1) ]

-- `ObjectResource.multipart_uploadpart`
unfoldable pub upload_part : App → Request → ℕ → String → ℕ → Action Response
unfolding pass_multipart multipart_partfactory check_part_length or_delete_part fill_part
    Parts.get_or_none
upload_part app rq b key u = do
  mp ← pass_multipart b key u true
  config ← gets (λ s. s.config)
  a ← lift (multipart_partfactory app rq config)
  check_part_length mp a.part_number a.content_length
  or_delete_part u a.part_number (fill_part app.backend u a.part_number a.stream)
  p ← Parts.get_or_none u a.part_number
  pure (part_data p)

-- `ObjectResource.multipart_complete`
unfoldable pub complete_upload : ℕ → String → ℕ → Action Response
unfolding pass_multipart Uploads.complete
complete_upload b key u = do
  _ ← pass_multipart b key u true
  Uploads.complete u
  v ← uuid4
  delay (merge_later u v)
  pure (upload_data u (some v))

-- `ObjectResource.multipart_delete`
unfoldable pub abort_upload : Request → ℕ → String → ℕ → Action Response
unfolding pass_multipart need_permission Uploads.delete
abort_upload rq b key u = do
  mp ← pass_multipart b key u false
  need_permission rq (multipart mp) multipart_delete true
  Uploads.delete u
  delay (remove_data mp.file_id false)
  pure no_content
