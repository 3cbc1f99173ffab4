-- ===== src/Tasks.antt =====
-- The background tasks of tasks.py, as the worker runs them. A commit leaves the tables as they are;
-- a rollback takes back what the task has changed.
pub mod Removal
pub mod Scheduling
pub mod Batches
pub mod Orphans
pub mod Invariant
mod Tests
use invenio_files_rest.Prelude.{
  ℕ, zero, suc, String, Bool, true, false, Option, none, some, List, [], ◌∷◌, ◌-◌, ◌==◌, ◌&&◌, not,
  is_some, if◌then◌else◌,
}
use invenio_files_rest.Prelude.Int.{ℤ, pos, negsuc}
use invenio_files_rest.Prelude.Tables.{select, some_row, delete as delete_rows}
use invenio_files_rest.Errors.{Error, attribute_error, integrity_error, runtime_error}
use invenio_files_rest.Schema.{
  FileInstance, ObjectVersion, remove_file_data as remove_data, verify_checksum as check_file,
}
use invenio_files_rest.Session.{
  ⊤, Action, Result, ok, err, pure, gets, lift, or_raise, if_some, ◌>>=◌, ◌>>◌, raise_if, delay,
  utcnow, one_or_none, for_each, modify_files,
}
use invenio_files_rest.Storage.{Backend}
use invenio_files_rest.Location
use invenio_files_rest.FileInstance as Files
use invenio_files_rest.ObjectVersion.Changing.{relink_all}
use invenio_files_rest.Multipart.Parts.{has_id}
use invenio_files_rest.Multipart.Uploads.{merge_parts, query_expired, delete as delete_upload}

-- `verify_checksum`
unfoldable pub verify_checksum : Backend → ℕ → Bool → Bool → Action ⊤
unfolding Files.clear_last_check Files.verify_checksum
verify_checksum backend i pessimistic throws = do
  if pessimistic then Files.clear_last_check i else pure tt
  _ ← Files.verify_checksum backend throws i
  pure tt

abbrev is_integrity_error : Error → Bool
is_integrity_error integrity_error = true
is_integrity_error e = false

-- `except IntegrityError: if not silent: raise`
unfoldable pub on_integrity_error : Bool → Action ⊤ → Action ⊤
on_integrity_error silent m s =
    let (r, t) = m s in
    elim r [
      | ok a ↦ (ok a, t)
      | err e ↦ (if silent && is_integrity_error e then ok tt else err e, t)
    ]

-- The file's row is deleted first, its data then; the row stays deleted if the storage then fails.
unfoldable pub remove_row_and_data : Backend → FileInstance → Action ⊤
unfolding Files.delete
remove_row_and_data backend f = do Files.delete f.id; lift (backend.delete f)

-- The `try` of `remove_file_data`.
unfoldable pub try_remove : Backend → ℕ → Bool → Action ⊤
unfolding Files.get remove_row_and_data
try_remove backend i force = do
  found ← Files.get i
  j ← or_raise found attribute_error
  f ← Files.row j
  if not f.writable && not force then pure tt else remove_row_and_data backend f

-- `remove_file_data`
unfoldable pub remove_file_data : Backend → ℕ → Bool → Bool → Action ⊤
unfolding on_integrity_error try_remove
remove_file_data backend i silent force = on_integrity_error silent (try_remove backend i force)

-- `try: ... except Exception: db.session.rollback(); raise`
unfoldable pub with_rollback : {A : Type 0} → Action A → Action A
with_rollback m s =
    let (r, t) = m s in elim r [ ok a ↦ (ok a, t) | err e ↦ (err e, record t { db = s.db }) ]

-- `merge_multipartobject`
unfoldable pub merge_multipartobject : Backend → ℕ → Option ℕ → Action ℕ
unfolding merge_parts with_rollback
merge_multipartobject backend u version_id = do
  found ← one_or_none (← gets (λ s. select (has_id u) s.multiparts))
  mp ← or_raise found (runtime_error "Upload ID does not exists.")
  raise_if (not mp.completed) (runtime_error "MultipartObject is not completed.")
  with_rollback (merge_parts backend u version_id)

-- `remove_expired_multipartobjects`
unfoldable pub remove_expired_multipartobjects : Action ⊤
unfolding query_expired delete_upload for_each
remove_expired_multipartobjects = do
  delta ← gets (λ s. s.config.multipart_expires)
  now ← utcnow
  expired ← query_expired (now - delta) none
  for_each expired (λ mp. delete_upload mp.upload_id)
  for_each expired (λ mp. delay (remove_data mp.file_id false))

-- `~FileInstance.objects.any()`: no version has the file.
abbrev pub is_orphan : List ObjectVersion → FileInstance → Bool
is_orphan os f = not (some_row (select (Files.refers_to f.id) os))

-- `query.limit(limit)`, where the limit is positive.
abbrev pub take : {A : Type 0} → ℕ → List A → List A
take zero xs = []
take (suc n) [] = []
take (suc n) (x ∷ xs) = x ∷ take n xs

abbrev pub at_most : {A : Type 0} → ℤ → List A → List A
at_most (negsuc n) xs = xs
at_most (pos zero) xs = xs
at_most (pos (suc n)) xs = take (suc n) xs

-- `clear_orphaned_files`
unfoldable pub clear_orphaned_files : (FileInstance → Bool) → ℤ → Action ⊤
unfolding for_each
clear_orphaned_files force_delete_check limit = do
  orphans ← gets (λ s. at_most limit (select (is_orphan s.objects) s.files))
  for_each orphans (λ f. delay (remove_data f.id (force_delete_check f)))

module _ (backend : Backend) where
  -- The `try` of `migrate_file`: a destination that could not be filled is deleted.
  unfoldable pub copy_or_delete : ℕ → Action ⊤ → Action ⊤
  copy_or_delete destination m s =
      let (r, t) = m s in
      elim r [
        | ok a ↦ (ok a, t)
        | err e ↦ (
          err e,
          record t { db = record t.db { files = delete_rows (Files.has_id destination) t.files } },
        )
      ]

  -- `migrate_file`
  unfoldable pub migrate_file : ℕ → String → Bool → Action ⊤
  unfolding Location.get_by_name Files.get Files.create Files.copy_contents copy_or_delete
      relink_all
  migrate_file source_id location_name post_fixity_check = do
    location ← Location.get_by_name location_name
    source ← Files.get source_id
    destination ← Files.create
    copy_or_delete destination (do
      _ ← or_raise location attribute_error
      i ← or_raise source attribute_error
      Files.copy_contents backend destination i)
    i ← or_raise source attribute_error
    relink_all i destination
    if post_fixity_check then delay (check_file destination) else pure tt
