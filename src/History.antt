-- ===== src/History.antt =====
-- Histories: any sequence of the operations of models.py on versions, buckets and uploads, of the
-- tasks of tasks.py and of the requests of views.py. An operation that raises leaves the session as
-- it then is, and the next one goes on from there. `ObjectVersion.copy_from` is no step: it may give
-- an object two heads.
mod Tests
use invenio_files_rest.Prelude.{ℕ, String, ◌≤◌, Bool, Option, List, [], ◌∷◌}
use invenio_files_rest.Prelude.Int.{ℤ}
use invenio_files_rest.Prelude.Tables.{count}
use invenio_files_rest.Schema.{FileSizeLimit, FileInstance}
use invenio_files_rest.Session.{Session, Action, ◌>>=◌}
use invenio_files_rest.Session.Keeps.{Keeps, keeps_rules}
use invenio_files_rest.Storage.{Backend}
use invenio_files_rest.Storage.Writing.{Stream}
use invenio_files_rest.FileInstance as Files
use invenio_files_rest.Bucket as Buckets
use invenio_files_rest.Bucket.Mirror
use invenio_files_rest.Bucket.Invariant as BucketInvariant
use invenio_files_rest.Multipart.Parts
use invenio_files_rest.Multipart.Uploads
use invenio_files_rest.Tasks
use invenio_files_rest.Rest.Request.{App, Request}
use invenio_files_rest.Rest.Views.{Call, handle}
use invenio_files_rest.Rest.Invariant.{handle-Keeps}
use invenio_files_rest.Tasks.Scheduling
use invenio_files_rest.Tasks.Invariant as TaskInvariant
use invenio_files_rest.Multipart.Invariant as UploadInvariant
use invenio_files_rest.ObjectVersion.Reading.{head_of}
use invenio_files_rest.ObjectVersion.Creating
use invenio_files_rest.ObjectVersion.Changing
use invenio_files_rest.ObjectVersion.Heads.{IsWellFormed}
use invenio_files_rest.ObjectVersion.Invariant as VersionInvariant
use invenio_files_rest.ObjectVersion.Operations

pub data Op : Type 0 where
  create : Buckets.BucketArg → String → Option ℕ → Option String → Option ℕ → Op
  set_contents : ℕ → Stream → Option ℤ → Option FileSizeLimit → Op
  set_location : ℕ → Files.Location → Option String → Op
  set_file : ℕ → Option ℕ → Op
  copy : ℕ → Option Buckets.BucketArg → Option String → Op
  restore : ℕ → Op
  remove : ℕ → Op
  delete : Buckets.BucketArg → String → Op
  relink_all : ℕ → ℕ → Op
  create_bucket : Buckets.LocationArg → Option String → Option ℕ → Option ℕ → Op
  delete_bucket : ℕ → Op
  remove_bucket : ℕ → Op
  snapshot : ℕ → Bool → Op
  sync : ℕ → ℕ → Bool → Op
  create_upload : Buckets.BucketArg → String → ℕ → ℕ → Op
  get_or_create_part : ℕ → ℤ → Op
  set_part_contents : ℕ → ℕ → Stream → Op
  complete_upload : ℕ → Op
  merge_parts : ℕ → Option ℕ → Op
  delete_upload : ℕ → Op
  verify_checksum : ℕ → Bool → Bool → Op
  remove_file_data : ℕ → Bool → Bool → Op
  merge_multipartobject : ℕ → Option ℕ → Op
  remove_expired_multipartobjects : Op
  clear_orphaned_files : (FileInstance → Bool) → ℤ → Op
  migrate_file : ℕ → String → Bool → Op
  request : App → Request → Call → Op
  schedule_checksum_verification :
      Option ℕ
      → (List FileInstance → List FileInstance)
      → Option ℕ
      → Option ℕ
      → Option ℕ
      → Option ℕ
      → Op

-- The session after an operation.
perform : Backend → Op → Session → Session
perform backend (create arg key file mimetype v) s = (Creating.create arg key file mimetype v s).1
perform backend (set_contents v stream size limit) s =
    (Creating.set_contents backend v stream size limit s).1
perform backend (set_location v location c) s = (Creating.set_location v location c s).1
perform backend (set_file v file) s = (Creating.set_file v file s).1
perform backend (copy v bucket key) s = (Changing.copy v bucket key s).1
perform backend (restore v) s = (Changing.restore v s).1
perform backend (remove v) s = (Changing.remove v s).1
perform backend (delete arg key) s = (Changing.delete arg key s).1
perform backend (relink_all old new) s = (Changing.relink_all old new s).1
perform backend (create_bucket arg c q m) s = (Buckets.create arg c q m s).1
perform backend (delete_bucket b) s = (Buckets.delete b s).1
perform backend (remove_bucket b) s = (Buckets.remove b s).1
perform backend (snapshot b lock) s = (Mirror.snapshot b lock s).1
perform backend (sync b target extras) s = (Mirror.sync b target extras s).1
perform backend (create_upload arg key size chunk) s =
    (Uploads.create backend arg key size chunk s).1
perform backend (get_or_create_part u n) s = (Parts.get_or_create u n s).1
perform backend (set_part_contents u n stream) s = (Parts.set_contents backend u n stream s).1
perform backend (complete_upload u) s = (Uploads.complete u s).1
perform backend (merge_parts u v) s = (Uploads.merge_parts backend u v s).1
perform backend (delete_upload u) s = (Uploads.delete u s).1
perform backend (verify_checksum i pessimistic throws) s =
    (Tasks.verify_checksum backend i pessimistic throws s).1
perform backend (remove_file_data i silent force) s =
    (Tasks.remove_file_data backend i silent force s).1
perform backend (merge_multipartobject u v) s = (Tasks.merge_multipartobject backend u v s).1
perform backend remove_expired_multipartobjects s = (Tasks.remove_expired_multipartobjects s).1
perform backend (clear_orphaned_files force limit) s = (Tasks.clear_orphaned_files force limit s).1
perform backend (migrate_file i name check) s = (Tasks.migrate_file backend i name check s).1
perform backend (schedule_checksum_verification beat query frequency interval max_count max_size)
      s =
    (Scheduling.schedule_checksum_verification beat query frequency interval max_count max_size s).1
perform backend (request app rq call) s = (handle app rq call s).1

pub run : Backend → List Op → Session → Session
run backend [] s = s
run backend (op ∷ ops) s = run backend ops (perform backend op s)

perform-IsWellFormed :
    (backend : Backend) (op : Op) (s : Session)
    → IsWellFormed s.db
    → IsWellFormed (perform backend op s).db
unfolding perform
perform-IsWellFormed backend (create arg key file mimetype v) s w =
    (VersionInvariant.create-Keeps arg key file mimetype v).at s w
perform-IsWellFormed backend (set_contents v stream size limit) s w =
    (Operations.set_contents-Keeps backend v stream size limit).at s w
perform-IsWellFormed backend (set_location v location c) s w =
    (Operations.set_location-Keeps v location c).at s w
perform-IsWellFormed backend (set_file v file) s w = (VersionInvariant.set_file-Keeps v file).at s w
perform-IsWellFormed backend (copy v bucket key) s w = (Operations.copy-Keeps v bucket key).at s w
perform-IsWellFormed backend (restore v) s w = (Operations.restore-Keeps v).at s w
perform-IsWellFormed backend (remove v) s w = (Operations.remove-Keeps v).at s w
perform-IsWellFormed backend (delete arg key) s w = (Operations.delete-object-Keeps arg key).at s w
perform-IsWellFormed backend (relink_all old new) s w = (Operations.relink_all-Keeps old new).at s w
perform-IsWellFormed backend (create_bucket arg c q m) s w =
    (BucketInvariant.create-Keeps arg c q m).at s w
perform-IsWellFormed backend (delete_bucket b) s w = (BucketInvariant.delete-Keeps b).at s w
perform-IsWellFormed backend (remove_bucket b) s w = (BucketInvariant.remove-Keeps b).at s w
perform-IsWellFormed backend (snapshot b lock) s w = (BucketInvariant.snapshot-Keeps b lock).at s w
perform-IsWellFormed backend (sync b target extras) s w =
    (BucketInvariant.sync-Keeps b target extras).at s w
perform-IsWellFormed backend (create_upload arg key size chunk) s w =
    (UploadInvariant.upload-Keeps backend arg key size chunk).at s w
perform-IsWellFormed backend (get_or_create_part u n) s w = (UploadInvariant.part-Keeps u n).at s w
perform-IsWellFormed backend (set_part_contents u n stream) s w =
    (UploadInvariant.fill-Keeps backend u n stream).at s w
perform-IsWellFormed backend (complete_upload u) s w = (UploadInvariant.complete-Keeps u).at s w
perform-IsWellFormed backend (merge_parts u v) s w =
    (UploadInvariant.merge-Keeps backend u v).at s w
perform-IsWellFormed backend (delete_upload u) s w = (UploadInvariant.abort-Keeps u).at s w
perform-IsWellFormed backend (verify_checksum i pessimistic throws) s w =
    (TaskInvariant.verify_checksum-Keeps backend i pessimistic throws).at s w
perform-IsWellFormed backend (remove_file_data i silent force) s w =
    (TaskInvariant.remove_file_data-Keeps backend i silent force).at s w
perform-IsWellFormed backend (merge_multipartobject u v) s w =
    (TaskInvariant.merge_multipartobject-Keeps backend u v).at s w
perform-IsWellFormed backend remove_expired_multipartobjects s w =
    TaskInvariant.remove_expired-Keeps.at s w
perform-IsWellFormed backend (clear_orphaned_files force limit) s w =
    (TaskInvariant.clear_orphaned_files-Keeps force limit).at s w
perform-IsWellFormed backend (migrate_file i name check) s w =
    (TaskInvariant.migrate_file-Keeps backend i name check).at s w
perform-IsWellFormed backend
      (schedule_checksum_verification beat query frequency interval max_count max_size) s w =
    (TaskInvariant.schedule-Keeps beat query frequency interval max_count max_size).at s w
perform-IsWellFormed backend (request app rq call) s w = (handle-Keeps app rq call).at s w

-- Any sequence of the following operations, begun in a well-formed session, ends in a well-formed
-- one, whatever the storage backend, the permissions and the parsed requests are and whichever
-- operations raise: create, set_contents, set_location, set_file, copy, restore, remove, delete
-- and relink_all of versions (all but copy_from, which can give an object two heads); create,
-- delete, remove, snapshot and sync of buckets; create, complete, merge_parts and delete of
-- multipart uploads, get_or_create and set_contents of their parts; the background tasks; REST
-- requests. Well-formed is a session where no version identifier is used twice, and no object of
-- a bucket has two heads.
pub run-IsWellFormed :
    (backend : Backend) (ops : List Op) (s : Session)
    → IsWellFormed s.db
    → IsWellFormed (run backend ops s).db
unfolding run
run-IsWellFormed backend [] s w = w
run-IsWellFormed backend (op ∷ ops) s w =
    run-IsWellFormed backend ops (perform backend op s) (perform-IsWellFormed backend op s w)
