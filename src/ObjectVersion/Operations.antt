-- ===== src/ObjectVersion/Operations.antt =====
-- The operations on versions that exist, and those that give them a file, keep the versions well-formed.
use invenio_files_rest.Prelude.{ℕ, String, refl, Option, some, List, option_eq}
use invenio_files_rest.Prelude.Int.{ℤ}
use invenio_files_rest.Prelude.Tables.{update}
use invenio_files_rest.Schema.{ObjectVersion, ObjectVersionTag, FileSizeLimit}
use invenio_files_rest.Session.{modify_objects}
use invenio_files_rest.Session.Keeps.{Keeps}
use invenio_files_rest.Storage.{Backend}
use invenio_files_rest.Storage.Writing.{Stream}
use invenio_files_rest.FileInstance
use invenio_files_rest.Bucket.{BucketArg}
use invenio_files_rest.Tags.OfVersion
use invenio_files_rest.ObjectVersion.Creating.{set_contents, set_location}
use invenio_files_rest.ObjectVersion.Changing.{
  copy, restore, remove, delete as delete_object, release_size, relink_all,
}
use invenio_files_rest.ObjectVersion.Heads.{IsWellFormed}
use invenio_files_rest.ObjectVersion.Invariant.{
  version_rules, create-Keeps, as_bucket-Keeps, set_id-Keeps, update-Keeps,
}

copy_all-Keeps : (v : ℕ) (ts : List ObjectVersionTag) → Keeps IsWellFormed (OfVersion.copy_all v ts)
unfolding OfVersion.copy_all
copy_all-Keeps v ts = search version_rules depth 16

pub copy-Keeps :
    (v : ℕ) (bucket : Option BucketArg) (key : Option String)
    → Keeps IsWellFormed (copy v bucket key)
unfolding copy
copy-Keeps v bucket key =
    search (version_rules, create-Keeps, as_bucket-Keeps, copy_all-Keeps) depth 16

pub restore-Keeps : (v : ℕ) → Keeps IsWellFormed (restore v)
unfolding restore
restore-Keeps v = search (version_rules, copy-Keeps) depth 9

pub release_size-Keeps : (o : ObjectVersion) → Keeps IsWellFormed (release_size o)
unfolding release_size
release_size-Keeps o = search version_rules

pub remove-Keeps : (v : ℕ) → Keeps IsWellFormed (remove v)
unfolding remove
remove-Keeps v = search (version_rules, release_size-Keeps) depth 12

pub delete-object-Keeps :
    (arg : BucketArg) (key : String) → Keeps IsWellFormed (delete_object arg key)
unfolding delete_object
delete-object-Keeps arg key =
    search (version_rules, release_size-Keeps, create-Keeps, as_bucket-Keeps) depth 12

pub set_location-Keeps :
    (v : ℕ) (location : FileInstance.Location) (c : Option String)
    → Keeps IsWellFormed (set_location v location c)
unfolding set_location
set_location-Keeps v location c = search (version_rules, set_id-Keeps) depth 12

pub set_contents-Keeps :
    (backend : Backend) (v : ℕ) (stream : Stream) (size : Option ℤ) (limit : Option FileSizeLimit)
    → Keeps IsWellFormed (set_contents backend v stream size limit)
unfolding set_contents
set_contents-Keeps backend v stream size limit = search (version_rules, set_id-Keeps) depth 16

relink-Keeps :
    (old new : ℕ)
    → Keeps IsWellFormed (
        modify_objects
          (update (λ o. option_eq o.file_id (some old)) (λ o. record o { file_id = some new })))
relink-Keeps old new = update-Keeps _ _ (λ v x. refl) (λ b k x h. h)

pub relink_all-Keeps : (old new : ℕ) → Keeps IsWellFormed (relink_all old new)
unfolding relink_all
relink_all-Keeps old new = search (version_rules, relink-Keeps) depth 10
