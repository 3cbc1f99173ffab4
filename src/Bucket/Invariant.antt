-- ===== src/Bucket/Invariant.antt =====
-- The operations on buckets keep the versions well-formed.
use invenio_files_rest.Prelude.{ℕ, String, Bool, Option, List, refl}
use invenio_files_rest.Schema.{ObjectVersion, BucketTag}
use invenio_files_rest.Session.{modify_bucket_tags}
use invenio_files_rest.Session.Keeps.{Keeps, keeps_rules}
use invenio_files_rest.Bucket.{LocationArg, add_new, create, delete, remove}
use invenio_files_rest.Bucket.Mirror.{Versions, snapshot, sync, sync_one, sync_all, delete_extra}
use invenio_files_rest.ObjectVersion.Heads.{IsWellFormed}
use invenio_files_rest.ObjectVersion.Invariant.{version_rules, of_objects}
use invenio_files_rest.ObjectVersion.Operations.{copy-Keeps, delete-object-Keeps}

bucket_tags-Keeps :
    (f : List BucketTag → List BucketTag) → Keeps IsWellFormed (modify_bucket_tags f)
unfolding modify_bucket_tags
bucket_tags-Keeps f = record { at = λ s w. of_objects _ s.db refl w }

add_new-Keeps : (l : ℕ) (c : String) (q m : Option ℕ) → Keeps IsWellFormed (add_new l c q m)
unfolding add_new
add_new-Keeps l c q m = search version_rules depth 12

pub create-Keeps :
    (arg : LocationArg) (c : Option String) (q m : Option ℕ) → Keeps IsWellFormed (create arg c q m)
unfolding create
create-Keeps LocationArg.default c q m = search (version_rules, add_new-Keeps) depth 12
create-Keeps (LocationArg.named n) c q m = search (version_rules, add_new-Keeps) depth 12
create-Keeps (LocationArg.location l) c q m = search (version_rules, add_new-Keeps) depth 12

pub delete-Keeps : (b : ℕ) → Keeps IsWellFormed (delete b)
unfolding delete
delete-Keeps b = search version_rules depth 12

pub remove-Keeps : (b : ℕ) → Keeps IsWellFormed (remove b)
unfolding remove
remove-Keeps b = search (version_rules, bucket_tags-Keeps) depth 16

pub snapshot-Keeps : (b : ℕ) (lock : Bool) → Keeps IsWellFormed (snapshot b lock)
unfolding snapshot
snapshot-Keeps b lock = search (version_rules, add_new-Keeps, copy-Keeps) depth 16

sync_one-Keeps :
    (target : ℕ) (in_target : Versions) (key : String) (o : ObjectVersion)
    → Keeps IsWellFormed (sync_one target in_target key o)
unfolding sync_one
sync_one-Keeps target in_target key o =
    search (version_rules, copy-Keeps, delete-object-Keeps) depth 12

sync_all-Keeps :
    (target : ℕ) (in_target source : Versions)
    → Keeps IsWellFormed (sync_all target in_target source)
unfolding sync_all
sync_all-Keeps target in_target source = search (keeps_rules, sync_one-Keeps)

delete_extra-Keeps :
    (target : ℕ) (in_source dest : Versions)
    → Keeps IsWellFormed (delete_extra target in_source dest)
unfolding delete_extra
delete_extra-Keeps target in_source dest = search (keeps_rules, delete-object-Keeps) depth 12

pub sync-Keeps : (b target : ℕ) (extras : Bool) → Keeps IsWellFormed (sync b target extras)
unfolding sync
sync-Keeps b target extras = search (keeps_rules, sync_all-Keeps, delete_extra-Keeps) depth 12
