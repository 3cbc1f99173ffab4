-- ===== src/Multipart/Invariant.antt =====
-- Multipart uploads keep the versions well-formed.
use invenio_files_rest.Prelude.{ℕ, String, Option, List, refl}
use invenio_files_rest.Prelude.Int.{ℤ, pos, negsuc}
use invenio_files_rest.Schema.{MultipartObject, Part}
use invenio_files_rest.Session.{modify_multiparts, modify_parts}
use invenio_files_rest.Session.Keeps.{Keeps}
use invenio_files_rest.Storage.{Backend}
use invenio_files_rest.Storage.Writing.{Stream}
use invenio_files_rest.Bucket.{BucketArg}
use invenio_files_rest.Multipart.Parts as Parts
use invenio_files_rest.Multipart.Uploads.{create, add_new, complete, delete, merge_parts}
use invenio_files_rest.ObjectVersion.Heads.{IsWellFormed}
use invenio_files_rest.ObjectVersion.Invariant.{
  version_rules, of_objects, as_bucket-Keeps, create-Keeps,
}

multiparts-Keeps :
    (f : List MultipartObject → List MultipartObject) → Keeps IsWellFormed (modify_multiparts f)
unfolding modify_multiparts
multiparts-Keeps f = record { at = λ s w. of_objects _ s.db refl w }

parts-Keeps : (f : List Part → List Part) → Keeps IsWellFormed (modify_parts f)
unfolding modify_parts
parts-Keeps f = record { at = λ s w. of_objects _ s.db refl w }

ruleset upload_rules = (version_rules, multiparts-Keeps, parts-Keeps, as_bucket-Keeps, create-Keeps)

add_new-Keeps :
    (b : ℕ) (key : String) (size chunk : ℕ) → Keeps IsWellFormed (add_new b key size chunk)
unfolding add_new
add_new-Keeps b key size chunk = search upload_rules depth 16

pub upload-Keeps :
    (backend : Backend) (arg : BucketArg) (key : String) (size chunk : ℕ)
    → Keeps IsWellFormed (create backend arg key size chunk)
unfolding create
upload-Keeps backend arg key size chunk = search (upload_rules, add_new-Keeps) depth 20

pub complete-Keeps : (u : ℕ) → Keeps IsWellFormed (complete u)
unfolding complete
complete-Keeps u = search upload_rules depth 16

pub abort-Keeps : (u : ℕ) → Keeps IsWellFormed (delete u)
unfolding delete
abort-Keeps u = search upload_rules depth 16

pub merge-Keeps :
    (backend : Backend) (u : ℕ) (v : Option ℕ) → Keeps IsWellFormed (merge_parts backend u v)
unfolding merge_parts
merge-Keeps backend u v = search (upload_rules, abort-Keeps) depth 16

make-Keeps : (u : ℕ) (n : ℤ) → Keeps IsWellFormed (Parts.create u n)
unfolding Parts.create
make-Keeps u (negsuc n) = search upload_rules
make-Keeps u (pos n) = search upload_rules depth 16

pub part-Keeps : (u : ℕ) (n : ℤ) → Keeps IsWellFormed (Parts.get_or_create u n)
unfolding Parts.get_or_create
part-Keeps u n = search (upload_rules, make-Keeps) depth 16

pub fill-Keeps :
    (backend : Backend) (u n : ℕ) (stream : Stream)
    → Keeps IsWellFormed (Parts.set_contents backend u n stream)
unfolding Parts.set_contents
fill-Keeps backend u n stream = search upload_rules depth 16

pub drop-Keeps : (u : ℕ) (n : ℤ) → Keeps IsWellFormed (Parts.delete u n)
unfolding Parts.delete
drop-Keeps u n = search upload_rules depth 12
