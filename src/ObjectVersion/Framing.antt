-- ===== src/ObjectVersion/Framing.antt =====
-- Which tables matter for the creation of versions, by properties of the others.
use invenio_files_rest.Prelude.{ℕ, String, Option, List}
use invenio_files_rest.Prelude.Int.{ℤ}
use invenio_files_rest.Schema.{
  Db, FileSizeLimit, ObjectVersion, Bucket as BucketRow, FileInstance as FileRow,
}
use invenio_files_rest.Session.{modify_objects, modify_buckets, modify_files}
use invenio_files_rest.Session.Keeps.{Keeps, keeps_rules}
use invenio_files_rest.Storage.{Backend}
use invenio_files_rest.Storage.Writing.{Stream}
use invenio_files_rest.Bucket as Buckets
use invenio_files_rest.ObjectVersion.Creating

-- The property does not depend on the tables of files, versions and buckets.
pub record IsFramed (P : Db → Type 0) : Type 0 where
  pub files : (f : List FileRow → List FileRow) → Keeps P (modify_files f)
  pub objects : (f : List ObjectVersion → List ObjectVersion) → Keeps P (modify_objects f)
  pub buckets : (f : List BucketRow → List BucketRow) → Keeps P (modify_buckets f)

module _ (P : Db → Type 0) (frame : IsFramed P) where
  set_file-Keeps : (v : ℕ) (i : Option ℕ) → Keeps P (Creating.set_file v i)
  unfolding Creating.set_file
  set_file-Keeps v i = search (keeps_rules, frame.objects, frame.buckets) depth 16

  row-Keeps :
      (b : ℕ) (key : String) (i : Option ℕ) (m : Option String) (v : Option ℕ)
      → Keeps P (Creating.create_row b key i m v)
  unfolding Creating.create_row Creating.demote_latest Creating.add_new Creating.attach_file
  row-Keeps b key i m v = search (keeps_rules, frame.objects, set_file-Keeps) depth 20

  pub as_bucket-Keeps : (arg : Buckets.BucketArg) → Keeps P (Buckets.as_bucket arg)
  unfolding Buckets.as_bucket
  as_bucket-Keeps (Buckets.instance_of i) = search keeps_rules
  as_bucket-Keeps (Buckets.by_id i) = search keeps_rules depth 9

  pub create-Keeps :
      (arg : Buckets.BucketArg) (key : String) (i : Option ℕ) (m : Option String) (v : Option ℕ)
      → Keeps P (Creating.create arg key i m v)
  unfolding Creating.create
  create-Keeps arg key i m v = search (keeps_rules, as_bucket-Keeps, row-Keeps) depth 16

  pub set_contents-Keeps :
      (backend : Backend) (v : ℕ) (stream : Stream) (size : Option ℤ) (limit : Option FileSizeLimit)
      → Keeps P (Creating.set_contents backend v stream size limit)
  unfolding Creating.set_contents
  set_contents-Keeps backend v stream size limit =
      search (keeps_rules, frame.files, frame.objects, frame.buckets) depth 20

  pub create_from_stream-Keeps :
      (backend : Backend) (arg : Buckets.BucketArg) (key : String) (m : Option String)
      (stream : Stream) (size : Option ℤ) (limit : Option FileSizeLimit)
      → Keeps P (Creating.create_from_stream backend arg key m stream size limit)
  unfolding Creating.create_from_stream
  create_from_stream-Keeps backend arg key m stream size limit =
      search (keeps_rules, create-Keeps, set_contents-Keeps) depth 12
