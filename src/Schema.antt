-- ===== src/Schema.antt =====
-- invenio_files_rest/models.py: the columns of the tables, a record for each, and the values of
-- invenio_files_rest/config.py that the models read. Identifiers (UUIDs) and times are numbers.
use invenio_files_rest.Prelude.{ℕ, String, Bool, Option, List}
use invenio_files_rest.Prelude.Int.{ℤ}

pub record Location : Type 0 where
  pub id : ℕ
  pub name : String
  pub uri : String
  pub default : Bool

pub record Bucket : Type 0 where
  pub id : ℕ
  pub default_location : ℕ
  pub default_storage_class : String
  -- A `BigInteger` that operations add to and take from: nothing keeps it above zero.
  pub size : ℤ
  pub quota_size : Option ℕ
  pub max_file_size : Option ℕ
  pub locked : Bool
  pub deleted : Bool

pub record BucketTag : Type 0 where
  pub bucket_id : ℕ
  pub key : String
  pub value : String

pub record FileInstance : Type 0 where
  pub id : ℕ
  pub uri : Option String
  pub storage_class : Option String
  pub size : ℕ
  pub checksum : Option String
  pub readable : Bool
  pub writable : Bool
  pub last_check_at : Option ℕ
  pub last_check : Option Bool

pub record ObjectVersion : Type 0 where
  pub version_id : ℕ
  pub key : String
  pub bucket_id : ℕ
  pub file_id : Option ℕ
  pub mimetype : Option String
  pub is_head : Bool
  pub created : ℕ

pub record ObjectVersionTag : Type 0 where
  pub version_id : ℕ
  pub key : String
  pub value : String

pub record MultipartObject : Type 0 where
  pub upload_id : ℕ
  pub bucket_id : ℕ
  pub key : String
  pub file_id : ℕ
  pub chunk_size : ℕ
  pub size : ℕ
  pub completed : Bool
  pub created : ℕ

pub record Part : Type 0 where
  pub upload_id : ℕ
  pub part_number : ℕ
  pub checksum : Option String

pub record Db : Type 0 where
  pub locations : List Location
  pub buckets : List Bucket
  pub bucket_tags : List BucketTag
  pub files : List FileInstance
  pub objects : List ObjectVersion
  pub object_tags : List ObjectVersionTag
  pub multiparts : List MultipartObject
  pub parts : List Part

-- The Celery tasks that the code sends off with `delay`, with their arguments.
pub data Task : Type 0 where
  remove_file_data : ℕ → Bool → Task
  merge_multipartobject : ℕ → ℕ → Task
  verify_checksum : ℕ → Task

-- limiters.py, `FileSizeLimit`.
pub record FileSizeLimit : Type 0 where
  pub limit : Option ℕ
  pub reason : String

-- `current_app.config`, and the factory of size limiters that it names. `key_before` is the order of
-- the database on texts, by which its queries sort keys.
pub record Config : Type 0 where
  pub key_before : String → String → Bool
  pub size_limiters : Bucket → List FileSizeLimit
  pub storage_class_list : List String
  pub default_storage_class : String
  pub default_quota_size : Option ℕ
  pub default_max_file_size : Option ℕ
  pub min_file_size : ℕ
  pub object_key_max_len : ℕ
  pub file_uri_max_len : ℕ
  pub path_split_length : ℕ
  pub path_dimensions : ℕ
  pub multipart_max_parts : ℕ
  pub multipart_chunksize_min : ℕ
  pub multipart_chunksize_max : ℕ
  pub multipart_expires : ℕ
