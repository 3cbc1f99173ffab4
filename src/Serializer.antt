-- ===== src/Serializer.antt =====
-- serializer.py: the fields and links that are sent to the client, and the response that waits for a
-- task. `url_for` of Flask is a parameter: the link to a bucket, and that to an object with its
-- query parameters.
pub mod Waiting
pub mod Response
mod Tests
use invenio_files_rest.Prelude.{
  ℕ, ◌/◌, ◌==◌, String, ◌++◌, Bool, true, false, Option, none, some, List, [], ◌∷◌, ◌&&◌, ◌||◌, not,
  is_some, if◌then◌else◌, map,
}
use invenio_files_rest.Prelude.Int.{ℤ, pos}
use invenio_files_rest.Schema.{
  Bucket, ObjectVersion, ObjectVersionTag, MultipartObject, Part, FileInstance,
}
use invenio_files_rest.Session.{Result, ok, and_then}
use invenio_files_rest.Multipart.Sizes.{last_part_number, last_part_size, start_byte, end_byte}
use invenio_files_rest.ObjectVersion.Reading.{deleted}
use invenio_files_rest.Helpers.Mimetypes.{Library}
use invenio_files_rest.Helpers.Sending.{mimetype}

-- A query parameter of a link.
pub data Parameter : Type 0 where
  version_id : ℕ → Parameter
  upload_id : ℕ → Parameter

-- A link, and the text that is added to it.
pub record Link : Type 0 where
  pub url : String
  pub suffix : String

abbrev pub Links : Type 0
Links = List (String × Link)

pub record BucketData : Type 0 where
  pub id : ℕ
  pub size : ℤ
  pub quota_size : Option ℕ
  pub max_file_size : Option ℕ
  pub locked : Bool
  pub links : Links

pub record ObjectData : Type 0 where
  pub key : String
  pub version_id : ℕ
  pub is_head : Bool
  pub mimetype : String
  pub size : Option ℕ
  pub checksum : Option String
  pub delete_marker : Bool
  pub tags : List (String × String)
  pub links : Links

pub record UploadData : Type 0 where
  pub id : ℕ
  pub bucket : ℕ
  pub key : String
  pub completed : Bool
  pub size : ℕ
  pub part_size : ℕ
  pub last_part_number : ℤ
  pub last_part_size : ℕ
  pub links : Links

pub record PartData : Type 0 where
  pub part_number : ℕ
  pub start_byte : ℕ
  pub end_byte : ℕ
  pub checksum : Option String

module _ (bucket_url : ℕ → String) (object_url : ℕ → String → List Parameter → String) where
  -- `BucketSchema.dump_links`
  unfoldable pub bucket_links : Bucket → Links
  bucket_links b =
      ("self", record { url = bucket_url b.id; suffix = "" })
      ∷ ("versions", record { url = bucket_url b.id; suffix = "?versions" })
      ∷ ("uploads", record { url = bucket_url b.id; suffix = "?uploads" })
      ∷ []

  -- `BucketSchema`
  unfoldable pub dump_bucket : Bucket → BucketData
  unfolding bucket_links
  dump_bucket b = record {
    id = b.id;
    size = b.size;
    quota_size = b.quota_size;
    max_file_size = b.max_file_size;
    locked = b.locked;
    links = bucket_links b;
  }

  -- `ObjectVersionSchema.dump_links`
  unfoldable pub object_links : ObjectVersion → Links
  object_links o =
      let params = version_id o.version_id ∷ [] in
      (
        "self",
        record {
          url = object_url o.bucket_id o.key (if not o.is_head || deleted o then params else []);
          suffix = "";
        },
      )
      ∷ ("version", record { url = object_url o.bucket_id o.key params; suffix = "" })
      ∷ (if o.is_head && not (deleted o)
          then ("uploads", record { url = object_url o.bucket_id o.key []; suffix = "?uploads" })
            ∷ []
          else [])

  -- `ObjectVersionSchema`, with the MIME type that is guessed where none is set, the file of the version, if it has one, and its tags.
  unfoldable pub dump_object :
      Library
      → (String → Option String)
      → ObjectVersion
      → Option FileInstance
      → List ObjectVersionTag
      → ObjectData
  unfolding object_links mimetype
  dump_object library guess_encoding o file tags = record {
    key = o.key;
    version_id = o.version_id;
    is_head = o.is_head;
    mimetype = mimetype library guess_encoding o;
    size = elim file [ none ↦ none | some f ↦ some f.size ];
    checksum = elim file [ none ↦ none | some f ↦ f.checksum ];
    delete_marker = deleted o;
    tags = map (λ t. (t.key, t.value)) tags;
    links = object_links o;
  }

  abbrev version_link : MultipartObject → Option ℕ → Links
  version_link m none = []
  version_link m (some v) =
      (
        "object_version",
        record { url = object_url m.bucket_id m.key (version_id v ∷ []); suffix = "" },
      )
      ∷ []

  -- `MultipartObjectSchema.dump_links`, with the version and whether there is a bucket in the context.
  unfoldable pub upload_links : MultipartObject → Option ℕ → Bool → Links
  upload_links m version with_bucket =
      (
        "self",
        record { url = object_url m.bucket_id m.key (upload_id m.upload_id ∷ []); suffix = "" },
      )
      ∷ ("object", record { url = object_url m.bucket_id m.key []; suffix = "" })
      ∷ (version_link m version
          ++ (if with_bucket
              then ("bucket", record { url = bucket_url m.bucket_id; suffix = "" }) ∷ []
              else []))

  -- `MultipartObjectSchema`
  unfoldable pub dump_upload : MultipartObject → Option ℕ → Bool → Result UploadData
  unfolding upload_links last_part_number last_part_size
  dump_upload m version with_bucket = and_then (last_part_number m) λ number.
      and_then (last_part_size m) λ size. ok (record {
        id = m.upload_id;
        bucket = m.bucket_id;
        key = m.key;
        completed = m.completed;
        size = m.size;
        part_size = m.chunk_size;
        last_part_number = number;
        last_part_size = size;
        links = upload_links m version with_bucket;
      })

-- `PartSchema`
unfoldable pub dump_part : MultipartObject → Part → PartData
unfolding start_byte end_byte
dump_part m p = record {
  part_number = p.part_number;
  start_byte = start_byte m p.part_number;
  end_byte = end_byte m p.part_number;
  checksum = p.checksum;
}

-- The envelopes of lists: objects with their bucket, parts with their upload.
pub record ObjectListing : Type 0 where
  pub contents : List ObjectData
  pub bucket : Option BucketData

pub record PartListing : Type 0 where
  pub parts : List PartData
  pub multipart : Option UploadData

module _ (bucket_url : ℕ → String) (object_url : ℕ → String → List Parameter → String) where
  -- `ObjectVersionSchema.wrap` for a list
  unfoldable pub wrap_objects : List ObjectData → Option Bucket → ObjectListing
  unfolding dump_bucket
  wrap_objects objects bucket = record {
    contents = objects;
    bucket = elim bucket [ none ↦ none | some b ↦ some (dump_bucket bucket_url object_url b) ];
  }

  -- `PartSchema.wrap` for a list; the upload is dumped with its bucket in the context.
  unfoldable pub wrap_parts : List PartData → Option MultipartObject → Result PartListing
  unfolding dump_upload
  wrap_parts dumped none = ok (record { parts = dumped; multipart = none })
  wrap_parts dumped (some m) =
      and_then (dump_upload bucket_url object_url m none true)
        (λ data_. ok (record { parts = dumped; multipart = some data_ }))

-- `max_rounds` of `json_serializer`: the number of rounds for an interval in whole seconds. An
-- interval of 0 is an error of Python.
unfoldable pub max_rounds : ℕ → ℕ → Option ℕ
max_rounds seconds interval = if interval == 0 then none else some (seconds / interval)
