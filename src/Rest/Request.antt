-- ===== src/Rest/Request.antt =====
-- Requests, as webargs hands them to the views, and responses, as the views hand them to the
-- serializer. A field that webargs cannot read is missing.
use invenio_files_rest.Prelude.{ℕ, String, Bool, Option, List}
use invenio_files_rest.Prelude.Int.{ℤ}
use invenio_files_rest.Schema.{ObjectVersion, MultipartObject, Part, Config}
use invenio_files_rest.Session.{Result}
use invenio_files_rest.Storage.{Backend}
use invenio_files_rest.Storage.Writing.{Stream}
use invenio_files_rest.Permissions.{Access, Target}

-- The file of a multipart form.
pub record FormFile : Type 0 where
  pub stream : Stream
  pub content_type : Option String

pub record Request : Type 0 where
  -- The headers `Content-Length`, `Content-Type` and `Content-MD5`.
  pub content_length : Option ℤ
  pub content_type : Option String
  pub content_md5 : Option String
  -- `parse_qsl` of the header with the tags.
  pub header_tags : List (String × String)
  -- The query parameter `partNumber`, and the form fields `_chunkNumber`, `_currentChunkSize`,
  -- `_totalSize` and `file`.
  pub part_number : Option ℤ
  pub chunk_number : Option ℤ
  pub current_chunk_size : Option ℤ
  pub total_size : Option ℤ
  pub file : Option FormFile
  pub stream : Stream
  pub is_exhausted : Bool
  -- The current user: whether they are known, and what the configured permission factory and
  -- `can()` answer; `none` where the factory returns no permission to check.
  pub is_authenticated : Bool
  pub permission : Target → Access → Result (Option Bool)
  -- `uuid.UUID`, none for a `ValueError`.
  pub uuid : String → Option ℕ

-- What an upload factory returns.
pub record Upload : Type 0 where
  pub stream : Stream
  pub content_length : Option ℤ
  pub content_md5 : Option String
  pub tags : Option (List (String × String))

-- What a part factory returns.
pub record PartUpload : Type 0 where
  pub content_length : Option ℤ
  pub part_number : ℤ
  pub stream : Stream
  pub content_type : Option String
  pub content_md5 : Option String

-- The application: its storage, its factories, and `FILES_REST_XSENDFILE_ENABLED`.
pub record App : Type 0 where
  pub backend : Backend
  pub upload_factories : List (Request → Config → Result Upload)
  pub part_factories : List (Request → Config → Result PartUpload)
  pub xsendfile_enabled : Bool

-- The data of a response, with the checksum that is sent as its ETag where there is one.
pub data Response : Type 0 where
  bucket_data : ℕ → Response
  object_data : ℕ → Option String → Response
  objects_data : List ObjectVersion → Response
  upload_data : ℕ → Option ℕ → Response
  uploads_data : List MultipartObject → Response
  part_data : Option Part → Response
  parts_data : List Part → Response
  -- The contents of a file, as an attachment or inline; by a redirection to the front server.
  file_contents : ℕ → Bool → Response
  redirection : ObjectVersion → Response
  no_content : Response
  empty : Response
