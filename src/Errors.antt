-- ===== src/Errors.antt =====
-- invenio_files_rest/errors.py: the exceptions that the code raises, with their HTTP status, and
-- the exceptions of Python, of the ORM and of the web framework that its paths raise too.
use invenio_files_rest.Prelude.{ℕ, String}

pub data Error : Type 0 where
  files_exception : String → Error
  storage_error : String → Error
  unexpected_file_size : String → Error
  invalid_operation : String → Error
  missing_query_parameter : String → Error
  file_instance_already_set : Error
  file_instance_unreadable : Error
  bucket_locked : Error
  invalid_key : Error
  file_size_error : String → Error
  multipart_already_completed : Error
  multipart_not_completed : Error
  multipart_invalid_chunk_size : Error
  multipart_invalid_part_number : Error
  multipart_invalid_size : Error
  multipart_missing_parts : Error
  multipart_no_part : Error
  invalid_tag : Error
  duplicate_tag : Error
  exhausted_stream : Error
  -- ValueError, AssertionError, RuntimeError; reading an attribute of `None`,
  -- comparing with `None`, NotImplementedError
  value_error : String → Error
  assertion_error : Error
  runtime_error : String → Error
  attribute_error : Error
  type_error : Error
  not_implemented : Error
  -- the ORM: `one_or_none` on several rows, a row that is gone, a violated constraint
  multiple_results : Error
  object_deleted : Error
  integrity_error : Error
  zero_division_error : Error
  key_error : Error
  plain_exception : String → Error
  -- `abort(status)`
  aborted : ℕ → Error

-- The `code` attributes; what is no `FilesException` is answered by the framework with 500.
unfoldable pub status : Error → ℕ
status (files_exception m) = 500
status (storage_error m) = 500
status (unexpected_file_size m) = 400
status (invalid_operation m) = 403
status (missing_query_parameter m) = 400
status file_instance_already_set = 403
status file_instance_unreadable = 503
status bucket_locked = 403
status invalid_key = 400
status (file_size_error m) = 400
status multipart_already_completed = 403
status multipart_not_completed = 400
status multipart_invalid_chunk_size = 400
status multipart_invalid_part_number = 400
status multipart_invalid_size = 400
status multipart_missing_parts = 400
status multipart_no_part = 400
status invalid_tag = 400
status duplicate_tag = 400
status exhausted_stream = 500
status (aborted n) = n
status e = 500
