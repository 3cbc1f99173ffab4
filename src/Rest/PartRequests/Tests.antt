-- ===== src/Rest/PartRequests/Tests.antt =====
-- A part of the sample upload is sent, and is answered with its row.
use invenio_files_rest.Prelude.{some, none, [], ◌∷◌, true, false}
use invenio_files_rest.Prelude.Int.{pos}
use invenio_files_rest.Schema.{MultipartObject}
use invenio_files_rest.Session.{Session, ok}
use invenio_files_rest.Samples.{session, backend}
use invenio_files_rest.Rest.Request.{App, Request}
use invenio_files_rest.Rest.Factories.{default_partfactory}

abbrev app : App
app = record {
  backend = backend;
  upload_factories = [];
  part_factories = default_partfactory ∷ [];
  xsendfile_enabled = false;
}

abbrev request : Request
request = record {
  content_length = some (pos 5);
  content_type = none;
  content_md5 = none;
  header_tags = [];
  part_number = some (pos 2);
  chunk_number = none;
  current_chunk_size = none;
  total_size = none;
  file = none;
  stream = (1 ∷ 2 ∷ 3 ∷ 4 ∷ 5 ∷ []) ∷ [];
  is_exhausted = false;
  is_authenticated = true;
  permission = λ t a. ok (some true);
  uuid = λ text. some 7;
}

-- 25 bytes in parts of 10; the first two parts are there.
abbrev upload : MultipartObject
upload = record {
  upload_id = 5;
  bucket_id = 7;
  key = "a";
  file_id = 10;
  chunk_size = 10;
  size = 25;
  completed = false;
  created = 1;
}

abbrev uploading : Session
uploading = record session {
  db = record session.db {
    multiparts = upload ∷ [];
    parts =
        record { upload_id = 5; part_number = 0; checksum = none }
        ∷ record { upload_id = 5; part_number = 1; checksum = none }
        ∷ [];
  };
}
