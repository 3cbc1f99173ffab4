-- ===== src/Samples.antt =====
-- A small session on which the tests run: a bucket with two objects, one of them a delete marker.
use invenio_files_rest.Prelude.{◌+◌, true, false, none, some, [], ◌∷◌, String, arith, eq_iff, ◌≢◌}
use mathlib.Core.Bool.{false≢true}
use invenio_files_rest.Prelude.Int.{pos}
use invenio_files_rest.Schema.{Location, Bucket, FileInstance, ObjectVersion}
use invenio_files_rest.Session.{Session, ok}
use invenio_files_rest.Storage.{Backend}
use invenio_files_rest.Config.{default_config}
use invenio_files_rest.ObjectVersion.Heads.{IsWellFormed}

abbrev pub place : Location
place = record { id = 1; name = "main"; uri = "/data"; default = true }

abbrev pub bucket : Bucket
bucket = record {
  id = 7;
  default_location = 1;
  default_storage_class = "S";
  size = pos 30;
  quota_size = some 100;
  max_file_size = some 50;
  locked = false;
  deleted = false;
}

abbrev pub file : FileInstance
file = record {
  id = 10;
  uri = some "/data/10";
  storage_class = some "S";
  size = 30;
  checksum = some "md5:aa";
  readable = true;
  writable = false;
  last_check_at = none;
  last_check = some true;
}

abbrev pub version : ObjectVersion
version = record {
  version_id = 20;
  key = "a";
  bucket_id = 7;
  file_id = some 10;
  mimetype = none;
  is_head = true;
  created = 1;
}

abbrev pub marker : ObjectVersion
marker = record {
  version_id = 21;
  key = "b";
  bucket_id = 7;
  file_id = none;
  mimetype = none;
  is_head = true;
  created = 2;
}

-- A storage that keeps no data.
abbrev pub backend : Backend
backend = record {
  initialize = λ f n. ok ("/data/new", n, none);
  save = λ f stream size limit. ok ("/data/new", 3, none);
  update = λ f stream seek size. ok (3, none);
  checksum = λ f. ok (some "md5:bb");
  copy = λ f source. ok ("/data/copy", source.size, source.checksum);
  delete = λ f. ok tt;
}

abbrev pub session : Session
session = record {
  db = record {
    locations = place ∷ [];
    buckets = bucket ∷ [];
    bucket_tags = [];
    files = file ∷ [];
    objects = version ∷ marker ∷ [];
    object_tags = record { version_id = 20; key = "kind"; value = "text" } ∷ [];
    multiparts = [];
    parts = [];
  };
  config = default_config (λ a b. false);
  uuids = λ n. 1000 + n;
  times = λ n. 100 + n;
  queue = [];
}

pub keys_differ : ◌≢◌ {A = String} "a" "b"
keys_differ p = false≢true ((eq_iff "a" "b").1 p)

pub session-IsWellFormed : IsWellFormed session.db
session-IsWellFormed = record {
  unique_versions = λ v. ground arith;
  unique_heads = λ b k. ground (arith, eq_iff "a" k, eq_iff "b" k, keys_differ);
}
