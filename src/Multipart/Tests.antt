-- ===== src/Multipart/Tests.antt =====
-- An upload of 25 bytes in parts of 10.
use invenio_files_rest.Prelude.{
  ℕ, refl, String, none, some, [], ◌∷◌, ◌==◌, ◌&&◌, str_eq, if◌then◌else◌, true, ◌+◌, ◌*◌, ◌/◌, ◌≤◌,
  ◌<◌, ◌≡◌, ◌↔◌, ◌⊎◌, false, arith,
}
use invenio_files_rest.Prelude.Int.{pos}
use invenio_files_rest.Schema.{MultipartObject}
use invenio_files_rest.Multipart.Sizes.{
  start_byte, end_byte, part_size, last_part_size, last_part_number,
}
use invenio_files_rest.Multipart.Tiling.{IsPart, IsPart-iff, parts_tile, part_size_lem}
use invenio_files_rest.Prelude.Tables.{select}
use invenio_files_rest.Schema.{FileInstance}
use invenio_files_rest.Session.{Session, ok, err}
use invenio_files_rest.Errors.{multipart_missing_parts}
use invenio_files_rest.Multipart.Numbers.{IsNumbered}
use invenio_files_rest.Multipart.Adding.{IsGot, get_or_create_twice}
use invenio_files_rest.Multipart.Completing.{AllPresent, SomeMissing, PartsFit, complete_lem}
use invenio_files_rest.Bucket
use invenio_files_rest.ObjectVersion.Steps.{IsReady, new_version}
use invenio_files_rest.ObjectVersion.Effects.{head}
use invenio_files_rest.Multipart.Parts.{has_id, part_of, get_or_create}
use invenio_files_rest.Multipart.Uploads.{create, complete, merge_parts}
use invenio_files_rest.Multipart.Merging.{head-merge_parts}
use invenio_files_rest.Bucket.{instance_of}
use invenio_files_rest.Limiters.{file_size_limiters}
use invenio_files_rest.Prelude.Int.{◌+ℤ◌, ◌-ℤ◌}
use invenio_files_rest.Session.{◌>>=◌}
use invenio_files_rest.ObjectVersion.Quota.{IsWithinQuota}
use invenio_files_rest.Multipart.Quota.{create-IsWithinQuota}
use invenio_files_rest.Samples.{session, backend, bucket, file, session-IsWellFormed}

abbrev upload : MultipartObject
upload = record {
  upload_id = 5;
  bucket_id = 7;
  key = "a";
  file_id = 10;
  chunk_size = 10;
  size = 25;
  completed = false;
  created = 1;
}

parts_tile_example :
    (IsPart upload 1 × (start_byte upload 1 ≤ 13) × (13 < end_byte upload 1)) ↔ (1 ≡ 13 / 10)
parts_tile_example = parts_tile upload (omega arith) (omega arith) 13 (omega arith) 1

last-IsPart : IsPart upload 2
unfolding start_byte
last-IsPart = (IsPart-iff upload 2 (omega arith) (omega arith)).1 (omega arith)

part_size_example :
    (((2 + 1) * 10 ≤ 25) × (part_size upload 2 ≡ 10))
    ⊎ ((25 < (2 + 1) * 10)
        × (last_part_size upload ≡ ok (part_size upload 2))
        × (0 < part_size upload 2))
part_size_example = part_size_lem upload (omega arith) (omega arith) 2 last-IsPart

-- The sample session with a completed upload of 25 bytes.
abbrev uploaded : FileInstance
uploaded = record file { id = 12; size = 25; writable = false }

abbrev completed_upload : MultipartObject
completed_upload = record upload { key = "c"; file_id = 12; completed = true }

abbrev with_upload : Session
with_upload = record session {
  db = record session.db { files = file ∷ uploaded ∷ []; multiparts = completed_upload ∷ [] };
}

ready : IsReady 7 "c" none bucket with_upload
ready = record {
  bucket = refl;
  unlocked = refl;
  fits = refl;
  fresh = refl;
  valid = record {
    unique_versions = session-IsWellFormed.unique_versions;
    unique_heads = session-IsWellFormed.unique_heads;
  };
}

head-merge_parts_example :
    let t = (merge_parts backend 5 none with_upload).1 in
    ((b : ℕ) (key : String)
      → head b key t ≡ (
          if 7 == b && str_eq "c" key
          then ok (some (new_version 7 "c" (some 12) none none with_upload))
          else head b key with_upload))
    × (select (Bucket.has_id 7) t.buckets ≡ bucket ∷ [])
    × (select (has_id 5) t.multiparts ≡ [])
    × (select (part_of 5) t.parts ≡ [])
head-merge_parts_example =
    head-merge_parts backend 5 completed_upload uploaded (some "md5:bb") none bucket with_upload
      ready refl refl refl refl refl refl

-- The upload with all but one of its parts.
abbrev with_parts : Session
with_parts = record session {
  db = record session.db {
    multiparts = upload ∷ [];
    parts =
        record { upload_id = 5; part_number = 0; checksum = none }
        ∷ record { upload_id = 5; part_number = 2; checksum = none }
        ∷ [];
  };
}

with_parts-PartsFit : PartsFit 5 2 with_parts.parts
with_parts-PartsFit = record { unique = λ n. ground arith; none_past = refl }

complete_example :
    (((complete 5 with_parts).0 ≡ ok tt) × AllPresent 5 3 with_parts.parts)
    ⊎ ((complete 5 with_parts ≡ (err multipart_missing_parts, with_parts))
        × SomeMissing 5 3 with_parts.parts)
unfolding last_part_number
complete_example = complete_lem 5 2 upload with_parts refl refl refl with_parts-PartsFit

with_parts-IsNumbered : IsNumbered with_parts.db
with_parts-IsNumbered u n = ground arith

-- The part that is missing is got.
get_or_create_twice_example :
    IsGot 5 (pos 1) (pos 2) with_parts (get_or_create 5 (pos 1) with_parts)
unfolding last_part_number
get_or_create_twice_example =
    get_or_create_twice 5 (pos 1) upload (pos 2) with_parts with_parts-IsNumbered refl refl

-- The bucket has 12 bytes left, and parts may be as small as 5 bytes.
abbrev twelve_left : Session
twelve_left = record session {
  db = record session.db { buckets = record bucket { quota_size = some 42 } ∷ [] };
  config = record session.config { multipart_chunksize_min = 5 };
}

twelve_left-IsWithinQuota : IsWithinQuota twelve_left.db
twelve_left-IsWithinQuota = record { ids = λ i. ground arith; within = refl }

create-IsWithinQuota_example :
    IsWithinQuota (create backend (instance_of 7) "c" 12 10 twelve_left).1.db
create-IsWithinQuota_example =
    create-IsWithinQuota backend (instance_of 7) "c" 12 10 twelve_left refl
      twelve_left-IsWithinQuota

started :
    (create backend (instance_of 7) "c" 12 10 twelve_left).1.buckets
    ≡ record bucket { quota_size = some 42; size = pos 42 } ∷ []
unfolding create ◌>>=◌ file_size_limiters ◌-ℤ◌ ◌+ℤ◌
started = refl
