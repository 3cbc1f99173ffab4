-- ===== src/Rest/Tests.antt =====
-- Requests to the sample session.
use invenio_files_rest.Prelude.{◌≡◌, refl, ◌⊎◌, true, false, none, some, [], ◌∷◌, arith, eq_iff}
use invenio_files_rest.Prelude.Int.{pos, ◌-ℤ◌}
use invenio_files_rest.Errors.{Error, multipart_invalid_chunk_size}
use invenio_files_rest.Schema.{ObjectVersion, MultipartObject}
use invenio_files_rest.Session.{Session, ok, err, ◌>>=◌}
use invenio_files_rest.Samples.{session, backend, version}
use invenio_files_rest.Multipart.Sizes.{last_part_number, part_size, start_byte}
use invenio_files_rest.Multipart.Tiling.{IsPart-iff}
use invenio_files_rest.Multipart.Uploads as Multiparts
use invenio_files_rest.ObjectVersion.Heads.{IsWellFormed}
use invenio_files_rest.Permissions.{Target, Access}
use invenio_files_rest.Rest.Request.{App, Request, PartUpload}
use invenio_files_rest.Rest.Factories.{
  default_partfactory, ngfileupload_partfactory, stream_uploadfactory, ngfileupload_uploadfactory,
  read_tags, multipart_partfactory,
}
use invenio_files_rest.Rest.Access.{pass_multipart, default_permission}
use invenio_files_rest.Rest.Objects.{remove_version}
use invenio_files_rest.Rest.Uploads.{part_length, upload_part}
use invenio_files_rest.Rest.Views.{Call, delete_object_or_upload, handle}
use invenio_files_rest.Rest.Denied.{handle_denied}
use invenio_files_rest.Rest.Heads.{Succeeded}
use invenio_files_rest.Rest.Removing.{remove_version-Succeeded}
use invenio_files_rest.Rest.PartSizes.{upload_part-exact, part_length-eq-part_size}
use invenio_files_rest.Rest.HeaderTags.{AllValid, NoRepeat, read_tags_lem}

abbrev app : App
app = record {
  backend = backend;
  upload_factories = stream_uploadfactory ∷ ngfileupload_uploadfactory ∷ [];
  part_factories = default_partfactory ∷ ngfileupload_partfactory ∷ [];
  xsendfile_enabled = false;
}

-- A user without permissions sends part 1 of an upload.
abbrev request : Request
request = record {
  content_length = some (pos 10);
  content_type = none;
  content_md5 = none;
  header_tags = [];
  part_number = some (pos 1);
  chunk_number = none;
  current_chunk_size = none;
  total_size = none;
  file = none;
  stream = (7 ∷ 8 ∷ []) ∷ [];
  is_exhausted = false;
  is_authenticated = true;
  permission = λ t a. ok (some false);
  uuid = λ text. some 7;
}

abbrev removal : Call
removal = delete_object_or_upload "7" "a" (some 20) none false

handle_denied_example : (e : Error) × (handle app request removal session ≡ (err e, session))
handle_denied_example = handle_denied app request removal session (λ t. refl)

abbrev older : ObjectVersion
older = record version { version_id = 19; is_head = false; created = 0 }

abbrev two_versions : Session
two_versions = record session { db = record session.db { objects = version ∷ older ∷ [] } }

two_versions-IsWellFormed : IsWellFormed two_versions.db
two_versions-IsWellFormed = record {
  unique_versions = λ v. ground arith;
  unique_heads = λ b k. ground (arith, eq_iff "a" k);
}

remove_version-Succeeded_example :
    let (r, t) = remove_version version two_versions in
    ((r ≡ ok tt) × IsWellFormed t.db × Succeeded 7 "a" t.objects)
    ⊎ ((e : Error) × (r ≡ err e) × (t.db ≡ two_versions.db))
remove_version-Succeeded_example =
    remove_version-Succeeded version two_versions two_versions-IsWellFormed refl refl

abbrev even_upload : MultipartObject
even_upload = record {
  upload_id = 5;
  bucket_id = 7;
  key = "a";
  file_id = 10;
  chunk_size = 10;
  size = 20;
  completed = false;
  created = 1;
}

abbrev uploading : Session
uploading = record session { db = record session.db { multiparts = even_upload ∷ [] } }

abbrev second_part : PartUpload
second_part = record {
  content_length = some (pos 10);
  part_number = pos 1;
  stream = request.stream;
  content_type = none;
  content_md5 = none;
}

upload_part-exact_example :
    upload_part app request 7 "a" 5 uploading ≡ (err multipart_invalid_chunk_size, uploading)
unfolding pass_multipart ◌>>=◌ multipart_partfactory default_partfactory last_part_number
    Multiparts.get ◌-ℤ◌
upload_part-exact_example =
    upload_part-exact app request 7 "a" 5 even_upload second_part (pos 10) uploading refl refl refl
      refl refl (λ e. ground (arith, e))

abbrev odd_upload : MultipartObject
odd_upload = record even_upload { size = 25 }

part_length-eq-part_size_example : part_length odd_upload (pos 2) ≡ ok (part_size odd_upload 2)
unfolding start_byte
part_length-eq-part_size_example =
    part_length-eq-part_size odd_upload 2 (omega arith) (omega arith)
      ((IsPart-iff odd_upload 2 (omega arith) (omega arith)).1 (omega arith))

read_tags_example :
    ((read_tags (("a", "1") ∷ ("b", "2") ∷ []) [] ≡ ok (("a", "1") ∷ ("b", "2") ∷ []))
      × AllValid (("a", "1") ∷ ("b", "2") ∷ [])
      × NoRepeat (("a", "1") ∷ ("b", "2") ∷ []))
    ⊎ ((e : Error) × (read_tags (("a", "1") ∷ ("b", "2") ∷ []) [] ≡ err e)
        × (AllValid (("a", "1") ∷ ("b", "2") ∷ []) × NoRepeat (("a", "1") ∷ ("b", "2") ∷ []) → ⊥))
read_tags_example = read_tags_lem (("a", "1") ∷ ("b", "2") ∷ [])

default_access : default_permission (λ n. true) Target.nothing Access.bucket_read ≡ ok (some true)
unfolding default_permission
default_access = refl
