-- ===== src/Rest/Quota/Tests.antt =====
-- Uploads to the sample bucket, which holds 30 of the 33 bytes of its quota.
use invenio_files_rest.Prelude.{
  ℕ, String, ◌≡◌, refl, false, true, none, some, Option, [], ◌∷◌, arith, ltb, if◌then◌else◌,
}
use invenio_files_rest.Prelude.Int.{pos, ◌+ℤ◌, ◌-ℤ◌}
use invenio_files_rest.Errors.{file_size_error}
use invenio_files_rest.Schema.{FileSizeLimit}
use invenio_files_rest.Session.{Session, Result, ok, err, ◌>>=◌}
use invenio_files_rest.Limiters.{file_size_limiters}
use invenio_files_rest.ObjectVersion.Creating.{demote_latest, add_new, attach_file}
use invenio_files_rest.Limiters.Bounds.{IsAtMost}
use invenio_files_rest.ObjectVersion.Quota.{IsWithinQuota}
use invenio_files_rest.Samples.{session, backend, bucket}
use invenio_files_rest.Rest.Request.{App, Request}
use invenio_files_rest.Rest.Factories.{stream_uploadfactory}
use invenio_files_rest.Rest.Objects.{create_object}
use invenio_files_rest.Rest.Quota.{create_object-IsWithinQuota}

-- What saving three bytes answers.
abbrev three : Option ℕ → String → Result (String × ℕ × Option String)
three none reason = ok ("/data/new", 3, none)
three (some n) reason = if ltb n 3 then err (file_size_error reason) else ok ("/data/new", 3, none)

abbrev save_three : Option FileSizeLimit → Result (String × ℕ × Option String)
save_three none = ok ("/data/new", 3, none)
save_three (some l) = three l.limit l.reason

abbrev app : App
app = record {
  backend = record backend { save = λ f stream size limit. save_three limit };
  upload_factories = stream_uploadfactory ∷ [];
  part_factories = [];
  xsendfile_enabled = false;
}

three-IsAtMost :
    (limit : Option ℕ) (reason uri : String) (m : ℕ) (c : Option String)
    → three limit reason ≡ ok (uri, m, c)
    → IsAtMost m limit
three-IsAtMost none reason uri m c e = tt
three-IsAtMost (some n) reason uri m c e = ground (arith, e)

abbrev upload : Request
upload = record {
  content_length = some (pos 3);
  content_type = none;
  content_md5 = none;
  header_tags = [];
  part_number = none;
  chunk_number = none;
  current_chunk_size = none;
  total_size = none;
  file = none;
  stream = (7 ∷ 8 ∷ 9 ∷ []) ∷ [];
  is_exhausted = false;
  is_authenticated = true;
  permission = λ t a. ok (some true);
  uuid = λ text. some 7;
}

abbrev nearly_full : Session
nearly_full = record session {
  db = record session.db { buckets = record bucket { quota_size = some 33 } ∷ [] };
}

nearly_full-IsWithinQuota : IsWithinQuota nearly_full.db
nearly_full-IsWithinQuota = record { ids = λ i. ground arith; within = refl }

create_object-IsWithinQuota_example :
    IsWithinQuota (create_object app upload 7 "c" nearly_full).1.db
create_object-IsWithinQuota_example =
    create_object-IsWithinQuota app
      (λ f stream size l uri m c e. three-IsAtMost l.limit l.reason uri m c e) upload 7 "c"
      nearly_full refl nearly_full-IsWithinQuota

abbrev full : Session
full = record session {
  db = record session.db { buckets = record bucket { quota_size = some 30 } ∷ [] };
}

refused_when_full :
    (create_object app upload 7 "c" full).0 ≡ err (file_size_error "Bucket quota exceeded.")
unfolding create_object ◌>>=◌ stream_uploadfactory file_size_limiters ◌-ℤ◌
refused_when_full = refl

filled :
    (create_object app upload 7 "c" nearly_full).1.buckets
    ≡ record bucket { quota_size = some 33; size = pos 33 } ∷ []
unfolding create_object ◌>>=◌ stream_uploadfactory file_size_limiters ◌-ℤ◌ ◌+ℤ◌ demote_latest
    add_new attach_file
filled = refl
