-- ===== src/Bucket/Syncing/Tests.antt =====
-- A bucket and its mirror, which has one object less: that is deleted in the first.
use invenio_files_rest.Prelude.{◌≡◌, refl, true, [], ◌∷◌}
use invenio_files_rest.Schema.{Bucket, ObjectVersion}
use invenio_files_rest.Session.{Session, ok}
use invenio_files_rest.Samples.{session, bucket, version, marker}
use invenio_files_rest.Bucket.Mirror.{sync, by_first}
use invenio_files_rest.Bucket.Syncing.{sync-settled}

abbrev target : Bucket
target = record bucket { id = 8 }

abbrev copied : ObjectVersion
copied = record version { version_id = 30; bucket_id = 8 }

abbrev mirrored : Session
mirrored = record session {
  db = record session.db {
    buckets = bucket ∷ target ∷ [];
    objects = version ∷ marker ∷ copied ∷ [];
  };
}

sync-settled_example : sync 7 8 true mirrored ≡ (ok [], mirrored)
unfolding by_first
sync-settled_example =
    sync-settled 7 8 true bucket target mirrored refl refl refl refl (refl, (refl, tt))
      (λ e. (refl, tt))
