-- ===== src/Tags/Tests.antt =====
-- Tags of the sample bucket.
use invenio_files_rest.Prelude.{
  ℕ, String, List, ◌==◌, if◌then◌else◌, refl, ◌≡◌, none, some, [], ◌∷◌, arith,
}
use invenio_files_rest.Schema.{ObjectVersionTag}
use invenio_files_rest.Tags.OfVersion.{copy_all}
use invenio_files_rest.Tags.Copying
use invenio_files_rest.Session.{Session, ok}
use invenio_files_rest.Bucket
use invenio_files_rest.Bucket.{instance_of, by_id}
use invenio_files_rest.Samples.{session}
use invenio_files_rest.Tags.OfBucket.{create_or_update, delete}
use invenio_files_rest.Tags.Laws.{
  HasUniqueTags, value, get_value-create_or_update, get_value-delete,
}

abbrev tagged : Session
tagged = record session {
  db = record session.db {
    bucket_tags = record { bucket_id = 7; key = "kind"; value = "raw" } ∷ [];
  };
}

tagged-HasUniqueTags : HasUniqueTags tagged
tagged-HasUniqueTags b key = ground arith

get_value-create_or_update_example :
    value (by_id 7) "kind" (create_or_update (instance_of 7) "kind" "final" tagged).1
    ≡ ok (some "final")
unfolding Bucket.as_bucket_id
get_value-create_or_update_example =
    get_value-create_or_update (instance_of 7) "kind" "final" tagged tagged-HasUniqueTags (by_id 7)
      "kind"

get_value-delete_example : value (by_id 7) "kind" (delete (instance_of 7) "kind" tagged).1 ≡ ok none
unfolding Bucket.as_bucket_id
get_value-delete_example = get_value-delete (instance_of 7) "kind" tagged (by_id 7) "kind"

-- Two tags are copied to a version that has none.
abbrev two_tags : List ObjectVersionTag
two_tags =
    record { version_id = 20; key = "kind"; value = "text" }
    ∷ record { version_id = 20; key = "lang"; value = "en" }
    ∷ []

session-HasUniqueTags : Copying.HasUniqueTags session
session-HasUniqueTags v key = ground arith

copy_all_example :
    ((copy_all 21 two_tags session).0 ≡ ok tt)
    × Copying.HasUniqueTags (copy_all 21 two_tags session).1
    × ((c : ℕ) (k : String)
        → Copying.value c k (copy_all 21 two_tags session).1 ≡ (
            if 21 == c
            then Copying.last_value k two_tags (Copying.value c k session)
            else Copying.value c k session))
copy_all_example =
    Copying.copy_all_lem 21 two_tags session ((refl, refl), ((refl, refl), tt))
      session-HasUniqueTags
