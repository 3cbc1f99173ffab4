-- ===== src/Multipart/Quota.antt =====
-- `MultipartObject.create` of models.py and the quota of the bucket.
use Prim.Native.String.{count as text_count}
use invenio_files_rest.Prelude.{
  ℕ, String, Option, none, some, List, [], ◌∷◌, ◌≡◌, refl, arith, inl, inr, not, ltb, Bool-cases,
}
use invenio_files_rest.Prelude.Tables.{select, update}
use invenio_files_rest.Schema.{FileSizeLimit, Bucket as BucketRow, FileInstance as FileRow}
use invenio_files_rest.Errors.{
  attribute_error, bucket_locked, multipart_invalid_chunk_size, multipart_invalid_size,
}
use invenio_files_rest.Session.{
  Session, ok, pure, gets, or_raise, raise_if, if_some, ◌>>=◌, begin_nested, modify_files,
}
use invenio_files_rest.Session.Keeps.{Keeps, bind-at, keeps_rules}
use invenio_files_rest.Session.Reads.{
  Reads, reads_then, keeps_known, reads_rules, Reads-or_raise, Reads-raise_if, Reads-gets,
}
use invenio_files_rest.Storage.{Backend}
use invenio_files_rest.Limiters
use invenio_files_rest.Limiters.{file_size_limiters, less_than}
use invenio_files_rest.Limiters.Bounds.{IsAtMost}
use invenio_files_rest.FileInstance
use invenio_files_rest.Bucket
use invenio_files_rest.Bucket.{BucketArg, instance_of, by_id}
use invenio_files_rest.ObjectVersion.Quota.{
  IsWithinQuota, IsWithinQuota-same, IsAllowed, grown, grown-over_quota, grown-IsWithinQuota,
  row-within, limit-IsAtMost, size_limit-Reads, size_limit_row, read_here,
}
use invenio_files_rest.Multipart.Sizes.{is_valid_chunksize, is_valid_size}
use invenio_files_rest.Multipart.Uploads.{create, add_new, check_limit}

-- The check that is passed says that the size is allowed.
check-IsAllowed :
    (size : ℕ) (limit : Option FileSizeLimit) (s t : Session)
    → if_some limit (check_limit size) (pure tt) s ≡ (ok tt, t)
    → IsAllowed size limit
unfolding ◌>>=◌ less_than
check-IsAllowed size none s t e = tt
check-IsAllowed size (some l) s t e = go l.limit refl
  where
    go : (n : Option ℕ) → l.limit ≡ n → IsAtMost size n
    go none h = tt
    go (some n) h = ground (arith, h, e)

as_bucket-Reads : (arg : BucketArg) → Reads (Bucket.as_bucket arg)
unfolding Bucket.as_bucket
as_bucket-Reads (instance_of i) = search reads_rules depth 9
as_bucket-Reads (by_id i) = search reads_rules depth 9

row-Reads : (b : ℕ) → Reads (Bucket.row b)
row-Reads b = search reads_rules depth 9

check-Reads :
    (size : ℕ) (limit : Option FileSizeLimit) → Reads (if_some limit (check_limit size) (pure tt))
check-Reads size limit = search reads_rules depth 9

files-Keeps : (f : List FileRow → List FileRow) → Keeps IsWithinQuota (modify_files f)
unfolding modify_files
files-Keeps f = record { at = λ s w. record { ids = w.ids; within = w.within } }

init_contents-Keeps :
    (backend : Backend) (i size : ℕ)
    → Keeps IsWithinQuota (FileInstance.init_contents backend i size)
unfolding FileInstance.init_contents FileInstance.ensure_writable FileInstance.set_uri
    FileInstance.validate_uri
init_contents-Keeps backend i size = search (keeps_rules, files-Keeps) depth 16

-- The savepoint adds the size to the bucket, or is rolled back.
add_new-kept :
    (b : ℕ) (key : String) (size chunk_size : ℕ) (r : BucketRow) (s : Session)
    → IsWithinQuota s.db
    → select (Bucket.has_id b) s.buckets ≡ r ∷ []
    → IsAtMost size (Limiters.quota_left r)
    → IsWithinQuota (begin_nested (add_new b key size chunk_size) s).1.db
unfolding add_new ◌>>=◌
add_new-kept b key size chunk_size r s w bucket fits =
    elim (Bool-cases (ltb s.config.object_key_max_len (text_count key))) [
      | inl long ↦
          IsWithinQuota-same s.db (begin_nested (add_new b key size chunk_size) s).1.db
            (ground (arith, long)) w
      | inr short ↦
          IsWithinQuota-same
            (record s.db { buckets = update (Bucket.has_id b) (grown size) s.buckets })
            (begin_nested (add_new b key size chunk_size) s).1.db (ground (arith, short))
            (grown-IsWithinQuota b size r s.db (update (Bucket.has_id b) (grown size) s.buckets) w
              bucket (grown-over_quota r.quota_size r size refl (row-within r s.db b w bucket) fits)
              refl)
    ]

-- Where the configured limiters are the default ones, no two buckets have the same identifier and
-- none is larger than its quota, MultipartObject.create, which adds the whole size of the upload
-- to its bucket, leaves every bucket within its quota, whatever the storage backend answers and
-- whichever step raises.
pub create-IsWithinQuota :
    (backend : Backend) (arg : BucketArg) (key : String) (size chunk_size : ℕ) (s : Session)
    → s.config.size_limiters ≡ file_size_limiters
    → IsWithinQuota s.db
    → IsWithinQuota (create backend arg key size chunk_size s).1.db
unfolding create
create-IsWithinQuota backend arg key size chunk_size s standard w =
    reads_then IsWithinQuota (Bucket.as_bucket arg) _ s (as_bucket-Reads arg) w λ found.
      reads_then IsWithinQuota (or_raise found attribute_error) _ s
        (Reads-or_raise found attribute_error) w
        λ b. reads_then IsWithinQuota (Bucket.row b) _ s (row-Reads b) w λ r.
          reads_then IsWithinQuota (raise_if r.locked bucket_locked) _ s
            (Reads-raise_if r.locked bucket_locked) w
            λ _.
              reads_then IsWithinQuota (gets (λ u. u.config)) _ s (Reads-gets (λ u. u.config)) w
                λ config.
                  reads_then IsWithinQuota
                    (raise_if (not (is_valid_chunksize config chunk_size))
                      multipart_invalid_chunk_size)
                    _ s (Reads-raise_if _ multipart_invalid_chunk_size) w
                    λ _.
                      reads_then IsWithinQuota
                        (raise_if (not (is_valid_size config size chunk_size))
                          multipart_invalid_size)
                        _ s (Reads-raise_if _ multipart_invalid_size) w
                        λ _.
                          keeps_known IsWithinQuota (Bucket.size_limit b) _ s (size_limit-Reads b) w
                            λ limit t e.
                              limited b limit
                                (read_here (Bucket.size_limit b) (size_limit-Reads b) e)
  where
    limited :
        (b : ℕ) (limit : Option FileSizeLimit)
        → Bucket.size_limit b s ≡ (ok limit, s)
        → IsWithinQuota
            ((if_some limit (check_limit size) (pure tt) >>= λ _.
                begin_nested (add_new b key size chunk_size) >>= λ (u, i).
                FileInstance.init_contents backend i size >>= λ _. pure u)
              s).1.db
    limited b limit found =
        let (r, bucket, least) = size_limit_row b limit s standard w found in
        keeps_known IsWithinQuota (if_some limit (check_limit size) (pure tt)) _ s
          (check-Reads size limit) w
          λ _ t e.
            bind-at {P = IsWithinQuota} (begin_nested (add_new b key size chunk_size))
              (λ (u, i). FileInstance.init_contents backend i size >>= λ _. pure u) s
              (add_new-kept b key size chunk_size r s w bucket
                (limit-IsAtMost r limit least size (check-IsAllowed size limit s t e)))
              (λ (u, i). search (keeps_rules, init_contents-Keeps) depth 6)
