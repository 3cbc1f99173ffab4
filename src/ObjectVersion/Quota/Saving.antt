-- ===== src/ObjectVersion/Quota/Saving.antt =====
-- `ObjectVersion.set_contents` and the quota of the version's bucket.
use mathlib.Core.Path.{subst}
use invenio_files_rest.Prelude.Int.{ℤ}
use invenio_files_rest.Prelude.{
  ℕ, String, Option, none, some, List, [], ◌∷◌, ◌≡◌, refl, sym, ◌⊎◌, arith, Option-cases, inl, inr,
}
use invenio_files_rest.Prelude.Tables.{select, select_cases, update}
use invenio_files_rest.Schema.{
  Bucket as BucketRow, FileInstance as FileRow, FileSizeLimit, ObjectVersion,
}
use invenio_files_rest.Session.{Session, Result, ok, err, ◌>>=◌}
use invenio_files_rest.Session.Reads.{Result-cases}
use invenio_files_rest.Errors.{Error, object_deleted, file_instance_already_set}
use invenio_files_rest.Storage.{Backend}
use invenio_files_rest.Storage.Writing.{Stream}
use invenio_files_rest.Limiters
use invenio_files_rest.Limiters.{quota_left, file_size_limiters}
use invenio_files_rest.Limiters.Bounds.{IsAtMost}
use invenio_files_rest.Bucket
use invenio_files_rest.ObjectVersion.Reading.{has_version}
use invenio_files_rest.ObjectVersion.Creating.{set_contents, limit_or}
use invenio_files_rest.ObjectVersion.Quota.{
  grown, grown-over_quota, IsAllowed, row-within, IsWithinQuota, grown-IsWithinQuota,
  IsWithinQuota-same, limit-IsAtMost,
}
use invenio_files_rest.ObjectVersion.Quota.Outcomes.{
  new_file, opened_outcome, set_contents_err, set_contents_ok,
}

-- The limit that is given, or the bucket's own, keeps to the quota of the version's bucket.
abbrev pub LimitFor : Option FileSizeLimit → ObjectVersion → Session → Type 0
LimitFor given o s =
    ((e : Error) × (limit_or given o.bucket_id s ≡ (err e, s)))
    ⊎ ((r : BucketRow) × (limit : Option FileSizeLimit) × (select (Bucket.has_id o.bucket_id)
            s.buckets
          ≡ r ∷ [])
        × (limit_or given o.bucket_id s ≡ (ok limit, s))
        × ((m : ℕ) → IsAllowed m limit → IsAtMost m (quota_left r)))

module _ (backend : Backend)
    (save_bounded : (f : FileRow) (stream : Stream) (size : Option ℤ) (l : FileSizeLimit)
        (uri : String) (m : ℕ) (c : Option String)
      → backend.save f stream size (some l) ≡ ok (uri, m, c)
      → IsAtMost m l.limit) where
  saved-IsAllowed :
      (f : FileRow) (stream : Stream) (size : Option ℤ) (limit : Option FileSizeLimit)
      (uri : String) (m : ℕ) (c : Option String)
      → backend.save f stream size limit ≡ ok (uri, m, c)
      → IsAllowed m limit
  saved-IsAllowed f stream size none uri m c e = tt
  saved-IsAllowed f stream size (some l) uri m c e = save_bounded f stream size l uri m c e

  set_contents_guarded :
      (v : ℕ) (stream : Stream) (size : Option ℤ) (given limit : Option FileSizeLimit)
      (o : ObjectVersion) (os : List ObjectVersion) (r : BucketRow) (s : Session)
      → IsWithinQuota s.db
      → select (has_version v) s.objects ≡ o ∷ os
      → o.file_id ≡ none
      → select (Bucket.has_id o.bucket_id) s.buckets ≡ r ∷ []
      → limit_or given o.bucket_id s ≡ (ok limit, s)
      → ((m : ℕ) → IsAllowed m limit → IsAtMost m (quota_left r))
      → IsWithinQuota (set_contents backend v stream size given s).1.db
  set_contents_guarded v stream size given limit o os r s w here empty bucket allowed guard =
      elim (opened_outcome backend v stream size limit s) [
        | inl (e, failed) ↦
            IsWithinQuota-same s.db (set_contents backend v stream size given s).1.db
              (set_contents_err backend v stream size given limit o os s e here empty allowed
                failed)
              w
        | inr (uri, m, c, done, result) ↦
            IsWithinQuota-same
              (record s.db { buckets = update (Bucket.has_id o.bucket_id) (grown m) s.buckets })
              (set_contents backend v stream size given s).1.db
              (set_contents_ok backend v stream size given limit o os s uri m c
                s.config.default_storage_class here empty allowed result)
              (grown-IsWithinQuota o.bucket_id m r s.db
                (update (Bucket.has_id o.bucket_id) (grown m) s.buckets) w bucket
                (grown-over_quota r.quota_size r m refl (row-within r s.db o.bucket_id w bucket)
                  (guard m (saved-IsAllowed (new_file (s.uuids 0)) stream size limit uri m c done)))
                refl)
      ]

  pub set_contents_kept :
      (v : ℕ) (stream : Stream) (size : Option ℤ) (given : Option FileSizeLimit) (s : Session)
      → IsWithinQuota s.db
      → ((o : ObjectVersion) (os : List ObjectVersion)
          → select (has_version v) s.objects ≡ o ∷ os
          → LimitFor given o s)
      → IsWithinQuota (set_contents backend v stream size given s).1.db
  unfolding set_contents ◌>>=◌
  set_contents_kept v stream size given s w limited = go (select (has_version v) s.objects) refl
    where
      Goal : Type 0
      Goal = IsWithinQuota (set_contents backend v stream size given s).1.db

      -- Nothing is changed before the contents are saved.
      stays : (e : Error) → set_contents backend v stream size given s ≡ (err e, s) → Goal
      stays e h = subst (λ (p : Result Unit × Session). IsWithinQuota p.1.db) (sym h) w

      go : (xs : List ObjectVersion) → select (has_version v) s.objects ≡ xs → Goal
      go [] none_there = stays object_deleted (ground (arith, none_there))
      go (o ∷ os) here = elim (Option-cases o.file_id) [
        | inr (i, filled) ↦ stays file_instance_already_set (ground (arith, here, filled))
        | inl empty ↦ elim (limited o os here) [
          | inl (e, failed) ↦ stays e (ground (arith, here, empty, failed))
          | inr (r, limit, bucket, allowed, guard) ↦
              set_contents_guarded v stream size given limit o os r s w here empty bucket allowed
                guard
        ]
      ]

  -- The limit of the bucket itself.
  bucket-LimitFor :
      (o : ObjectVersion) (s : Session)
      → s.config.size_limiters ≡ file_size_limiters
      → IsWithinQuota s.db
      → LimitFor none o s
  unfolding Bucket.size_limit ◌>>=◌
  bucket-LimitFor o s standard w =
      elim (select_cases (Bucket.has_id o.bucket_id) s.buckets (w.ids o.bucket_id)) [
        | inl gone ↦ inl (object_deleted, ground (arith, gone))
        | inr (r, bucket) ↦ elim (Result-cases (Limiters.size_limit (file_size_limiters r))) [
          | inr (e, failed) ↦ inl (e, ground (arith, bucket, standard, failed))
          | inl (limit, found) ↦ inr (
            r,
            limit,
            bucket,
            ground (arith, bucket, standard, found),
            limit-IsAtMost r limit found,
          )
        ]
      ]

  pub set_contents-IsWithinQuota :
      (v : ℕ) (stream : Stream) (size : Option ℤ) (s : Session)
      → s.config.size_limiters ≡ file_size_limiters
      → IsWithinQuota s.db
      → IsWithinQuota (set_contents backend v stream size none s).1.db
  set_contents-IsWithinQuota v stream size s standard w =
      set_contents_kept v stream size none s w (λ o os here. bucket-LimitFor o s standard w)
