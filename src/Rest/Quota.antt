-- ===== src/Rest/Quota.antt =====
-- `create_object` of views.py and the quota of the bucket.
mod Tests
use mathlib.Core.Path.{subst}
use invenio_files_rest.Prelude.Int.{ℤ}
use invenio_files_rest.Prelude.{
  ℕ, String, Option, none, some, List, [], ◌∷◌, ◌≡◌, refl, sym, ap, ◌∙◌, arith, inl, inr,
}
use invenio_files_rest.Prelude.Tables.{select, select_cases}
use invenio_files_rest.Schema.{
  Db, Config, FileSizeLimit, ObjectVersion, ObjectVersionTag, Bucket as BucketRow,
  FileInstance as FileRow,
}
use invenio_files_rest.Session.{
  Session, Action, Result, ok, err, ◌>>=◌, modify_object_tags, begin_nested, gets, lift, pure,
  or_raise, ◌>>◌,
}
use invenio_files_rest.Errors.{attribute_error}
use invenio_files_rest.Session.Keeps.{Keeps, bind-at, keeps_rules}
use invenio_files_rest.Session.Reads.{
  Reads, Reads-gets, Reads-lift, Reads-pure, keeps_known, reads_then, reads_rules,
}
use invenio_files_rest.Session.Outcomes.{bind_cases, kept}
use invenio_files_rest.Storage.{Backend}
use invenio_files_rest.Storage.Writing.{Stream}
use invenio_files_rest.Limiters
use invenio_files_rest.Limiters.{file_size_limiters}
use invenio_files_rest.Limiters.Bounds.{IsAtMost}
use invenio_files_rest.Bucket
use invenio_files_rest.Bucket.{instance_of}
use invenio_files_rest.FileInstance as Files
use invenio_files_rest.Tags.OfVersion
use invenio_files_rest.ObjectVersion.Reading as Versions
use invenio_files_rest.ObjectVersion.Creating
use invenio_files_rest.ObjectVersion.Creating.{limit_or}
use invenio_files_rest.ObjectVersion.Quota.{
  size_limit-Reads, size_limit_row, read_here, IsWithinQuota, IsWithinQuota-same, limit-IsAtMost,
}
use invenio_files_rest.ObjectVersion.Quota.Marking.{IsIn-bucket, create-Stays, create-Yields}
use invenio_files_rest.ObjectVersion.Quota.Saving.{set_contents_kept, LimitFor}
use invenio_files_rest.Rest.Request.{object_data, Request, App, Upload}
use invenio_files_rest.Rest.Factories.{upload_factory}
use invenio_files_rest.Rest.Objects.{create_object, store_object, add_tags, check_length}

tags-Keeps :
    (f : List ObjectVersionTag → List ObjectVersionTag) → Keeps IsWithinQuota (modify_object_tags f)
unfolding modify_object_tags
tags-Keeps f = record { at = λ s w. record { ids = w.ids; within = w.within } }

add_tags-Keeps :
    (v : ℕ) (tags : Option (List (String × String))) → Keeps IsWithinQuota (add_tags v tags)
unfolding add_tags OfVersion.create
add_tags-Keeps v tags = search (keeps_rules, tags-Keeps) depth 16

-- The limit that was read of the bucket is a limit for its versions.
size_limit-LimitFor :
    (b : ℕ) (limit : Option FileSizeLimit) (o : ObjectVersion) (s t : Session)
    → s.config.size_limiters ≡ file_size_limiters
    → IsWithinQuota s.db
    → Bucket.size_limit b s ≡ (ok limit, s)
    → kept t ≡ kept s
    → o.bucket_id ≡ b
    → LimitFor limit o t
unfolding Bucket.size_limit ◌>>=◌
size_limit-LimitFor b limit o s t standard w found same of_bucket =
    let (r, bucket, l) = size_limit_row b limit s standard w found in
    let bs : t.buckets ≡ s.buckets = ap (λ (p : Config × List BucketRow). p.1) same in
    let here : select (Bucket.has_id o.bucket_id) t.buckets ≡ r ∷ [] = rw (of_bucket, bs) bucket in
    let limits : t.config.size_limiters ≡ file_size_limiters =
      ap (λ (p : Config × List BucketRow). p.0.size_limiters) same ∙ standard in
    inr (r, limit, here, given limit r here limits l, limit-IsAtMost r limit l)
  where
    given :
        (l : Option FileSizeLimit) (r : BucketRow)
        → select (Bucket.has_id o.bucket_id) t.buckets ≡ r ∷ []
        → t.config.size_limiters ≡ file_size_limiters
        → Limiters.size_limit (file_size_limiters r) ≡ ok l
        → limit_or l o.bucket_id t ≡ (ok l, t)
    given none r here limits e = ground (arith, here, limits, e)
    given (some l) r here limits e = refl

check_length-Reads :
    (size : Option ℤ) (limit : Option FileSizeLimit) → Reads (check_length size limit)
unfolding check_length
check_length-Reads none limit = Reads-pure tt
check_length-Reads (some n) none = search reads_rules depth 9
check_length-Reads (some n) (some l) = search reads_rules depth 9

nested-kept :
    {A : Type 0} (m : Action A) (s : Session)
    → IsWithinQuota s.db
    → IsWithinQuota (m s).1.db
    → IsWithinQuota (begin_nested m s).1.db
unfolding begin_nested
nested-kept {A = A} m s w h = go (m s) h
  where
    go :
        (p : Result A × Session)
        → IsWithinQuota p.1.db
        → IsWithinQuota (begin_nested (λ _. p) s).1.db
    go (ok a, t) k = k
    go (err e, t) k = w

module _ (app : App)
    (save_bounded : (f : FileRow) (stream : Stream) (size : Option ℤ) (l : FileSizeLimit)
        (uri : String) (m : ℕ) (c : Option String)
      → app.backend.save f stream size (some l) ≡ ok (uri, m, c)
      → IsAtMost m l.limit) where
  store_object-kept :
      (b : ℕ) (key : String) (upload : Upload) (limit : Option FileSizeLimit) (s : Session)
      → s.config.size_limiters ≡ file_size_limiters
      → IsWithinQuota s.db
      → Bucket.size_limit b s ≡ (ok limit, s)
      → IsWithinQuota (store_object app b key upload limit s).1.db
  unfolding store_object
  store_object-kept b key upload limit s standard w found =
      bind_cases (λ u. IsWithinQuota u.db) (Creating.create (instance_of b) key none none none) _ s
        (IsWithinQuota-same s.db (Creating.create (instance_of b) key none none none s).1.db
          (ap (λ (p : Config × List BucketRow). p.1) ((create-Stays b key none none).at s)) w)
        λ v t e.
          let same : kept t ≡ kept s =
            ap (λ (p : Result ℕ × Session). kept p.1) (sym e)
            ∙ (create-Stays b key none none).at s in
          bind-at {P = IsWithinQuota}
            (Creating.set_contents app.backend v upload.stream upload.content_length limit)
            (λ _. add_tags v upload.tags >> pure v) t
            (set_contents_kept app.backend save_bounded v upload.stream upload.content_length limit
              t (IsWithinQuota-same s.db t.db (ap (λ (p : Config × List BucketRow). p.1) same) w)
              (λ o os here.
                size_limit-LimitFor b limit o s t standard w found same
                  (IsIn-bucket b v t o os ((create-Yields b key none none).at s v t e) here)))
            (λ _. search (keeps_rules, add_tags-Keeps))

  -- Where the configured limiters are the default ones, no two buckets have the same identifier
  -- and none is larger than its quota, and the storage backend saves no more bytes than a limit
  -- that it is given, a request that uploads an object leaves every bucket within its quota,
  -- whatever length is announced and whichever step raises.
  pub create_object-IsWithinQuota :
      (rq : Request) (b : ℕ) (key : String) (s : Session)
      → s.config.size_limiters ≡ file_size_limiters
      → IsWithinQuota s.db
      → IsWithinQuota (create_object app rq b key s).1.db
  unfolding create_object
  create_object-IsWithinQuota rq b key s standard w =
      reads_then IsWithinQuota (gets (λ u. u.config)) _ s (Reads-gets (λ u. u.config)) w λ config.
        reads_then IsWithinQuota (lift (upload_factory app rq config)) _ s
          (Reads-lift (upload_factory app rq config)) w
          λ upload.
            keeps_known IsWithinQuota (Bucket.size_limit b) _ s (size_limit-Reads b) w λ limit t e.
              reads_then IsWithinQuota (check_length upload.content_length limit) _ s
                (check_length-Reads upload.content_length limit) w
                λ _.
                  bind-at {P = IsWithinQuota} (begin_nested (store_object app b key upload limit))
                    (λ v. Versions.row v >>= λ o. or_raise o.file_id attribute_error >>= λ i.
                      Files.row i >>= λ f. pure (object_data v f.checksum))
                    s
                    (nested-kept (store_object app b key upload limit) s w (
                      store_object-kept b key upload limit s standard w
                        (read_here (Bucket.size_limit b) (size_limit-Reads b) e)))
                    (λ v. search keeps_rules depth 9)
