-- ===== src/ObjectVersion/Effects.antt =====
-- What readers see after a version is created, an object deleted, a version restored or removed.
use invenio_files_rest.Prelude.{
  ℕ, String, ◌≡◌, refl, false, Option, none, some, List, [], ◌∷◌, ◌&&◌, ◌==◌, str_eq, arith, ==→eq,
  ==_refl, ◌∙◌, eq_iff, if◌then◌else◌, inl, inr, Bool-cases,
}
use invenio_files_rest.Prelude.Int.{pos, ◌-ℤ◌}
use invenio_files_rest.Prelude.Tables.{
  select, update, select-update_clear, select-update_other, select-update_self, select-passes,
}
use invenio_files_rest.Schema.{Bucket as BucketRow, FileInstance as FileRow, ObjectVersion}
use invenio_files_rest.Session.{Session, Result, ok, one_or_none, ◌>>=◌}
use invenio_files_rest.FileInstance
use invenio_files_rest.Bucket
use invenio_files_rest.Bucket.{instance_of, by_id}
use invenio_files_rest.ObjectVersion.Reading.{get, wanted, head_of}
use invenio_files_rest.ObjectVersion.Creating.{create}
use invenio_files_rest.ObjectVersion.Changing.{delete}
use invenio_files_rest.ObjectVersion.Heads.{unhead, demoted}
use invenio_files_rest.ObjectVersion.Steps.{
  IsReady, new_version, created, create_with_file_lem, create_marker_lem,
}

-- What `ObjectVersion.get` returns for the head of an object.
abbrev pub head : ℕ → String → Session → Result (Option ObjectVersion)
head b key s = (get (by_id b) key none s).0

-- With the old head demoted, the object has no visible version.
pub wanted-demoted :
    (b : ℕ) (key : String) (os : List ObjectVersion)
    → select (wanted b key none) (demoted b key os) ≡ []
wanted-demoted b key os =
    select-update_clear (head_of b key) (wanted b key none) unhead os (λ x h. ground arith)
      (λ x h. ground arith)

-- The other objects are not touched.
pub wanted-demoted_other :
    (b : ℕ) (key : String) (c : ℕ) (k : String) (os : List ObjectVersion)
    → (b == c && str_eq key k) ≡ false
    → select (wanted c k none) (demoted b key os) ≡ select (wanted c k none) os
wanted-demoted_other b key c k os other =
    select-update_other (head_of b key) (wanted c k none) unhead os
      (λ x h. ground (arith, ==→eq x.bucket_id b, eq_iff x.key key))

-- In a ready session (a well-formed one in which the bucket exists and is unlocked, the key fits
-- and the version identifier is new), ObjectVersion.create with a file that exists makes the new
-- version the one that ObjectVersion.get returns for its object, and every other object, in this
-- bucket or another, has the answer that it had.
pub get-create :
    (b : ℕ) (key : String) (i : ℕ) (f : FileRow) (mimetype : Option String) (version_id : Option ℕ)
    (r : BucketRow) (s : Session)
    → IsReady b key version_id r s
    → select (FileInstance.has_id i) s.files ≡ f ∷ []
    → (c : ℕ) (k : String)
    → head c k (create (instance_of b) key (some i) mimetype version_id s).1 ≡ (
        if b == c && str_eq key k
        then ok (some (new_version b key (some i) mimetype version_id s))
        else head c k s)
unfolding get ◌>>=◌
get-create b key i f mimetype version_id r s w file c k =
    rw (create_with_file_lem b key i f mimetype version_id r s w file)
      (elim (Bool-cases (b == c && str_eq key k)) [
        | inl same ↦ ground (arith, wanted-demoted b key s.objects, ==→eq b c, eq_iff key k)
        | inr other ↦ ground (arith, wanted-demoted_other b key c k s.objects other)
      ])

abbrev with_buckets : Session → List BucketRow → Session
with_buckets s bs = record s { db = record s.db { buckets = bs } }

abbrev pub shrunk : ℕ → ℕ → List BucketRow → List BucketRow
shrunk b n bs = update (Bucket.has_id b) (λ r. record r { size = r.size -ℤ pos n }) bs

-- The bucket can still be written to after its size has changed.
IsReady-shrunk :
    (b : ℕ) (key : String) (n : ℕ) (r : BucketRow) (s : Session)
    → IsReady b key none r s
    → IsReady b key none
        (record r { size = r.size -ℤ pos n })
        (with_buckets s (shrunk b n s.buckets))
IsReady-shrunk b key n r s w = record {
  bucket =
      select-update_self (Bucket.has_id b) (λ q. record q { size = q.size -ℤ pos n }) s.buckets r
        (λ y. refl) w.bucket;
  unlocked = w.unlocked;
  fits = w.fits;
  fresh = w.fresh;
  valid = record { unique_versions = w.valid.unique_versions; unique_heads = w.valid.unique_heads };
}

-- The session that `delete` leaves.
abbrev pub marked : ℕ → String → ℕ → Session → Session
marked b key n s =
    created b key none none none (shrunk b n s.buckets) (with_buckets s (shrunk b n s.buckets))

pub delete_lem :
    (b : ℕ) (key : String) (o : ObjectVersion) (i : ℕ) (f : FileRow) (r : BucketRow) (s : Session)
    → IsReady b key none r s
    → select (wanted b key none) s.objects ≡ o ∷ []
    → o.file_id ≡ some i
    → select (FileInstance.has_id i) s.files ≡ f ∷ []
    → delete (instance_of b) key s ≡ (ok (some (s.uuids 0)), marked b key f.size s)
unfolding delete ◌>>=◌
delete_lem b key o i f r s w visible linked file = ground (
  arith,
  create_marker_lem b key none none (record r { size = r.size -ℤ pos f.size })
      (with_buckets s (shrunk b f.size s.buckets)) (IsReady-shrunk b key f.size r s w),
  ==→eq o.bucket_id b,
  select-passes (wanted b key none) s.objects o [] visible,
)

-- In a ready session, deleting an object whose visible version has a file that exists leaves the
-- object without a visible version and every other object with the answer that it had, and the
-- bucket smaller by the size of that file.
pub get-delete :
    (b : ℕ) (key : String) (o : ObjectVersion) (i : ℕ) (f : FileRow) (r : BucketRow) (s : Session)
    → IsReady b key none r s
    → head b key s ≡ ok (some o)
    → o.file_id ≡ some i
    → select (FileInstance.has_id i) s.files ≡ f ∷ []
    → ((c : ℕ) (k : String)
        → head c k (delete (instance_of b) key s).1
          ≡ (if b == c && str_eq key k then ok none else head c k s))
      × (select (Bucket.has_id b) (delete (instance_of b) key s).1.buckets
          ≡ record r { size = r.size -ℤ pos f.size } ∷ [])
unfolding get ◌>>=◌
get-delete b key o i f r s w visible linked file =
    let only : select (wanted b key none) s.objects ≡ o ∷ [] =
      selected (select (wanted b key none) s.objects) visible in
    rw (delete_lem b key o i f r s w only linked file) (
      (λ c k. elim (Bool-cases (b == c && str_eq key k)) [
        | inl same ↦ ground (arith, wanted-demoted b key s.objects, ==→eq b c, eq_iff key k)
        | inr other ↦ ground (arith, wanted-demoted_other b key c k s.objects other)
      ]),
      (IsReady-shrunk b key f.size r s w).bucket,
    )
  where
    selected : (l : List ObjectVersion) → (one_or_none l s).0 ≡ ok (some o) → l ≡ o ∷ []
    selected [] h = cc
    selected (x ∷ []) h = cc
    selected (x ∷ y ∷ l) h = cc

-- Deleting an object that has no visible version changes nothing.
pub delete_missing :
    (b : ℕ) (key : String) (s : Session)
    → head b key s ≡ ok none
    → delete (instance_of b) key s ≡ (ok none, s)
unfolding delete get ◌>>=◌
delete_missing b key s missing = ground arith

-- Where the bucket is ready for a change of an object whose visible version has a file (as in
-- get-delete), ObjectVersion.delete called a second time for the same bucket and key returns none
-- and changes nothing in the session: no second delete marker, and the size of the bucket is not
-- lowered again.
pub delete-delete :
    (b : ℕ) (key : String) (o : ObjectVersion) (i : ℕ) (f : FileRow) (r : BucketRow) (s : Session)
    → IsReady b key none r s
    → head b key s ≡ ok (some o)
    → o.file_id ≡ some i
    → select (FileInstance.has_id i) s.files ≡ f ∷ []
    → let t = (delete (instance_of b) key s).1 in delete (instance_of b) key t ≡ (ok none, t)
delete-delete b key o i f r s w visible linked file =
    delete_missing b key (delete (instance_of b) key s).1
      ((get-delete b key o i f r s w visible linked file).0 b key ∙ gone)
  where
    gone : (if b == b && str_eq key key then ok none else head b key s) ≡ ok none
    gone = ground (arith, ==_refl b, (eq_iff key key).1 refl)
