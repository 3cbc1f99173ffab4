-- ===== src/Multipart/Merging.antt =====
-- `MultipartObject.merge_parts`: the upload becomes an object version.
use invenio_files_rest.Prelude.{
  ℕ, String, ◌≡◌, refl, true, Option, none, some, List, [], ◌∷◌, ◌&&◌, ◌==◌, str_eq, arith, ==→eq,
  if◌then◌else◌, ◌∙◌, ap, sym, Bool-cases, eq_iff, inl, inr,
}
use invenio_files_rest.Prelude.Int.{ℤ, pos, ◌+ℤ◌, ◌-ℤ◌, +ℤ_parts, -ℤ_parts, eq_of_parts}
use invenio_files_rest.Prelude.Tables.{
  select, update, delete as delete_rows, select-update_self, select-delete_self,
}
use invenio_files_rest.Schema.{Bucket as BucketRow, FileInstance as FileRow, MultipartObject}
use invenio_files_rest.Session.{Session, ok, ◌>>=◌}
use invenio_files_rest.Storage.{Backend}
use invenio_files_rest.FileInstance
use invenio_files_rest.Bucket
use invenio_files_rest.Bucket.{instance_of}
use invenio_files_rest.ObjectVersion.Steps.{
  IsReady, created, new_version, grown, chosen, create_with_file_lem,
}
use invenio_files_rest.ObjectVersion.Effects.{head, shrunk, wanted-demoted, wanted-demoted_other}
use invenio_files_rest.ObjectVersion.Reading.{get}
use invenio_files_rest.Multipart.Parts.{has_id, part_of}
use invenio_files_rest.Multipart.Uploads.{delete, merge_parts}

abbrev pub checked : ℕ → Option String → Session → Session
checked i c s = record s {
  db = record s.db {
    files = update (FileInstance.has_id i) (λ g. record g { checksum = c }) s.files;
  };
}

update_checksum_lem :
    (backend : Backend) (i : ℕ) (f : FileRow) (c : Option String) (s : Session)
    → select (FileInstance.has_id i) s.files ≡ f ∷ []
    → f.readable ≡ true
    → backend.checksum f ≡ ok c
    → FileInstance.update_checksum backend i s ≡ (ok tt, checked i c s)
unfolding FileInstance.update_checksum FileInstance.ensure_readable ◌>>=◌
update_checksum_lem backend i f c s file readable sum = ground arith

-- The session without the upload and its parts.
abbrev dropped : ℕ → MultipartObject → Session → Session
dropped u mp s = record s {
  db = record s.db {
    buckets = shrunk mp.bucket_id mp.size s.buckets;
    parts = delete_rows (part_of u) s.parts;
    multiparts = delete_rows (has_id u) s.multiparts;
  };
}

delete_lem :
    (u : ℕ) (mp : MultipartObject) (s : Session)
    → select (has_id u) s.multiparts ≡ mp ∷ []
    → delete u s ≡ (ok tt, dropped u mp s)
unfolding delete ◌>>=◌
delete_lem u mp s h = ground arith

IsReady-checked :
    (b : ℕ) (key : String) (v : Option ℕ) (i : ℕ) (c : Option String) (r : BucketRow) (s : Session)
    → IsReady b key v r s
    → IsReady b key v r (checked i c s)
IsReady-checked b key v i c r s w = record {
  bucket = w.bucket;
  unlocked = w.unlocked;
  fits = w.fits;
  fresh = w.fresh;
  valid = record { unique_versions = w.valid.unique_versions; unique_heads = w.valid.unique_heads };
}

-- The session that `merge_parts` leaves.
abbrev merged : ℕ → MultipartObject → ℕ → Option String → Option ℕ → Session → Session
merged u mp n c v s = dropped u mp (
    created mp.bucket_id mp.key (some mp.file_id) none v (grown mp.bucket_id n s.buckets)
      (checked mp.file_id c s))

merge_parts_lem :
    (backend : Backend) (u : ℕ) (mp : MultipartObject) (f : FileRow) (c : Option String)
    (v : Option ℕ) (r : BucketRow) (s : Session)
    → IsReady mp.bucket_id mp.key v r s
    → select (has_id u) s.multiparts ≡ mp ∷ []
    → mp.completed ≡ true
    → select (FileInstance.has_id mp.file_id) s.files ≡ f ∷ []
    → f.readable ≡ true
    → backend.checksum f ≡ ok c
    → merge_parts backend u v s ≡ (ok (chosen v s.uuids), merged u mp f.size c v s)
unfolding merge_parts ◌>>=◌
merge_parts_lem backend u mp f c v r s w upload completed file readable sum =
    let t = checked mp.file_id c s in
    let g : FileRow = record f { checksum = c } in
    let file' : select (FileInstance.has_id mp.file_id) t.files ≡ g ∷ [] =
      select-update_self (FileInstance.has_id mp.file_id)
        (λ (h : FileRow). record h { checksum = c }) s.files f (λ y. refl) file in
    ground (
      arith,
      update_checksum_lem backend mp.file_id f c s file readable sum,
      create_with_file_lem mp.bucket_id mp.key mp.file_id g none v r t
          (IsReady-checked mp.bucket_id mp.key v mp.file_id c r s w) file',
      delete_lem u mp
          (created mp.bucket_id mp.key (some mp.file_id) none v
            (grown mp.bucket_id f.size s.buckets) t)
          upload,
    )

size_cancels : (a : ℤ) (n : ℕ) → a +ℤ pos n -ℤ pos n ≡ a
size_cancels a n =
    grind (
      eq_of_parts (a +ℤ pos n -ℤ pos n) a,
      +ℤ_parts a (pos n),
      -ℤ_parts (a +ℤ pos n) (pos n),
      arith,
    )

size_kept :
    (b n m : ℕ) (r : BucketRow) (bs : List BucketRow)
    → n ≡ m
    → select (Bucket.has_id b) bs ≡ r ∷ []
    → select (Bucket.has_id b) (shrunk b m (grown b n bs)) ≡ r ∷ []
size_kept b n m r bs same h =
    let up =
      select-update_self (Bucket.has_id b) (λ (q : BucketRow). record q { size = q.size +ℤ pos n })
        bs r (λ y. refl) h in
    select-update_self (Bucket.has_id b) (λ (q : BucketRow). record q { size = q.size -ℤ pos m })
      (grown b n bs) (record r { size = r.size +ℤ pos n }) (λ y. refl) up
    ∙ ap (λ (z : ℤ). record r { size = z } ∷ [])
        (ap (λ (k : ℕ). r.size +ℤ pos n -ℤ pos k) (sym same) ∙ size_cancels r.size n)

-- merge_parts of a completed upload, in a session that is ready for a version of the upload's
-- object, where the upload's file is readable, has the size of the upload and has a checksum that
-- the storage can compute: the new version with that file becomes the visible one of the object,
-- every other object keeps its own, the bucket has the size that it had, and the upload and its
-- parts are gone.
pub head-merge_parts :
    (backend : Backend) (u : ℕ) (mp : MultipartObject) (f : FileRow) (c : Option String)
    (v : Option ℕ) (r : BucketRow) (s : Session)
    → IsReady mp.bucket_id mp.key v r s
    → select (has_id u) s.multiparts ≡ mp ∷ []
    → mp.completed ≡ true
    → select (FileInstance.has_id mp.file_id) s.files ≡ f ∷ []
    → f.readable ≡ true
    → f.size ≡ mp.size
    → backend.checksum f ≡ ok c
    → let t = (merge_parts backend u v s).1 in
      ((b : ℕ) (key : String)
        → head b key t ≡ (
            if mp.bucket_id == b && str_eq mp.key key
            then ok (some (new_version mp.bucket_id mp.key (some mp.file_id) none v s))
            else head b key s))
      × (select (Bucket.has_id mp.bucket_id) t.buckets ≡ r ∷ [])
      × (select (has_id u) t.multiparts ≡ [])
      × (select (part_of u) t.parts ≡ [])
unfolding get ◌>>=◌
head-merge_parts backend u mp f c v r s w upload completed file readable same sum =
    rw (merge_parts_lem backend u mp f c v r s w upload completed file readable sum) (
      (λ b key. elim (Bool-cases (mp.bucket_id == b && str_eq mp.key key)) [
        | inl own ↦ ground (
          arith,
          wanted-demoted mp.bucket_id mp.key s.objects,
          ==→eq mp.bucket_id b,
          eq_iff mp.key key,
        )
        | inr other ↦ ground (arith, wanted-demoted_other mp.bucket_id mp.key b key s.objects other)
      ]),
      size_kept mp.bucket_id f.size mp.size r s.buckets same w.bucket,
      select-delete_self (has_id u) s.multiparts,
      select-delete_self (part_of u) s.parts,
    )
