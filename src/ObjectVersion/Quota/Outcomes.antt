-- ===== src/ObjectVersion/Quota/Outcomes.antt =====
-- What `set_contents` leaves, where saving the contents raises and where it returns.
use Prim.Native.String.{count as text_count}
use invenio_files_rest.Prelude.Int.{ℤ}
use invenio_files_rest.Prelude.{
  ℕ, suc, String, true, false, Option, none, some, List, [], ◌∷◌, ◌≡◌, ◌⊎◌, arith, Bool-cases, inl,
  inr, ==_refl, ltb,
}
use invenio_files_rest.Prelude.Tables.{select, update}
use invenio_files_rest.Schema.{FileInstance as FileRow, FileSizeLimit, ObjectVersion}
use invenio_files_rest.Session.{Session, ok, err, ◌>>=◌}
use invenio_files_rest.Session.Reads.{Result-cases}
use invenio_files_rest.Errors.{Error, value_error}
use invenio_files_rest.Storage.{Backend}
use invenio_files_rest.Storage.Writing.{Stream}
use invenio_files_rest.FileInstance
use invenio_files_rest.Bucket
use invenio_files_rest.ObjectVersion.Reading.{has_version}
use invenio_files_rest.ObjectVersion.Creating.{set_contents, limit_or}
use invenio_files_rest.ObjectVersion.Quota.{grown}

-- What saving the contents of a file instance does.
pub saved : String → ℕ → Option String → String → FileRow → FileRow
saved uri m c class f = record f {
  uri = some uri;
  size = m;
  checksum = c;
  writable = false;
  readable = true;
  storage_class = some class;
}

set_contents_outcome :
    (backend : Backend) (i : ℕ) (stream : Stream) (size : Option ℤ) (limit : Option FileSizeLimit)
    (f : FileRow) (fs : List FileRow) (s : Session)
    → select (FileInstance.has_id i) s.files ≡ f ∷ fs
    → ((e : Error) × (FileInstance.set_contents backend i stream size limit s ≡ (err e, s)))
      ⊎ ((uri : String) × (m : ℕ) × (c : Option String) × (backend.save f stream size limit
            ≡ ok (uri, m, c))
          × (FileInstance.set_contents backend i stream size limit s ≡ (
            ok tt,
            record s {
              db = record s.db {
                files =
                    update
                      (FileInstance.has_id i)
                      (saved uri m c s.config.default_storage_class)
                      s.files;
              };
            },
          )))
unfolding FileInstance.set_contents ◌>>=◌ saved
set_contents_outcome backend i stream size limit f fs s e = elim (Bool-cases f.writable) [
  | inr closed ↦ inl (value_error "File is not writable.", ground (arith, e, closed))
  | inl writable ↦ elim (Result-cases (backend.save f stream size limit)) [
    | inr (x, r) ↦ inl (x, ground (arith, e, writable, r))
    | inl ((uri, m, c), r) ↦ elim (Bool-cases (ltb s.config.file_uri_max_len (text_count uri))) [
      | inl long ↦
          inl (value_error "FileInstance URI too long.", ground (arith, e, writable, r, long))
      | inr short ↦ inr (uri, m, c, r, ground (arith, e, writable, r, short))
    ]
  ]
]

pub new_file : ℕ → FileRow
new_file i = record {
  id = i;
  uri = none;
  storage_class = none;
  size = 0;
  checksum = none;
  readable = false;
  writable = true;
  last_check_at = none;
  last_check = some true;
}

-- The session in which the contents are saved.
pub opened : ℕ → Session → Session
opened v s = record s {
  db = record s.db {
    files = new_file (s.uuids 0) ∷ s.files;
    objects = update (has_version v) (λ p. record p { file_id = some (s.uuids 0) }) s.objects;
  };
  uuids = λ n. s.uuids (suc n);
}

pub with_files : Session → List FileRow → Session
with_files s fs = record s { db = record s.db { files = fs } }

pub opened_outcome :
    (backend : Backend) (v : ℕ) (stream : Stream) (size : Option ℤ) (limit : Option FileSizeLimit)
    (s : Session)
    → ((e : Error) × (FileInstance.set_contents backend (s.uuids 0) stream size limit (opened v s)
          ≡ (err e, opened v s)))
      ⊎ ((uri : String) × (m : ℕ) × (c : Option String) × (backend.save
              (new_file (s.uuids 0))
              stream
              size
              limit
            ≡ ok (uri, m, c))
          × (FileInstance.set_contents backend (s.uuids 0) stream size limit (opened v s) ≡ (
            ok tt,
            with_files (opened v s) (
                update
                  (FileInstance.has_id (s.uuids 0))
                  (saved uri m c s.config.default_storage_class)
                  (opened v s).files),
          )))
unfolding opened with_files new_file
opened_outcome backend v stream size limit s =
    set_contents_outcome backend (s.uuids 0) stream size limit (new_file (s.uuids 0))
      (select (FileInstance.has_id (s.uuids 0)) s.files) (opened v s) first
  where
    first :
        select (FileInstance.has_id (s.uuids 0)) (opened v s).files
        ≡ new_file (s.uuids 0) ∷ select (FileInstance.has_id (s.uuids 0)) s.files
    first = ground (arith, ==_refl (s.uuids 0))

pub set_contents_err :
    (backend : Backend) (v : ℕ) (stream : Stream) (size : Option ℤ)
    (given limit : Option FileSizeLimit) (o : ObjectVersion) (os : List ObjectVersion) (s : Session)
    (e : Error)
    → select (has_version v) s.objects ≡ o ∷ os
    → o.file_id ≡ none
    → limit_or given o.bucket_id s ≡ (ok limit, s)
    → FileInstance.set_contents backend (s.uuids 0) stream size limit (opened v s)
      ≡ (err e, opened v s)
    → (set_contents backend v stream size given s).1.buckets ≡ s.buckets
unfolding set_contents ◌>>=◌ opened new_file
set_contents_err backend v stream size given limit o os s e here empty allowed failed =
    ground (arith, here, empty, allowed, failed)

first_linked :
    (v i : ℕ) (o : ObjectVersion) (os xs : List ObjectVersion)
    → select (has_version v) xs ≡ o ∷ os
    → (rest : List ObjectVersion) × (select
          (has_version v)
          (update (has_version v) (λ p. record p { file_id = some i }) xs)
        ≡ record o { file_id = some i } ∷ rest)
first_linked v i o os [] e = cc
first_linked v i o os (x ∷ xs) e = elim (Bool-cases (has_version v x)) [
  | inl here ↦ (
    select (has_version v) (update (has_version v) (λ p. record p { file_id = some i }) xs),
    ground arith,
  )
  | inr there ↦
      let (rest, f) = first_linked v i o os xs (ground arith) in (rest, ground (arith, there, f))
]

pub set_contents_ok :
    (backend : Backend) (v : ℕ) (stream : Stream) (size : Option ℤ)
    (given limit : Option FileSizeLimit) (o : ObjectVersion) (os : List ObjectVersion) (s : Session)
    (uri : String) (m : ℕ) (c : Option String) (class : String)
    → select (has_version v) s.objects ≡ o ∷ os
    → o.file_id ≡ none
    → limit_or given o.bucket_id s ≡ (ok limit, s)
    → FileInstance.set_contents backend (s.uuids 0) stream size limit (opened v s) ≡ (
      ok tt,
      with_files
          (opened v s)
          (update (FileInstance.has_id (s.uuids 0)) (saved uri m c class) (opened v s).files),
    )
    → (set_contents backend v stream size given s).1.buckets
      ≡ update (Bucket.has_id o.bucket_id) (grown m) s.buckets
unfolding set_contents ◌>>=◌ opened new_file saved with_files
set_contents_ok backend v stream size given limit o os s uri m c class here empty allowed done =
    let (rest, linked) = first_linked v (s.uuids 0) o os s.objects here in
    ground (arith, here, empty, allowed, done, linked, ==_refl (s.uuids 0))
