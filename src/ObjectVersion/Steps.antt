-- ===== src/ObjectVersion/Steps.antt =====
-- The state that `create` leaves, written out, where it raises nothing.
use Prim.Native.String.{count as text_count}
use invenio_files_rest.Prelude.{
  ℕ, suc, String, ◌≡◌, refl, true, false, Option, none, some, List, [], ◌∷◌, ltb, arith, ==→eq,
  ==_refl, ◌⊎◌, inl, inr, Bool-cases,
}
use invenio_files_rest.Prelude.Int.{pos, ◌+ℤ◌}
use invenio_files_rest.Prelude.Tables.{
  select, update, select-update_nil, update-select_nil, select-passes, some_row, some_row_cases,
}
use invenio_files_rest.Schema.{Bucket, FileInstance, ObjectVersion}
use invenio_files_rest.Session.{Session, ok, ◌>>=◌}
use invenio_files_rest.FileInstance
use invenio_files_rest.Bucket
use invenio_files_rest.Bucket.{instance_of}
use invenio_files_rest.ObjectVersion.Reading.{has_version, head_of}
use invenio_files_rest.ObjectVersion.Creating.{create, add_new, attach_file, set_file}
use invenio_files_rest.ObjectVersion.Heads.{
  IsWellFormed, unhead, demoted, demote_latest_lem, with_objects,
}

-- The identifier of the new version, and the identifiers that are left to draw.
abbrev pub chosen : Option ℕ → (ℕ → ℕ) → ℕ
chosen none uuids = uuids 0
chosen (some v) uuids = v

abbrev pub left : Option ℕ → (ℕ → ℕ) → ℕ → ℕ
left none uuids = λ n. uuids (suc n)
left (some v) uuids = uuids

-- The bucket is there and unlocked, the key fits and the version identifier is new.
pub record IsReady (b : ℕ) (key : String) (version_id : Option ℕ) (r : Bucket) (s : Session)
    : Type 0 where
  pub bucket : select (Bucket.has_id b) s.buckets ≡ r ∷ []
  pub unlocked : r.locked ≡ false
  pub fits : ltb s.config.object_key_max_len (text_count key) ≡ false
  pub fresh : select (has_version (chosen version_id s.uuids)) s.objects ≡ []
  pub valid : IsWellFormed s.db

-- The new row.
abbrev pub new_version : ℕ → String → Option ℕ → Option String → Option ℕ → Session → ObjectVersion
new_version b key file mimetype version_id s = record {
  version_id = chosen version_id s.uuids;
  key = key;
  bucket_id = b;
  file_id = file;
  mimetype = mimetype;
  is_head = true;
  created = s.times 0;
}

-- The session after `create`, with the table of buckets given.
abbrev pub created :
    ℕ → String → Option ℕ → Option String → Option ℕ → List Bucket → Session → Session
created b key file mimetype version_id bs s = record s {
  db = record s.db {
    buckets = bs;
    objects = new_version b key file mimetype version_id s ∷ demoted b key s.objects;
  };
  uuids = left version_id s.uuids;
  times = λ n. s.times (suc n);
}

abbrev pub grown : ℕ → ℕ → List Bucket → List Bucket
grown b n bs = update (Bucket.has_id b) (λ r. record r { size = r.size +ℤ pos n }) bs

-- The session with a new row in the table of versions.
abbrev with_new : Option ℕ → ObjectVersion → List ObjectVersion → Session → Session
with_new version_id o rest s = record s {
  db = record s.db { objects = o ∷ rest };
  uuids = left version_id s.uuids;
  times = λ n. s.times (suc n);
}

add_new_lem :
    (b : ℕ) (key : String) (mimetype : Option String) (version_id : Option ℕ) (s : Session)
    → ltb s.config.object_key_max_len (text_count key) ≡ false
    → select (has_version (chosen version_id s.uuids)) s.objects ≡ []
    → add_new b key mimetype version_id s ≡ (
      ok (chosen version_id s.uuids),
      with_new version_id (new_version b key none mimetype version_id s) s.objects s,
    )
unfolding add_new ◌>>=◌
add_new_lem b key mimetype none s fits fresh = ground arith
add_new_lem b key mimetype (some v) s fits fresh = ground arith

add_new_refused :
    (b : ℕ) (key : String) (mimetype : Option String) (version_id : Option ℕ) (s : Session)
    → (ltb s.config.object_key_max_len (text_count key) ≡ true)
      ⊎ (some_row (select (has_version (chosen version_id s.uuids)) s.objects) ≡ true)
    → (add_new b key mimetype version_id s).1.objects ≡ s.objects
unfolding add_new ◌>>=◌
add_new_refused b key mimetype none s h = ground arith
add_new_refused b key mimetype (some v) s h = ground arith

-- `add_new` raises and leaves the table alone, or adds the new row, whose identifier no row has.
pub add_new_cases :
    (b : ℕ) (key : String) (mimetype : Option String) (version_id : Option ℕ) (s : Session)
    → ((add_new b key mimetype version_id s).1.objects ≡ s.objects)
      ⊎ ((select (has_version (chosen version_id s.uuids)) s.objects ≡ [])
          × ((add_new b key mimetype version_id s).1.objects
              ≡ new_version b key none mimetype version_id s ∷ s.objects))
add_new_cases b key mimetype version_id s =
    elim (Bool-cases (ltb s.config.object_key_max_len (text_count key))) [
      | inl long ↦ inl (add_new_refused b key mimetype version_id s (inl long))
      | inr fits ↦
          elim (some_row_cases (select (has_version (chosen version_id s.uuids)) s.objects)) [
            | inl (e, fresh) ↦
                inr (fresh, ground (arith, add_new_lem b key mimetype version_id s fits fresh))
            | inr present ↦ inl (add_new_refused b key mimetype version_id s (inr present))
          ]
    ]

-- A new row at the head of the table is given its file.
set_file_lem :
    (i : ℕ) (f : FileInstance) (o : ObjectVersion) (rest : List ObjectVersion) (s : Session)
    → s.objects ≡ o ∷ rest
    → o.file_id ≡ none
    → select (has_version o.version_id) rest ≡ []
    → select (FileInstance.has_id i) s.files ≡ f ∷ []
    → set_file o.version_id (some i) s ≡ (
      ok tt,
      record s {
        db = record s.db {
          objects = record o { file_id = some i } ∷ rest;
          buckets = grown o.bucket_id f.size s.buckets;
        };
      },
    )
unfolding set_file ◌>>=◌
set_file_lem i f o rest s os unset fresh file = ground (
  arith,
  ==_refl o.version_id,
  update-select_nil (has_version o.version_id) (λ p. record p { file_id = some i }) rest fresh,
)

attach_file_lem :
    (i : ℕ) (f : FileInstance) (o : ObjectVersion) (rest : List ObjectVersion) (s : Session)
    → s.objects ≡ o ∷ rest
    → o.file_id ≡ none
    → select (has_version o.version_id) rest ≡ []
    → select (FileInstance.has_id i) s.files ≡ f ∷ []
    → attach_file o.version_id (some i) s ≡ (
      ok tt,
      record s {
        db = record s.db {
          objects = record o { file_id = some i } ∷ rest;
          buckets = grown o.bucket_id f.size s.buckets;
        };
      },
    )
unfolding attach_file FileInstance.get ◌>>=◌
attach_file_lem i f o rest s os unset fresh file = ground (
  arith,
  ==→eq f.id i (select-passes (FileInstance.has_id i) s.files f [] file),
  set_file_lem i f o rest s os unset fresh file,
)

-- Without a file the new version is a delete marker and the bucket keeps its size.
pub create_marker_lem :
    (b : ℕ) (key : String) (mimetype : Option String) (version_id : Option ℕ) (r : Bucket)
    (s : Session)
    → IsReady b key version_id r s
    → create (instance_of b) key none mimetype version_id s
      ≡ (ok (chosen version_id s.uuids), created b key none mimetype version_id s.buckets s)
unfolding create attach_file ◌>>=◌
create_marker_lem b key mimetype version_id r s w =
    let fresh =
      select-update_nil {A = ObjectVersion} (head_of b key)
        (has_version (chosen version_id s.uuids)) unhead s.objects (λ x. refl) w.fresh in
    ground (
      arith,
      demote_latest_lem b key s w.valid,
      add_new_lem b key mimetype version_id (with_objects s (demoted b key s.objects)) w.fits fresh,
    )

-- With a file the new version refers to it and the bucket grows by its size.
pub create_with_file_lem :
    (b : ℕ) (key : String) (i : ℕ) (f : FileInstance) (mimetype : Option String)
    (version_id : Option ℕ) (r : Bucket) (s : Session)
    → IsReady b key version_id r s
    → select (FileInstance.has_id i) s.files ≡ f ∷ []
    → create (instance_of b) key (some i) mimetype version_id s ≡ (
      ok (chosen version_id s.uuids),
      created b key (some i) mimetype version_id (grown b f.size s.buckets) s,
    )
unfolding create ◌>>=◌
create_with_file_lem b key i f mimetype version_id r s w file =
    let old = demoted b key s.objects in
    let fresh =
      select-update_nil {A = ObjectVersion} (head_of b key)
        (has_version (chosen version_id s.uuids)) unhead s.objects (λ x. refl) w.fresh in
    let new = new_version b key none mimetype version_id s in
    ground (
      arith,
      demote_latest_lem b key s w.valid,
      add_new_lem b key mimetype version_id (with_objects s old) w.fits fresh,
      attach_file_lem i f new old (with_new version_id new old s) refl refl fresh file,
    )
