-- ===== src/ObjectVersion/Invariant.antt =====
-- The versions stay well-formed: how the changes of the table keep it so, and `create`.
use invenio_files_rest.Prelude.{
  ℕ, String, ◌≡◌, refl, inl, inr, Bool, false, Option, none, List, [], ◌∷◌, arith, ==→eq, eq_iff,
}
use invenio_files_rest.Prelude.Tables.{
  select, count, update, delete, count-update_le, count-update_same, count-select_nil,
  select-update_clear, count-delete_le,
}
use invenio_files_rest.Schema.{
  Db, ObjectVersion, Bucket as BucketRow, FileInstance as FileRow, ObjectVersionTag,
}
use invenio_files_rest.Session.{
  Session, ◌>>=◌, ◌>>◌, pure, modify_objects, modify_buckets, modify_files, modify_object_tags,
}
use invenio_files_rest.Session.Keeps.{
  Keeps, Keeps-bind, bind-at, bind-known, keeps_rules, Keeps-pure, Keeps-begin_nested,
}
use invenio_files_rest.FileInstance
use invenio_files_rest.Bucket
use invenio_files_rest.Bucket.{BucketArg}
use invenio_files_rest.ObjectVersion.Reading.{has_version, head_of}
use invenio_files_rest.ObjectVersion.Creating.{
  create, create_row, demote_latest, add_new, attach_file, set_file,
}
use invenio_files_rest.ObjectVersion.Heads.{
  IsWellFormed, unhead, demoted, demote_latest_lem, with_objects,
}
use invenio_files_rest.ObjectVersion.Steps.{new_version, add_new_cases}

-- Well-formedness is a matter of the versions alone.
pub of_objects : (d e : Db) → d.objects ≡ e.objects → IsWellFormed e → IsWellFormed d
of_objects d e h w = record {
  unique_versions = λ v. rw h (w.unique_versions v);
  unique_heads = λ b k. rw h (w.unique_heads b k);
}

-- A new row, of an object that has no head, with an identifier that no row has.
cons-IsWellFormed :
    (o : ObjectVersion) (d : Db)
    → IsWellFormed d
    → count (head_of o.bucket_id o.key) d.objects ≡ 0
    → select (has_version o.version_id) d.objects ≡ []
    → IsWellFormed (record d { objects = o ∷ d.objects })
cons-IsWellFormed o d w none_head fresh = record {
  unique_versions = λ v. ground (
    arith,
    w.unique_versions v,
    ==→eq o.version_id v,
    count-select_nil (has_version o.version_id) d.objects fresh,
  );
  unique_heads = λ b k. ground (arith, w.unique_heads b k, ==→eq o.bucket_id b, eq_iff o.key k);
}

-- An update that moves no row to another identifier or key and makes no row a head.
pub update-Keeps :
    (p : ObjectVersion → Bool) (f : ObjectVersion → ObjectVersion)
    → ((v : ℕ) (x : ObjectVersion) → has_version v (f x) ≡ has_version v x)
    → ((b : ℕ) (k : String) (x : ObjectVersion) → head_of b k x ≡ false → head_of b k (f x) ≡ false)
    → Keeps IsWellFormed (modify_objects (update p f))
unfolding modify_objects
update-Keeps p f same_version no_head = record {
  at = λ s w. record {
    unique_versions = λ v. omega (
      arith,
      w.unique_versions v,
      count-update_same p (has_version v) f s.objects (same_version v),
    );
    unique_heads = λ b k.
        omega
          (arith, w.unique_heads b k, count-update_le p (head_of b k) f s.objects (no_head b k));
  };
}

pub delete-Keeps : (p : ObjectVersion → Bool) → Keeps IsWellFormed (modify_objects (delete p))
unfolding modify_objects
delete-Keeps p = record {
  at = λ s w. record {
    unique_versions =
        λ v. omega (arith, w.unique_versions v, count-delete_le p (has_version v) s.objects);
    unique_heads =
        λ b k. omega (arith, w.unique_heads b k, count-delete_le p (head_of b k) s.objects);
  };
}

-- The other tables do not matter.
pub buckets-Keeps : (f : List BucketRow → List BucketRow) → Keeps IsWellFormed (modify_buckets f)
unfolding modify_buckets
buckets-Keeps f = record { at = λ s w. of_objects _ s.db refl w }

pub files-Keeps : (f : List FileRow → List FileRow) → Keeps IsWellFormed (modify_files f)
unfolding modify_files
files-Keeps f = record { at = λ s w. of_objects _ s.db refl w }

pub object_tags-Keeps :
    (f : List ObjectVersionTag → List ObjectVersionTag) → Keeps IsWellFormed (modify_object_tags f)
unfolding modify_object_tags
object_tags-Keeps f = record { at = λ s w. of_objects _ s.db refl w }

pub ruleset version_rules =
    (keeps_rules, delete-Keeps, buckets-Keeps, files-Keeps, object_tags-Keeps)

-- To give a version its file changes neither its key nor its mark.
pub set_id-Keeps :
    (v : ℕ) (file : Option ℕ)
    → Keeps IsWellFormed
        (modify_objects (update (has_version v) (λ o. record o { file_id = file })))
set_id-Keeps v file = update-Keeps _ _ (λ v x. refl) (λ b k x h. h)

pub set_file-Keeps : (v : ℕ) (file : Option ℕ) → Keeps IsWellFormed (set_file v file)
unfolding set_file
set_file-Keeps v file = search (version_rules, set_id-Keeps) depth 9

attach_file-Keeps : (v : ℕ) (file : Option ℕ) → Keeps IsWellFormed (attach_file v file)
unfolding attach_file FileInstance.get
attach_file-Keeps v file = search (keeps_rules, set_file-Keeps) depth 9

demoted-IsWellFormed :
    (b : ℕ) (key : String) (s : Session)
    → IsWellFormed s.db
    → IsWellFormed (with_objects s (demoted b key s.objects)).db
unfolding modify_objects
demoted-IsWellFormed b key s w =
    (update-Keeps (head_of b key) unhead (λ v x. refl) (λ c k x h. ground arith)).at s w

count-demoted :
    (b : ℕ) (key : String) (os : List ObjectVersion) → count (head_of b key) (demoted b key os) ≡ 0
count-demoted b key os =
    count-select_nil (head_of b key) (demoted b key os) (
      select-update_clear (head_of b key) (head_of b key) unhead os (λ x h. ground arith)
        (λ x h. h))

-- `add_new` adds the new row, or leaves the table alone.
add_new-IsWellFormed :
    (b : ℕ) (key : String) (mimetype : Option String) (version_id : Option ℕ) (s : Session)
    → IsWellFormed s.db
    → count (head_of b key) s.objects ≡ 0
    → IsWellFormed (add_new b key mimetype version_id s).1.db
add_new-IsWellFormed b key mimetype version_id s w none_head =
    elim (add_new_cases b key mimetype version_id s) [
      | inl same ↦ of_objects _ s.db same w
      | inr (fresh, new) ↦
          let o = new_version b key none mimetype version_id s in
          of_objects _ (record s.db { objects = o ∷ s.objects }) new
            (cons-IsWellFormed o s.db w none_head fresh)
    ]

create_row-Keeps :
    (b : ℕ) (key : String) (file : Option ℕ) (mimetype : Option String) (version_id : Option ℕ)
    → Keeps IsWellFormed (create_row b key file mimetype version_id)
unfolding create_row
create_row-Keeps b key file mimetype version_id = record {
  at = λ s w.
      let t = with_objects s (demoted b key s.objects) in
      let rest = λ (v : ℕ). attach_file v file >> pure v in
      bind-known IsWellFormed (demote_latest b key)
        (λ _. add_new b key mimetype version_id >>= rest) s (demote_latest_lem b key s w)
        (bind-at {P = IsWellFormed} (add_new b key mimetype version_id) rest t
          (add_new-IsWellFormed b key mimetype version_id t (demoted-IsWellFormed b key s w)
            (count-demoted b key s.objects))
          (λ v. search (keeps_rules, attach_file-Keeps)));
}

pub as_bucket-Keeps : (arg : BucketArg) → Keeps IsWellFormed (Bucket.as_bucket arg)
unfolding Bucket.as_bucket
as_bucket-Keeps (Bucket.instance_of i) = search keeps_rules
as_bucket-Keeps (Bucket.by_id i) = search keeps_rules

-- `create` keeps the versions well-formed, whatever its arguments and also where it raises.
pub create-Keeps :
    (arg : BucketArg) (key : String) (file : Option ℕ) (mimetype : Option String)
    (version_id : Option ℕ)
    → Keeps IsWellFormed (create arg key file mimetype version_id)
unfolding create
create-Keeps arg key file mimetype version_id =
    search (keeps_rules, create_row-Keeps, as_bucket-Keeps) depth 12
