-- ===== src/Rest/Removing.antt =====
-- What is left after one version is removed through the REST interface: well-formed versions, and a
-- successor of a head that was removed.
use mathlib.Core.Path.{subst}
use native.Mathlib.Nat.{le_trans}
use invenio_files_rest.Prelude.{
  Option-cases, List-cases, sym, ap, ◌∙◌, ℕ, ◌≤◌, String, ◌≡◌, refl, ◌⊎◌, inl, inr, true, false,
  ◌==◌, List, [], ◌∷◌, arith, Bool-cases,
}
use invenio_files_rest.Prelude.Tables.{select, count, delete, count-update_same, count-delete_le}
use invenio_files_rest.Prelude.Members.{IsIn, IsIn-select}
use invenio_files_rest.Errors.{Error, object_deleted, bucket_locked}
use invenio_files_rest.Schema.{ObjectVersion}
use invenio_files_rest.Session.{Session, Result, ok, err, ◌>>=◌, ⊤}
use invenio_files_rest.FileInstance as Files
use invenio_files_rest.Bucket
use invenio_files_rest.ObjectVersion.Reading.{has_version, head_of}
use invenio_files_rest.ObjectVersion.Changing.{remove, release_size, is_row_of}
use invenio_files_rest.ObjectVersion.Heads.{IsWellFormed}
use invenio_files_rest.Rest.Objects.{restore_head, remove_version}
use invenio_files_rest.Session.Reads.{Action-cases}
use invenio_files_rest.Rest.Heads.{
  crowned, Restored-cases, Succeeded, headless_after, crowned-unique_heads, crowned-HasNewestHead,
}

release_size-objects : (o : ObjectVersion) (s : Session) → (release_size o s).1.objects ≡ s.objects
unfolding release_size ◌>>=◌
release_size-objects o s = elim (Option-cases o.file_id) [
  | inl unset ↦ ground arith
  | inr (i, set) ↦ elim (List-cases (select (Files.has_id i) s.files)) [
    | inl gone ↦ ground arith
    | inr (f, l, there) ↦ ground arith
  ]
]

-- `remove` deletes the row, or raises and leaves the tables.
abbrev Removed : ObjectVersion → Session → Type 0
Removed o s =
    ((t : Session) × (remove o.version_id s ≡ (ok tt, t))
      × (t.objects ≡ delete (is_row_of o) s.objects))
    ⊎ ((e : Error) × (t : Session) × (remove o.version_id s ≡ (err e, t)) × (t.db ≡ s.db))

remove_cases :
    (o : ObjectVersion) (s : Session)
    → select (has_version o.version_id) s.objects ≡ o ∷ []
    → Removed o s
unfolding remove ◌>>=◌
remove_cases o s row = elim (List-cases (select (Bucket.has_id o.bucket_id) s.buckets)) [
  | inl gone ↦ inr (object_deleted, s, ground arith, refl)
  | inr (r, l, there) ↦ elim (Bool-cases r.locked) [
    | inl locked ↦ inr (bucket_locked, s, ground arith, refl)
    | inr unlocked ↦ elim (Action-cases (release_size o s)) [
      | inl (a, t, e) ↦ inl (
        record t {
          db = record t.db {
            objects = delete (is_row_of o) t.objects;
            object_tags = delete (λ u. u.version_id == o.version_id) t.object_tags;
          };
        },
        ground (arith, e),
        ap (λ (p : Result ⊤ × Session). delete (is_row_of o) p.1.objects) (sym e)
            ∙ ap (λ (os : List ObjectVersion). delete (is_row_of o) os) (release_size-objects o s),
      )
      | inr (x, t, e) ↦ inr (x, record t { db = s.db }, ground (arith, e), refl)
    ]
  ]
]

after_removal :
    (o : ObjectVersion) (s t : Session)
    → IsWellFormed s.db
    → IsIn o s.objects
    → t.objects ≡ delete (is_row_of o) s.objects
    → o.is_head ≡ true
    → IsWellFormed (restore_head o t).1.db
      × Succeeded o.bucket_id o.key (restore_head o t).1.objects
after_removal o s t w inside e head =
    let unique : (v : ℕ) → count (has_version v) t.objects ≤ 1 = λ v.
      rw e (
        le_trans (count-delete_le (is_row_of o) (has_version v) s.objects) (w.unique_versions v)) in
    let heads : (b : ℕ) (key : String) → count (head_of b key) t.objects ≤ 1 = λ b key.
      rw e (
        le_trans (count-delete_le (is_row_of o) (head_of b key) s.objects)
          (w.unique_heads b key)) in
    let headless : count (head_of o.bucket_id o.key) t.objects ≡ 0 =
      rw e (headless_after o s.objects inside head (w.unique_heads o.bucket_id o.key)) in
    elim (Restored-cases o t head) [
      | inl (run, gone) ↦
          rw run (record { unique_versions = unique; unique_heads = heads }, inl gone)
      | inr (l, run, there, own, newest) ↦ rw run (
        record {
          unique_versions = λ v.
              rw
                (count-update_same (has_version l.version_id) (has_version v) crowned t.objects
                  (λ x. refl))
                (unique v);
          unique_heads = crowned-unique_heads o t.objects l unique heads headless there own;
        },
        inr (crowned-HasNewestHead o t.objects l unique heads headless there own newest),
      )
    ]

IsIn-row :
    (o : ObjectVersion) (os : List ObjectVersion)
    → select (has_version o.version_id) os ≡ o ∷ []
    → IsIn o os
IsIn-row o os row =
    IsIn-select (has_version o.version_id) o os
      (subst (λ (l : List ObjectVersion). IsIn o l) (sym row) (inl refl))

-- The two steps of `remove_version`.
removed_then :
    (o : ObjectVersion) (s t : Session)
    → remove o.version_id s ≡ (ok tt, t)
    → remove_version o s ≡ restore_head o t
unfolding remove_version ◌>>=◌
removed_then o s t run = ground (arith, run)

refused_then :
    (o : ObjectVersion) (s t : Session) (e : Error)
    → remove o.version_id s ≡ (err e, t)
    → remove_version o s ≡ (err e, t)
unfolding remove_version ◌>>=◌
refused_then o s t e run = ground (arith, run)

no_head_then : (o : ObjectVersion) (t : Session) → o.is_head ≡ false → restore_head o t ≡ (ok tt, t)
unfolding restore_head ◌>>=◌
no_head_then o t h = ground arith

pub remove_version-IsWellFormed :
    (o : ObjectVersion) (s : Session)
    → IsWellFormed s.db
    → select (has_version o.version_id) s.objects ≡ o ∷ []
    → IsWellFormed (remove_version o s).1.db
remove_version-IsWellFormed o s w row = elim (remove_cases o s row) [
  | inl (t, run, e) ↦ rw (removed_then o s t run) (elim (Bool-cases o.is_head) [
    | inl head ↦ (after_removal o s t w (IsIn-row o s.objects row) e head).0
    | inr old ↦ rw (no_head_then o t old) (record {
      unique_versions = λ v. rw e (
          le_trans (count-delete_le (is_row_of o) (has_version v) s.objects) (w.unique_versions v));
      unique_heads = λ b k.
          rw e
            (le_trans (count-delete_le (is_row_of o) (head_of b k) s.objects) (w.unique_heads b k));
    })
  ])
  | inr (e, t, run, same) ↦ rw (refused_then o s t e run) (subst IsWellFormed (sym same) w)
]

restore_head_ok :
    (o : ObjectVersion) (t : Session) → o.is_head ≡ true → (restore_head o t).0 ≡ ok tt
restore_head_ok o t head = elim (Restored-cases o t head) [
  | inl (run, gone) ↦ rw run refl
  | inr (l, run, _, _, _) ↦ rw run refl
]

-- When a request removes the head version of an object, which is one row of a well-formed
-- session, either that raises and the tables are as they were, or it returns, the versions are
-- well-formed, and the object has no version left or one that is its head and than which none of
-- its versions was created later.
pub remove_version-Succeeded :
    (o : ObjectVersion) (s : Session)
    → IsWellFormed s.db
    → select (has_version o.version_id) s.objects ≡ o ∷ []
    → o.is_head ≡ true
    → let (r, t) = remove_version o s in
      ((r ≡ ok tt) × IsWellFormed t.db × Succeeded o.bucket_id o.key t.objects)
      ⊎ ((e : Error) × (r ≡ err e) × (t.db ≡ s.db))
remove_version-Succeeded o s w row head = elim (remove_cases o s row) [
  | inl (t, run, e) ↦
      let after = after_removal o s t w (IsIn-row o s.objects row) e head in
      rw (removed_then o s t run) (inl (restore_head_ok o t head, after.0, after.1))
  | inr (e, t, run, same) ↦ rw (refused_then o s t e run) (inr (e, refl, same))
]
