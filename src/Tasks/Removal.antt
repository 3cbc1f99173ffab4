-- ===== src/Tasks/Removal.antt =====
-- `remove_file_data`: a file that a version or an upload refers to stays, and one that nothing
-- refers to goes.
use invenio_files_rest.Prelude.{
  ℕ, Bool, true, false, ◌≡◌, refl, ◌⊎◌, inl, inr, List, [], ◌∷◌, ◌||◌, ◌&&◌, not, ap, ◌∙◌, arith,
  Bool-cases, ==→eq, ◌==◌,
}
use invenio_files_rest.Prelude.Tables.{
  select, delete as delete_rows, select-delete_other, select-delete_self, select-passes,
}
use invenio_files_rest.Errors.{integrity_error}
use invenio_files_rest.Schema.{FileInstance}
use invenio_files_rest.Session.{lift, Session, Action, Result, ⊤, ok, err, ◌>>=◌}
use invenio_files_rest.Storage.{Backend}
use invenio_files_rest.FileInstance as Files
use invenio_files_rest.Tasks.{on_integrity_error, try_remove, remove_row_and_data, remove_file_data}

-- The session without the row of the file.
abbrev pub without : ℕ → Session → Session
without i s = record s { db = record s.db { files = delete_rows (Files.has_id i) s.files } }

delete_referenced :
    (i : ℕ) (s : Session)
    → Files.is_referenced i s ≡ true
    → Files.delete i s ≡ (err integrity_error, s)
unfolding Files.delete ◌>>=◌
delete_referenced i s h = ground arith

delete_free :
    (i : ℕ) (s : Session)
    → Files.is_referenced i s ≡ false
    → Files.delete i s ≡ (ok tt, without i s)
unfolding Files.delete ◌>>=◌
delete_free i s h = ground arith

-- The session is the one before, or the one without a file that nothing refers to.
abbrev Outcome : ℕ → Session → Session → Type 0
Outcome i s t = (t ≡ s) ⊎ ((Files.is_referenced i s ≡ false) × (t ≡ without i s))

row_and_data_cases :
    (backend : Backend) (f : FileInstance) (s : Session)
    → Outcome f.id s (remove_row_and_data backend f s).1
unfolding remove_row_and_data ◌>>=◌
row_and_data_cases backend f s = elim (Bool-cases (Files.is_referenced f.id s)) [
  | inl used ↦ inl (ground (arith, delete_referenced f.id s used))
  | inr free ↦ inr (free, ground (arith, delete_free f.id s free))
]

-- Catching the error leaves the session alone.
caught_session :
    (silent : Bool) (m : Action ⊤) (s : Session) → (on_integrity_error silent m s).1 ≡ (m s).1
unfolding on_integrity_error
caught_session silent m s = go (m s)
  where
    go : (p : Result ⊤ × Session) → (on_integrity_error silent (λ _. p) s).1 ≡ p.1
    go (ok a, t) = refl
    go (err e, t) = refl

try_remove_found :
    (backend : Backend) (i : ℕ) (force : Bool) (s : Session) (f : FileInstance)
    → select (Files.has_id i) s.files ≡ f ∷ []
    → Outcome i s (try_remove backend i force s).1
unfolding try_remove Files.get ◌>>=◌
try_remove_found backend i force s f h =
    let same : f.id ≡ i = ==→eq f.id i (select-passes (Files.has_id i) s.files f [] h) in
    elim (Bool-cases (not f.writable && not force)) [
      | inl kept ↦ inl (ground (arith, same))
      | inr gone ↦ elim (row_and_data_cases backend f s) [
        | inl e ↦ inl (ground (arith, same, e))
        | inr (free, e) ↦ inr (ground (arith, same, free), ground (arith, same, e))
      ]
    ]

try_remove_missing :
    (backend : Backend) (i : ℕ) (force : Bool) (s : Session)
    → select (Files.has_id i) s.files ≡ []
    → (try_remove backend i force s).1 ≡ s
unfolding try_remove Files.get ◌>>=◌
try_remove_missing backend i force s h = ground arith

try_remove_many :
    (backend : Backend) (i : ℕ) (force : Bool) (s : Session) (f g : FileInstance)
    (l : List FileInstance)
    → select (Files.has_id i) s.files ≡ f ∷ g ∷ l
    → (try_remove backend i force s).1 ≡ s
unfolding try_remove Files.get ◌>>=◌
try_remove_many backend i force s f g l h = ground arith

removal_cases :
    (backend : Backend) (i : ℕ) (silent force : Bool) (s : Session)
    → Outcome i s (remove_file_data backend i silent force s).1
unfolding remove_file_data
removal_cases backend i silent force s =
    rw (caught_session silent (try_remove backend i force) s)
      (go (select (Files.has_id i) s.files) refl)
  where
    go :
        (l : List FileInstance)
        → select (Files.has_id i) s.files ≡ l
        → Outcome i s (try_remove backend i force s).1
    go [] h = inl (try_remove_missing backend i force s h)
    go (f ∷ []) h = try_remove_found backend i force s f h
    go (f ∷ g ∷ l) h = inl (try_remove_many backend i force s f g l h)

-- The task remove_file_data, for whatever file, silent or not and by force or not, leaves the row
-- of every file that a version or an upload refers to as it was, and all versions and uploads.
pub remove_file_data_safe :
    (backend : Backend) (i : ℕ) (silent force : Bool) (s : Session) (j : ℕ)
    → Files.is_referenced j s ≡ true
    → let t = (remove_file_data backend i silent force s).1 in
      (select (Files.has_id j) t.files ≡ select (Files.has_id j) s.files)
      × (t.objects ≡ s.objects)
      × (t.multiparts ≡ s.multiparts)
remove_file_data_safe backend i silent force s j used =
    elim (removal_cases backend i silent force s) [
      | inl e ↦ rw e (refl, refl, refl)
      | inr (free, e) ↦
          let differ : (i == j) ≡ false = ground (arith, ==→eq i j) in
          rw e (
            select-delete_other (Files.has_id i) (Files.has_id j) s.files
                (λ f h. ground (arith, ==→eq f.id i, ==→eq f.id j)),
            refl,
            refl,
          )
    ]

free_outcome :
    (backend : Backend) (i : ℕ) (force : Bool) (s : Session) (f : FileInstance)
    → select (Files.has_id i) s.files ≡ f ∷ []
    → Files.is_referenced i s ≡ false
    → (f.writable || force) ≡ true
    → try_remove backend i force s ≡ (backend.delete f, without i s)
unfolding try_remove remove_row_and_data Files.get ◌>>=◌ lift
free_outcome backend i force s f h free may =
    let same : f.id ≡ i = ==→eq f.id i (select-passes (Files.has_id i) s.files f [] h) in
    ground (arith, same, delete_free i s free)

caught_ok :
    (silent : Bool) (m : Action ⊤) (s t : Session)
    → m s ≡ (ok tt, t)
    → on_integrity_error silent m s ≡ (ok tt, t)
unfolding on_integrity_error
caught_ok silent m s t h = ap (λ p. on_integrity_error silent (λ _. p) s) h

removed :
    (backend : Backend) (i : ℕ) (silent force : Bool) (s : Session) (f : FileInstance)
    → select (Files.has_id i) s.files ≡ f ∷ []
    → Files.is_referenced i s ≡ false
    → (f.writable || force) ≡ true
    → backend.delete f ≡ ok tt
    → remove_file_data backend i silent force s ≡ (ok tt, without i s)
unfolding remove_file_data
removed backend i silent force s f h free may gone =
    caught_ok silent (try_remove backend i force) s (without i s)
      (free_outcome backend i force s f h free may ∙ ap (λ r. (r, without i s)) gone)

-- The task remove_file_data, for a file of the table that no version and no upload refers to and
-- that is writable or removed by force, where the storage deletes the data, returns without an
-- error and leaves no row of the file and all versions.
pub remove_file_data_lem :
    (backend : Backend) (i : ℕ) (silent force : Bool) (s : Session) (f : FileInstance)
    → select (Files.has_id i) s.files ≡ f ∷ []
    → Files.is_referenced i s ≡ false
    → (f.writable || force) ≡ true
    → backend.delete f ≡ ok tt
    → let (r, t) = remove_file_data backend i silent force s in
      (r ≡ ok tt) × (select (Files.has_id i) t.files ≡ []) × (t.objects ≡ s.objects)
remove_file_data_lem backend i silent force s f h free may gone =
    rw (removed backend i silent force s f h free may gone)
      (refl, select-delete_self (Files.has_id i) s.files, refl)
