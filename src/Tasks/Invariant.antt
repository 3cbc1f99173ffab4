-- ===== src/Tasks/Invariant.antt =====
-- The tasks keep the versions well-formed.
use invenio_files_rest.Prelude.{ℕ, String, Bool, Option, List, none, some, refl, true, false}
use invenio_files_rest.Prelude.Int.{ℤ}
use invenio_files_rest.Schema.{Db, FileInstance}
use invenio_files_rest.Session.{Session, Action, Result, ok, err, ⊤}
use invenio_files_rest.Session.Keeps.{Keeps}
use invenio_files_rest.Storage.{Backend}
use invenio_files_rest.ObjectVersion.Heads.{IsWellFormed}
use invenio_files_rest.ObjectVersion.Invariant.{version_rules, of_objects}
use invenio_files_rest.ObjectVersion.Operations as Versions
use invenio_files_rest.Multipart.Invariant as Uploads
use invenio_files_rest.Tasks.Scheduling.{
  limit_count, size_bound, interval_or, schedule_checksum_verification,
}
use invenio_files_rest.Tasks.{
  verify_checksum, on_integrity_error, remove_row_and_data, try_remove, remove_file_data,
  with_rollback, merge_multipartobject, remove_expired_multipartobjects, clear_orphaned_files,
  copy_or_delete, migrate_file,
}

module _ {A : Type 0} {P : Db → Type 0} where
  Keeps-with_rollback : (m : Action A) → Keeps P m → Keeps P (with_rollback m)
  unfolding with_rollback
  Keeps-with_rollback m h = record { at = λ s w. go s w (m s) (h.at s w) }
    where
      go :
          (s : Session)
          → P s.db
          → (p : Result A × Session) → P p.1.db
          → P (with_rollback (λ _. p) s).1.db
      go s w (ok a, t) k = k
      go s w (err e, t) k = w

Keeps-on_integrity_error :
    {P : Db → Type 0} (silent : Bool) (m : Action ⊤)
    → Keeps P m
    → Keeps P (on_integrity_error silent m)
unfolding on_integrity_error
Keeps-on_integrity_error {P = P} silent m h = record { at = λ s w. go s (m s) (h.at s w) }
  where
    go :
        (s : Session) (p : Result ⊤ × Session)
        → P p.1.db
        → P (on_integrity_error silent (λ _. p) s).1.db
    go s (ok a, t) k = k
    go s (err e, t) k = k

Keeps-copy_or_delete :
    (backend : Backend) (i : ℕ) (m : Action ⊤)
    → Keeps IsWellFormed m
    → Keeps IsWellFormed (copy_or_delete backend i m)
unfolding copy_or_delete
Keeps-copy_or_delete backend i m h = record { at = λ s w. go s (m s) (h.at s w) }
  where
    go :
        (s : Session) (p : Result ⊤ × Session)
        → IsWellFormed p.1.db
        → IsWellFormed (copy_or_delete backend i (λ _. p) s).1.db
    go s (ok a, t) k = k
    go s (err e, t) k = of_objects _ t.db refl k

ruleset task_rules = (
  version_rules, Keeps-with_rollback, Keeps-on_integrity_error, Keeps-copy_or_delete,
  Versions.relink_all-Keeps, Uploads.merge-Keeps, Uploads.abort-Keeps,
)

pub verify_checksum-Keeps :
    (backend : Backend) (i : ℕ) (pessimistic throws : Bool)
    → Keeps IsWellFormed (verify_checksum backend i pessimistic throws)
unfolding verify_checksum
verify_checksum-Keeps backend i true throws = search task_rules depth 16
verify_checksum-Keeps backend i false throws = search task_rules depth 16

pub remove_file_data-Keeps :
    (backend : Backend) (i : ℕ) (silent force : Bool)
    → Keeps IsWellFormed (remove_file_data backend i silent force)
unfolding remove_file_data try_remove remove_row_and_data
remove_file_data-Keeps backend i silent force = search task_rules depth 16

pub merge_multipartobject-Keeps :
    (backend : Backend) (u : ℕ) (v : Option ℕ)
    → Keeps IsWellFormed (merge_multipartobject backend u v)
unfolding merge_multipartobject
merge_multipartobject-Keeps backend u v = search task_rules depth 16

pub remove_expired-Keeps : Keeps IsWellFormed remove_expired_multipartobjects
unfolding remove_expired_multipartobjects
remove_expired-Keeps = search task_rules depth 16

pub clear_orphaned_files-Keeps :
    (force : FileInstance → Bool) (limit : ℤ)
    → Keeps IsWellFormed (clear_orphaned_files force limit)
unfolding clear_orphaned_files
clear_orphaned_files-Keeps force limit = search task_rules depth 16

pub migrate_file-Keeps :
    (backend : Backend) (i : ℕ) (name : String) (check : Bool)
    → Keeps IsWellFormed (migrate_file backend i name check)
unfolding migrate_file
migrate_file-Keeps backend i name true = search task_rules depth 20
migrate_file-Keeps backend i name false = search task_rules depth 20

limit_count-Keeps :
    (max_count : Option ℕ) (n : ℕ) (files : List FileInstance)
    → Keeps IsWellFormed (limit_count max_count n files)
unfolding limit_count
limit_count-Keeps none n files = search task_rules
limit_count-Keeps (some k) n files = search task_rules depth 16

size_bound-Keeps : (max_size : Option ℕ) (n : ℕ) → Keeps IsWellFormed (size_bound max_size n)
unfolding size_bound
size_bound-Keeps none n = search task_rules
size_bound-Keeps (some k) n = search task_rules depth 16

interval-Keeps : (given beat : Option ℕ) → Keeps IsWellFormed (interval_or given beat)
unfolding interval_or
interval-Keeps none none = search task_rules
interval-Keeps none (some t) = search task_rules
interval-Keeps (some t) beat = search task_rules

pub schedule-Keeps :
    (beat : Option ℕ) (query : List FileInstance → List FileInstance)
    (frequency interval max_count max_size : Option ℕ)
    → Keeps IsWellFormed
        (schedule_checksum_verification beat query frequency interval max_count max_size)
unfolding schedule_checksum_verification
schedule-Keeps beat query frequency interval max_count max_size =
    search (task_rules, limit_count-Keeps, size_bound-Keeps, interval-Keeps) depth 20
