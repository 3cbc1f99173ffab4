-- ===== src/Tasks/Tests.antt =====
-- The tasks on the sample session, with a second file that nothing refers to.
use invenio_files_rest.Tasks.Scheduling.{batch, total_size}
use invenio_files_rest.Tasks.Batches.{batch_lem}
use invenio_files_rest.Prelude.{
  some, ◌⊎◌, ◌<◌, ◌≤◌, ◌+◌, arith, ◌≡◌, refl, true, false, [], ◌∷◌, List, ◌++◌,
}
use Prim.Native.Nat.{min}
use invenio_files_rest.Prelude.Int.{pos}
use invenio_files_rest.Prelude.Tables.{select, count, length}
use invenio_files_rest.Schema.{FileInstance, Task}
use invenio_files_rest.Session.{Session, ok}
use invenio_files_rest.FileInstance as Files
use invenio_files_rest.Tasks.{is_orphan, clear_orphaned_files, remove_file_data}
use invenio_files_rest.Tasks.Orphans.{Each, IsRemoval, clear_orphaned_files_lem}
use invenio_files_rest.Tasks.Removal.{remove_file_data_safe, remove_file_data_lem}
use invenio_files_rest.Samples.{session, file, backend}

abbrev orphan : FileInstance
orphan = record file { id = 11; writable = true }

abbrev with_orphan : Session
with_orphan = record session { db = record session.db { files = file ∷ orphan ∷ [] } }

clear_orphaned_files_example :
    (new : List Task) × (clear_orphaned_files (λ f. false) (pos 1000) with_orphan
      ≡ (ok tt, record with_orphan { queue = new ++ [] }))
    × Each (IsRemoval (λ f. false) with_orphan) new
    × (length new ≡ min 1000 (count (is_orphan session.objects) (file ∷ orphan ∷ [])))
clear_orphaned_files_example = clear_orphaned_files_lem (λ f. false) 999 with_orphan

remove_file_data_safe_example :
    let t = (remove_file_data backend 11 true true with_orphan).1 in
    (select (Files.has_id 10) t.files ≡ select (Files.has_id 10) with_orphan.files)
    × (t.objects ≡ session.objects)
    × (t.multiparts ≡ session.multiparts)
unfolding Files.is_referenced
remove_file_data_safe_example = remove_file_data_safe backend 11 true true with_orphan 10 refl

remove_file_data_example :
    let (r, t) = remove_file_data backend 11 true false with_orphan in
    (r ≡ ok tt) × (select (Files.has_id 11) t.files ≡ []) × (t.objects ≡ session.objects)
unfolding Files.is_referenced
remove_file_data_example =
    remove_file_data_lem backend 11 true false with_orphan orphan refl refl refl refl

batch_example :
    (front : List FileInstance) × (last : FileInstance) × (rest : List FileInstance) × (file
        ∷ orphan ∷ []
      ≡ front ++ last ∷ rest)
    × (batch (some 30) 0 (file ∷ orphan ∷ []) ≡ front ++ last ∷ [])
    × (total_size front < 30)
    × ((rest ≡ []) ⊎ (30 ≤ total_size front + last.size))
batch_example = batch_lem 30 file (orphan ∷ []) (omega arith)
