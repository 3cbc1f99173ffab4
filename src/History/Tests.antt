-- ===== src/History/Tests.antt =====
-- A history of a session with two objects, with a storage that keeps no data.
use invenio_files_rest.Prelude.{none, some, true, [], ◌∷◌, List}
use invenio_files_rest.Bucket as Buckets
use invenio_files_rest.History.{
  Op, create, delete, restore, copy, remove, snapshot, create_upload, remove_file_data, run,
  run-IsWellFormed,
}
use invenio_files_rest.ObjectVersion.Heads.{IsWellFormed}
use invenio_files_rest.Samples.{session, backend, session-IsWellFormed}

abbrev ops : List Op
ops =
    create (Buckets.instance_of 7) "b" (some 10) none none
    ∷ delete (Buckets.instance_of 7) "a"
    ∷ restore 20
    ∷ copy 20 none (some "c")
    ∷ remove 20
    ∷ snapshot 7 true
    ∷ create_upload (Buckets.instance_of 7) "d" 30 10
    ∷ remove_file_data 10 true true
    ∷ []

run-IsWellFormed_example : IsWellFormed (run backend ops session).db
run-IsWellFormed_example = run-IsWellFormed backend ops session session-IsWellFormed
