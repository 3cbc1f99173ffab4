-- ===== src/ObjectVersion/Tests.antt =====
-- The theorems on versions at a concrete session, and runs of the operations.
use invenio_files_rest.Prelude.{
  false, arith, eq_iff, List, ltb, ℕ, String, ◌≡◌, refl, none, some, [], ◌∷◌, ◌==◌, ◌&&◌, str_eq,
  if◌then◌else◌,
}
use invenio_files_rest.Prelude.Int.{pos, ◌-ℤ◌}
use invenio_files_rest.Prelude.Tables.{select}
use invenio_files_rest.Session.{Session, ok, ◌>>=◌}
use invenio_files_rest.Bucket
use invenio_files_rest.Bucket.{instance_of}
use invenio_files_rest.ObjectVersion.Changing.{delete, restore}
use invenio_files_rest.ObjectVersion.Restoring.{head-restore}
use invenio_files_rest.Schema.{ObjectVersion}
use invenio_files_rest.ObjectVersion.Reading.{get}
use invenio_files_rest.ObjectVersion.Creating.{create}
use invenio_files_rest.ObjectVersion.Steps.{IsReady, new_version}
use invenio_files_rest.ObjectVersion.Effects.{head, get-create, get-delete, delete-delete}
use Prim.Native.String.{count as text_count}
use invenio_files_rest.ObjectVersion.Store.{
  Change, put, erase, perform_all, apply_all, store, Accepts, AllAllowed, AllReturn, IsServing,
}
use invenio_files_rest.ObjectVersion.Store.Refinement.{perform_all_lem}
use invenio_files_rest.Samples.{keys_differ, session, bucket, file, version, session-IsWellFormed}

ready : IsReady 7 "a" none bucket session
ready = record {
  bucket = refl;
  unlocked = refl;
  fits = refl;
  fresh = refl;
  valid = session-IsWellFormed;
}

get-create_example :
    head 7 "a" (create (instance_of 7) "a" (some 10) none none session).1
    ≡ ok (some (new_version 7 "a" (some 10) none none session))
get-create_example = get-create 7 "a" 10 file none none bucket session ready refl 7 "a"

get-delete_example :
    ((c : ℕ) (k : String)
      → head c k (delete (instance_of 7) "a" session).1
        ≡ (if 7 == c && str_eq "a" k then ok none else head c k session))
    × (select (Bucket.has_id 7) (delete (instance_of 7) "a" session).1.buckets
        ≡ record bucket { size = pos 0 } ∷ [])
unfolding get ◌>>=◌ ◌-ℤ◌
get-delete_example = get-delete 7 "a" version 10 file bucket session ready refl refl refl

delete-delete_example :
    let t = (delete (instance_of 7) "a" session).1 in delete (instance_of 7) "a" t ≡ (ok none, t)
unfolding get ◌>>=◌
delete-delete_example = delete-delete 7 "a" version 10 file bucket session ready refl refl refl

-- An object with a head and an old version.
abbrev old : ObjectVersion
old = record version { is_head = false; version_id = 19 }

abbrev with_old : Session
with_old = record session { db = record session.db { objects = version ∷ old ∷ [] } }

with_old-IsReady : IsReady 7 "a" none bucket with_old
with_old-IsReady = record {
  bucket = refl;
  unlocked = refl;
  fits = refl;
  fresh = refl;
  valid = record {
    unique_versions = λ v. ground arith;
    unique_heads = λ b k. ground (arith, eq_iff "a" k);
  };
}

head-restore_example :
    head 7 "a" (restore 19 with_old).1 ≡ ok (some (new_version 7 "a" (some 10) none none with_old))
head-restore_example =
    head-restore 19 old 10 file bucket with_old with_old-IsReady refl refl refl refl 7 "a"

session-IsServing : IsServing session
unfolding get ◌>>=◌
session-IsServing = record {
  valid = session-IsWellFormed;
  fresh = λ n. ground arith;
  distinct = λ m n e. omega (arith, e);
  linked = λ c k i e. (file, ground (arith, e, eq_iff "a" k, eq_iff "b" k, keys_differ));
}

-- The object is replaced, a new one put and the first one deleted.
abbrev changes : List Change
changes = put 7 "a" 10 ∷ put 7 "c" 10 ∷ erase 7 "a" ∷ []

accepts : (key : String) → ltb 255 (text_count key) ≡ false → Accepts 7 key session
accepts key fits = (bucket, refl, refl, fits)

changes-AllAllowed : AllAllowed changes session
changes-AllAllowed =
    ((accepts "a" refl, (file, refl)), ((accepts "c" refl, (file, refl)), (accepts "a" refl, tt)))

perform_all_example :
    AllReturn changes session
    × IsServing (perform_all changes session)
    × ((c : ℕ) (k : String)
        → store (perform_all changes session) c k ≡ apply_all changes (store session) c k)
perform_all_example = perform_all_lem changes session session-IsServing changes-AllAllowed

changed : store (perform_all changes session) 7 "c" ≡ some 10
changed = perform_all_example.2 7 "c"
