-- ===== src/ObjectVersion/Store.antt =====
-- The objects of all buckets as a map from bucket and key to a file, which creating a version sets and
-- deleting an object clears.
pub mod Stepping
pub mod Refinement
use invenio_files_rest.Prelude.{
  ℕ, zero, suc, String, Bool, true, false, Option, none, some, List, [], ◌∷◌, ◌≡◌, refl, sym, ap,
  ◌∙◌, ◌≢◌, ◌⊎◌, inl, inr, ◌&&◌, ◌==◌, str_eq, ltb, if◌then◌else◌, arith, Bool-cases, Option-cases,
  ==→eq, eq_iff,
}
use mathlib.Core.Path.{subst}
use native.Mathlib.Nat.{le_trans}
use Prim.Native.String.{count as text_count}
use invenio_files_rest.Prelude.Int.{pos, ◌+ℤ◌, ◌-ℤ◌}
use invenio_files_rest.Prelude.Tables.{
  select, select-update_nil, select-update_self, select-update_other, select_cases, update,
  count_mono, select-passes,
}
use invenio_files_rest.Schema.{ObjectVersion, Bucket as BucketRow, FileInstance as FileRow}
use invenio_files_rest.Session.{Session, Result, ok, err, one_or_none, ◌>>=◌}
use invenio_files_rest.FileInstance
use invenio_files_rest.Bucket
use invenio_files_rest.Bucket.{instance_of}
use invenio_files_rest.ObjectVersion.Reading.{get, wanted, head_of, has_version}
use invenio_files_rest.ObjectVersion.Creating.{create}
use invenio_files_rest.ObjectVersion.Changing.{delete}
use invenio_files_rest.ObjectVersion.Heads.{IsWellFormed, unhead, demoted}
use invenio_files_rest.ObjectVersion.Invariant.{create-Keeps}
use invenio_files_rest.ObjectVersion.Operations.{delete-object-Keeps}
use invenio_files_rest.ObjectVersion.Steps.{IsReady, created, grown, create_with_file_lem}
use invenio_files_rest.ObjectVersion.Effects.{
  head, get-create, get-delete, delete_lem, delete_missing, marked, shrunk,
}

-- What a client asks for: a version with a file, or that an object is deleted.
pub data Change : Type 0 where
  put : ℕ → String → ℕ → Change
  erase : ℕ → String → Change

unfoldable pub perform : Change → Session → Session
unfolding create delete
perform (put b key i) s = (create (instance_of b) key (some i) none none s).1
perform (erase b key) s = (delete (instance_of b) key s).1

unfoldable pub perform_all : List Change → Session → Session
unfolding perform
perform_all [] s = s
perform_all (x ∷ xs) s = perform_all xs (perform x s)

-- The abstract state and what a change does to it.
abbrev pub Store : Type 0
Store = ℕ → String → Option ℕ

abbrev pub apply : Change → Store → Store
apply (put b key i) m c k = if b == c && str_eq key k then some i else m c k
apply (erase b key) m c k = if b == c && str_eq key k then none else m c k

abbrev pub apply_all : List Change → Store → Store
apply_all [] m = m
apply_all (x ∷ xs) m = apply_all xs (apply x m)

abbrev pub visible_file : Result (Option ObjectVersion) → Option ℕ
visible_file (ok (some o)) = o.file_id
visible_file (ok none) = none
visible_file (err e) = none

-- The store that a session represents: the file of what `ObjectVersion.get` returns.
abbrev pub store : Session → Store
store s c k = visible_file (head c k s)

abbrev pub HasFile : ℕ → Session → Type 0
HasFile i s = (f : FileRow) × (select (FileInstance.has_id i) s.files ≡ f ∷ [])

-- The bucket is there and unlocked, and the key fits.
abbrev pub Accepts : ℕ → String → Session → Type 0
Accepts b key s =
    (r : BucketRow) × (select (Bucket.has_id b) s.buckets ≡ r ∷ [])
    × (r.locked ≡ false)
    × (ltb s.config.object_key_max_len (text_count key) ≡ false)

-- A change is possible: its bucket accepts it, and the file exists.
abbrev pub IsAllowed : Change → Session → Type 0
IsAllowed (put b key i) s = Accepts b key s × HasFile i s
IsAllowed (erase b key) s = Accepts b key s

abbrev pub AllAllowed : List Change → Session → Type 0
AllAllowed [] s = Unit
AllAllowed (x ∷ xs) s = IsAllowed x s × AllAllowed xs s

-- Versions are well-formed, the identifiers to be drawn differ from each other and from those of the
-- versions, and the files of the visible versions exist.
pub record IsServing (s : Session) : Type 0 where
  pub valid : IsWellFormed s.db
  pub fresh : (n : ℕ) → select (has_version (s.uuids n)) s.objects ≡ []
  pub distinct : (m n : ℕ) → s.uuids m ≡ s.uuids n → m ≡ n
  pub linked : (c : ℕ) (k : String) (i : ℕ) → store s c k ≡ some i → HasFile i s

-- The operation returns a value.
abbrev pub Returns : Change → Session → Type 0
Returns (put b key i) s = (v : ℕ) × ((create (instance_of b) key (some i) none none s).0 ≡ ok v)
Returns (erase b key) s = (v : Option ℕ) × ((delete (instance_of b) key s).0 ≡ ok v)

abbrev pub AllReturn : List Change → Session → Type 0
AllReturn [] s = Unit
AllReturn (x ∷ xs) s = Returns x s × AllReturn xs (perform x s)
