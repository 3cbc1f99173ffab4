-- ===== src/Bucket/Syncing.antt =====
-- `Bucket.sync` and what it has nothing to do for.
mod Tests
use invenio_files_rest.Prelude.{
  ℕ, String, Bool, true, false, Option, none, some, List, [], ◌∷◌, ◌++◌, ◌≡◌, refl, sym, arith,
  is_some, not, ◌||◌, option_eq, if◌then◌else◌, ◌==◌, ==_refl, Option-cases, inl, inr,
}
use invenio_files_rest.Prelude.Tables.{select}
use invenio_files_rest.Prelude.Sorting.{order_by}
use invenio_files_rest.Schema.{ObjectVersion, Bucket as BucketRow}
use invenio_files_rest.Session.{Session, ok, ◌>>=◌, collect}
use invenio_files_rest.Bucket
use invenio_files_rest.Bucket.{instance_of}
use invenio_files_rest.Bucket.Mirror.{
  Versions, lookup, by_first, sync_one, sync_all, delete_one, delete_extra, extras, sync,
}
use invenio_files_rest.ObjectVersion.Reading.{get_by_bucket, by_key, listed}

-- The newest version of each object of a bucket, by the order of the keys.
abbrev pub current : ℕ → Session → Versions
current b s =
    by_first (order_by (by_key s.config.key_before) (select (listed b false true) s.objects)) []

-- The file of an object, none where there is no object or a delete marker.
abbrev file_of : Option ObjectVersion → Option ℕ
file_of none = none
file_of (some o) = o.file_id

-- Each object of the source has the file that it has in the target.
abbrev pub AllAgree : Versions → Versions → Type 0
AllAgree target [] = Unit
AllAgree target ((key, o) ∷ rest) = (o.file_id ≡ file_of (lookup key target)) × AllAgree target rest

-- Each object of the target is one of the source.
abbrev pub AllKnown : Versions → Versions → Type 0
AllKnown source [] = Unit
AllKnown source ((key, o) ∷ rest) = (is_some (lookup key source) ≡ true) × AllKnown source rest

sync_one-settled :
    (target : ℕ) (in_target : Versions) (key : String) (o : ObjectVersion) (s : Session)
    (t : Option ObjectVersion)
    → lookup key in_target ≡ t
    → o.file_id ≡ file_of t
    → sync_one target in_target key o s ≡ (ok [], s)
unfolding sync_one ◌>>=◌
sync_one-settled target in_target key o s none e same = ground (arith, e, same)
sync_one-settled target in_target key o s (some t) e same = elim (Option-cases t.file_id) [
  | inl gone ↦ ground (arith, e, same, gone)
  | inr (i, file) ↦ ground (arith, e, same, file, ==_refl i)
]

sync_all-settled :
    (target : ℕ) (in_target source : Versions) (s : Session)
    → AllAgree in_target source
    → sync_all target in_target source s ≡ (ok [], s)
unfolding sync_all collect ◌>>=◌
sync_all-settled target in_target [] s a = refl
sync_all-settled target in_target ((key, o) ∷ rest) s (same, more) = ground (
  arith,
  sync_one-settled target in_target key o s (lookup key in_target) refl same,
  sync_all-settled target in_target rest s more,
)

delete_extra-settled :
    (target : ℕ) (source dest : Versions) (s : Session)
    → AllKnown source dest
    → delete_extra target source dest s ≡ (ok [], s)
unfolding delete_extra delete_one collect ◌>>=◌
delete_extra-settled target source [] s a = refl
delete_extra-settled target source ((key, o) ∷ rest) s (known, more) =
    ground (arith, known, delete_extra-settled target source rest s more)

-- Bucket.sync of a bucket that is not deleted to a bucket that is not locked changes nothing and
-- reports no change where each object of the source has the same file in the target, an object
-- that is not there having no file as one whose newest version is a delete marker has, and where,
-- if extra objects are to be deleted, each object of the target is one of the source.
pub sync-settled :
    (b target : ℕ) (delete_extras : Bool) (r t : BucketRow) (s : Session)
    → select (Bucket.has_id b) s.buckets ≡ r ∷ []
    → r.deleted ≡ false
    → select (Bucket.has_id target) s.buckets ≡ t ∷ []
    → t.locked ≡ false
    → AllAgree (current target s) (current b s)
    → (delete_extras ≡ true → AllKnown (current b s) (current target s))
    → sync b target delete_extras s ≡ (ok [], s)
unfolding sync ◌>>=◌
sync-settled b target true r t s here open_ there unlocked agree known = ground (
  arith,
  here,
  open_,
  there,
  unlocked,
  sync_all-settled target (current target s) (current b s) s agree,
  delete_extra-settled target (current b s) (current target s) s (known refl),
)
sync-settled b target false r t s here open_ there unlocked agree known = ground (
  arith,
  here,
  open_,
  there,
  unlocked,
  sync_all-settled target (current target s) (current b s) s agree,
)
