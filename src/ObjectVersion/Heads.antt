-- ===== src/ObjectVersion/Heads.antt =====
-- The well-formedness of the table of versions, and what `create` does to it: the state after each
-- step of `create`, written out.
use invenio_files_rest.Prelude.{ℕ, String, ◌≤◌, ◌≡◌, inl, inr, false, List, arith}
use invenio_files_rest.Prelude.Tables.{count, update, select_cases, update-select_nil, update_same}
use invenio_files_rest.Schema.{Db, ObjectVersion}
use invenio_files_rest.Session.{Session, ok, ◌>>=◌}
use invenio_files_rest.ObjectVersion.Reading.{has_version, head_of}
use invenio_files_rest.ObjectVersion.Creating.{demote_latest}

-- A version identifier names one row, and an object has one head at most.
pub record IsWellFormed (d : Db) : Type 0 where
  pub unique_versions : (v : ℕ) → count (has_version v) d.objects ≤ 1
  pub unique_heads : (b : ℕ) (key : String) → count (head_of b key) d.objects ≤ 1

abbrev pub unhead : ObjectVersion → ObjectVersion
unhead o = record o { is_head = false }

-- The versions with no head left for the key.
abbrev pub demoted : ℕ → String → List ObjectVersion → List ObjectVersion
demoted b key os = update (head_of b key) unhead os

abbrev pub with_objects : Session → List ObjectVersion → Session
with_objects s os = record s { db = record s.db { objects = os } }

pub demote_latest_lem :
    (b : ℕ) (key : String) (s : Session)
    → IsWellFormed s.db
    → demote_latest b key s ≡ (ok tt, with_objects s (demoted b key s.objects))
unfolding demote_latest ◌>>=◌
demote_latest_lem b key s w = elim (select_cases (head_of b key) s.objects (w.unique_heads b key)) [
  | inl e ↦ rw (e, update-select_nil (head_of b key) unhead s.objects e)
  | inr (o, e) ↦ rw (
    e,
    update_same (head_of b key) (has_version o.version_id) unhead s.objects o e (ground arith)
        (w.unique_versions o.version_id),
  )
]
