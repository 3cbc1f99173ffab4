-- ===== src/Rest/PartRequests.antt =====
-- `multipart_uploadpart` of views.py as a whole: what it answers, and what it leaves where it raises.
mod Filling
mod Tests
use invenio_files_rest.Prelude.{
  ℕ, some, List, [], ◌∷◌, ◌≡◌, ◌∙◌, ◌≤◌, ◌==◌, ◌&&◌, ◌⊎◌, Bool-cases, ==→eq, ==_refl, false,
}
use invenio_files_rest.Prelude.Int.{ℤ, pos, ltb_ℤ}
use invenio_files_rest.Prelude.Tables.{
  select, count, update, delete as delete_rows, select-passes, count-update_same, some_row,
  some_row_cases, count_pos,
}
use invenio_files_rest.Errors.{multiple_results, multipart_invalid_part_number}
use invenio_files_rest.Multipart.Sizes.{last_part_number}
use invenio_files_rest.Schema.{Db, Part, FileInstance as FileRow}
use invenio_files_rest.Session.{
  Session, Action, Result, ok, err, pure, raise_if, ◌>>=◌, ◌>>◌, modify_parts, modify_files,
}
use invenio_files_rest.Session.Keeps.{Keeps, keeps_rules}
use invenio_files_rest.Session.Reads.{Reads, Reads-gets, Reads-lift}
use invenio_files_rest.Storage.{Backend}
use invenio_files_rest.Storage.Writing.{Stream}
use invenio_files_rest.FileInstance
use invenio_files_rest.Multipart.Parts as Parts
use invenio_files_rest.Multipart.Parts.{is_part}
use invenio_files_rest.Multipart.Numbers.{part-Keeps, fill-Keeps}
use invenio_files_rest.Multipart.Uploads as Uploads
use invenio_files_rest.Rest.Request.{Request, PartUpload, Response, part_data}
use invenio_files_rest.Rest.Uploads.{fill_part, or_delete_part}

-- The number of the part that the request sends.
abbrev pub Sends : Result PartUpload → ℕ → Type 0
Sends q n = (a : PartUpload) × (q ≡ ok a) × (a.part_number ≡ pos n)

-- The answer is the row of the part that is sent. Where the request raises, the tables are as they
-- were, but for that part, which may be gone.
abbrev pub IsAnswered : Result PartUpload → ℕ → Session → Result Response × Session → Type 0
IsAnswered q u s (ok answer, t) =
    (n : ℕ) × (p : Part) × Sends q n
    × (answer ≡ part_data (some p))
    × (select (is_part u n) t.parts ≡ p ∷ [])
IsAnswered q u s (err e, t) =
    (t.db ≡ s.db)
    ⊎ ((n : ℕ) × Sends q n × (t.db ≡ record s.db { parts = delete_rows (is_part u n) s.parts }))

abbrev store_part : Backend → ℕ → ℤ → Stream → Action Response
store_part backend u n stream = or_delete_part u n (fill_part backend u n stream) >>= λ _.
    Parts.get_or_none u n >>= λ p. pure (part_data p)
