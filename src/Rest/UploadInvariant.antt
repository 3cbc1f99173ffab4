-- ===== src/Rest/UploadInvariant.antt =====
-- The requests on multipart uploads keep the versions well-formed.
use invenio_files_rest.Prelude.{ℕ, String, Option, none, some}
use invenio_files_rest.Prelude.Int.{ℤ}
use invenio_files_rest.Schema.{MultipartObject}
use invenio_files_rest.Storage.{Backend}
use invenio_files_rest.Session.{Session, Action, Result, ok, err, ⊤}
use invenio_files_rest.Session.Keeps.{Keeps}
use invenio_files_rest.Session.Reads.{
  Action-cases, Reads, reads_then, keeps_known, Keeps-Reads, reads_rules,
}
use invenio_files_rest.Storage.Writing.{Stream}
use invenio_files_rest.ObjectVersion.Heads.{IsWellFormed}
use invenio_files_rest.ObjectVersion.Invariant.{version_rules, create-Keeps}
use invenio_files_rest.Multipart.Invariant as Multiparts
use invenio_files_rest.Multipart.Parts as Parts
use invenio_files_rest.Rest.Request.{App, Request}
use invenio_files_rest.Rest.Uploads.{
  initiate, check_part_length, fill_part, or_delete_part, upload_part, complete_upload,
  abort_upload,
}
use invenio_files_rest.Rest.Denied.{
  pass_bucket-Reads, pass_multipart-Reads, need-Reads, get_object-Reads,
}

pub ruleset rest_rules = (
  version_rules, Keeps-Reads, reads_rules, pass_bucket-Reads, pass_multipart-Reads, need-Reads,
  get_object-Reads, create-Keeps,
)

pub or_delete_part-Keeps :
    (u : ℕ) (n : ℤ) (m : Action ⊤)
    → Keeps IsWellFormed m
    → Keeps IsWellFormed (or_delete_part u n m)
unfolding or_delete_part
or_delete_part-Keeps u n m h = record { at = λ s w. go s w (m s) (h.at s w) }
  where
    go :
        (s : Session)
        → IsWellFormed s.db
        → (p : Result ⊤ × Session) → IsWellFormed p.1.db
        → IsWellFormed (or_delete_part u n (λ _. p) s).1.db
    go s w (ok a, t) k = k
    go s w (err e, t) k = (Multiparts.drop-Keeps u n).at (record t { db = s.db }) w

pub fill_part-Keeps :
    (backend : Backend) (u : ℕ) (n : ℤ) (stream : Stream)
    → Keeps IsWellFormed (fill_part backend u n stream)
unfolding fill_part
fill_part-Keeps backend u n stream =
    search (version_rules, Multiparts.part-Keeps, Multiparts.fill-Keeps) depth 12

pub check_part_length-Reads :
    (mp : MultipartObject) (n : ℤ) (size : Option ℤ) → Reads (check_part_length mp n size)
unfolding check_part_length
check_part_length-Reads mp n none = search reads_rules
check_part_length-Reads mp n (some k) = search reads_rules

pub upload_part-Keeps :
    (app : App) (rq : Request) (b : ℕ) (key : String) (u : ℕ)
    → Keeps IsWellFormed (upload_part app rq b key u)
unfolding upload_part Parts.get_or_none
upload_part-Keeps app rq b key u =
    search
      (
        version_rules, Keeps-Reads, pass_multipart-Reads, check_part_length-Reads,
        or_delete_part-Keeps, fill_part-Keeps,
      )
      depth 20

pub initiate-Keeps :
    (app : App) (b : ℕ) (key : String) (size part_size : Option ℕ)
    → Keeps IsWellFormed (initiate app b key size part_size)
unfolding initiate
initiate-Keeps app b key size part_size = search (version_rules, Multiparts.upload-Keeps) depth 12

pub complete_upload-Keeps :
    (b : ℕ) (key : String) (u : ℕ) → Keeps IsWellFormed (complete_upload b key u)
unfolding complete_upload
complete_upload-Keeps b key u =
    search (version_rules, Keeps-Reads, pass_multipart-Reads, Multiparts.complete-Keeps) depth 12

pub abort_upload-Keeps :
    (rq : Request) (b : ℕ) (key : String) (u : ℕ) → Keeps IsWellFormed (abort_upload rq b key u)
unfolding abort_upload
abort_upload-Keeps rq b key u =
    search (version_rules, Keeps-Reads, pass_multipart-Reads, need-Reads, Multiparts.abort-Keeps)
      depth 12
