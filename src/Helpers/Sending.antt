-- ===== src/Helpers/Sending.antt =====
-- How the file of a version is sent: `ObjectVersion.mimetype` and the `send_file` of the version, of its
-- file and of its storage, with `guess_mimetype` of utils.py.
use invenio_files_rest.Prelude.{
  ℕ, String, Bool, true, Option, none, some, List, [], ◌∷◌, str_eq, if◌then◌else◌,
}
use invenio_files_rest.Errors.{value_error, storage_error}
use invenio_files_rest.Schema.{FileInstance, ObjectVersion}
use invenio_files_rest.Session.{Result, ok, err, ⊤}
use invenio_files_rest.Helpers.Mimetypes.{Library, Response, octet_stream, send_stream}

abbrev lookup : String → List (String × String) → Option String
lookup key [] = none
lookup key ((k, v) ∷ rest) = if str_eq k key then some v else lookup key rest

abbrev pub encoding_mimetypes : List (String × String)
encoding_mimetypes =
    ("gzip", "application/gzip")
    ∷ ("compress", "application/gzip")
    ∷ ("bzip2", "application/x-bzip2")
    ∷ ("xz", "application/x-xz")
    ∷ []

-- `m or "application/octet-stream"`
abbrev or_octets : Option String → String
or_octets none = octet_stream
or_octets (some m) = if str_eq m "" then octet_stream else m

-- Both parts of what `mimetypes.guess_type` returns.
module _ (library : Library) (guess_encoding : String → Option String) where
  -- `guess_mimetype`
  unfoldable pub guess_mimetype : String → String
  guess_mimetype filename = or_octets (elim (guess_encoding filename) [
    | none ↦ library.guess_type filename
    | some e ↦ if str_eq e "" then library.guess_type filename else lookup e encoding_mimetypes
  ])

  -- `ObjectVersion.mimetype`
  unfoldable pub mimetype : ObjectVersion → String
  unfolding guess_mimetype
  mimetype o = elim o.mimetype [
    | none ↦ guess_mimetype o.key
    | some m ↦ if str_eq m "" then guess_mimetype o.key else m
  ]

-- `str.split(":")` and `basename`
module _ (library : Library) (guess_encoding : String → Option String)
    (split_colon : String → List String) (basename : String → String) where
  -- `algo, value = checksum.split(":")`, of which an MD5 checksum is sent.
  abbrev md5_of_parts : List String → Result (Option String)
  md5_of_parts (algo ∷ value ∷ []) = ok (if str_eq algo "md5" then some value else none)
  md5_of_parts _ = err (value_error "unpack")

  abbrev md5_of : Option String → Result (Option String)
  md5_of none = ok none
  md5_of (some c) = if str_eq c "" then ok none else md5_of_parts (split_colon c)

  -- What `send_file` of a storage answers for the outcome of opening the file.
  abbrev wrapped : {A : Type 0} → Result A → (A → Response) → Result Response
  wrapped (ok a) send = ok (send a)
  wrapped (err e) send = err (storage_error "Could not send file")

  -- `FileStorage.send_file` of storage/base.py
  unfoldable pub send_file :
      Result ⊤ → Option ℕ → FileInstance → String → String → Bool → Bool → Bool → Result Response
  unfolding send_stream
  send_file opened modified f filename type restricted trusted as_attachment = elim opened [
    | err e ↦ err (storage_error "Could not send file")
    | ok _ ↦ wrapped (md5_of f.checksum) (λ md5. send_stream library (record {
      filename = filename;
      size = f.size;
      mtime = modified;
      mimetype = some type;
      restricted = restricted;
      as_attachment = as_attachment;
      etag = f.checksum;
      content_md5 = md5;
      chunk_size = none;
      conditional = true;
      trusted = trusted;
    }))
  ]

  -- `ObjectVersion.send_file`
  unfoldable pub send_version :
      Result ⊤ → Option ℕ → ObjectVersion → FileInstance → Bool → Bool → Bool → Result Response
  unfolding send_file mimetype
  send_version opened modified o f restricted trusted as_attachment =
      send_file opened modified f (basename o.key) (mimetype library guess_encoding o) restricted
        trusted as_attachment
