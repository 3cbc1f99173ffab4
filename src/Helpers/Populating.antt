-- ===== src/Helpers/Populating.antt =====
-- `populate_from_path` of helpers.py: a bucket is filled from the files below a path.
use invenio_files_rest.Prelude.{
  ℕ, String, Bool, false, Option, none, some, List, [], ◌∷◌, ◌&&◌, ◌==◌, str_eq, not, if◌then◌else◌,
}
use invenio_files_rest.Prelude.Tables.{select}
use invenio_files_rest.Prelude.Texts.{append}
use invenio_files_rest.Errors.{assertion_error}
use invenio_files_rest.Schema.{Db, FileInstance}
use invenio_files_rest.Session.{
  Action, Result, pure, gets, lift, raise_if, ◌>>=◌, ◌>>◌, collect, if_some,
}
use invenio_files_rest.Session.Keeps.{Keeps, keeps_rules}
use invenio_files_rest.Storage.{Backend}
use invenio_files_rest.Storage.Writing.{Stream}
use invenio_files_rest.Helpers.Checksums.{Digest, compute_md5_checksum}
use invenio_files_rest.Bucket.{BucketArg}
use invenio_files_rest.ObjectVersion.Creating.{create, create_from_stream}

-- What the file system and the methods of texts answer: `open(path, "rb")` as the chunks that reads of
-- a size return, `getsize`, `isfile`, `basename`, `join`, the directories of `walk` from the bottom up
-- with their files, and the parts of a file's name after the source, split at the separator.
pub record Disk : Type 0 where
  pub open_file : String → Result Stream
  pub size_of : String → ℕ
  pub is_file : String → Bool
  pub basename : String → String
  pub join : String → String → String
  pub walk : String → List (String × List String)
  pub starts_with : String → String → Bool
  pub parts_after : String → String → List String

abbrev is_checksum : Option String → String → Bool
is_checksum none checksum = false
is_checksum (some c) checksum = str_eq c checksum

abbrev pub same_contents : String → ℕ → FileInstance → Bool
same_contents checksum size f = is_checksum f.checksum checksum && f.size == size

-- `"/".join`
abbrev pub join_key : List String → String
join_key [] = ""
join_key (p ∷ []) = p
join_key (p ∷ q ∷ ps) = append p (append "/" (join_key (q ∷ ps)))

-- The parts that are not empty.
abbrev pub nonempty : List String → List String
nonempty [] = []
nonempty (p ∷ ps) = if str_eq p "" then nonempty ps else p ∷ nonempty ps

abbrev pub first_id : List FileInstance → Option ℕ
first_id [] = none
first_id (f ∷ fs) = some f.id

module _ (backend : Backend) (digest : Digest) (disk : Disk) (bucket : BucketArg) (checksum : Bool)
    (key_prefix : String) where
  -- The file instance that has the contents of the path, if checksums are asked for.
  unfoldable pub existing_file : String → Action (Option ℕ)
  unfolding compute_md5_checksum
  existing_file path =
      if checksum
      then (lift (disk.open_file path) >>= λ stream. gets (λ s. first_id (
          select (same_contents (compute_md5_checksum digest stream) (disk.size_of path)) s.files)))
      else pure none

  -- `create_file`
  unfoldable pub create_file : String → String → Action ℕ
  unfolding existing_file create create_from_stream
  create_file key path = do
    found ← existing_file path
    if_some found (λ i. create bucket (append key_prefix key) (some i) none none)
        (lift (disk.open_file path) >>= λ stream.
          create_from_stream backend bucket (append key_prefix key) none stream none none)

  -- The body of the loop over the names in a directory.
  abbrev create_below : String → String → String → Action (List ℕ)
  create_below source root name = do
    raise_if (not (disk.starts_with (disk.join root name) source)) assertion_error
    v ←
        create_file (join_key (nonempty (disk.parts_after source (disk.join root name))))
          (disk.join root name)
    pure (v ∷ [])

  -- `populate_from_path`, whose iterator is run to its end.
  unfoldable pub populate_from_path : String → Action (List ℕ)
  unfolding create_file collect
  populate_from_path source =
      if disk.is_file source
      then (create_file (disk.basename source) source >>= λ v. pure (v ∷ []))
      else collect (disk.walk source) (λ (root, files). collect files (create_below source root))

  existing_file-Keeps : (P : Db → Type 0) (path : String) → Keeps P (existing_file path)
  unfolding existing_file
  existing_file-Keeps P path = search keeps_rules depth 9

  pub populate_from_path-Keeps :
      (P : Db → Type 0)
      → ((key : String) (i : Option ℕ) → Keeps P (create bucket key i none none))
      → ((key : String) (stream : Stream)
          → Keeps P (create_from_stream backend bucket key none stream none none))
      → (source : String) → Keeps P (populate_from_path source)
  unfolding populate_from_path create_file
  populate_from_path-Keeps P created filled source =
      search (keeps_rules, existing_file-Keeps, created, filled) depth 20
