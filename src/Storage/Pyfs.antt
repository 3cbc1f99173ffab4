-- ===== src/Storage/Pyfs.antt =====
-- storage/pyfs.py: files on a file system. PyFilesystem is a parameter: its disk, what a file holds,
-- and the calls of the storage, which answer with a result and the disk that they leave.
use invenio_files_rest.Prelude.{
  ℕ, ◌+◌, String, Bool, true, false, Option, none, some, List, [], ◌∷◌, ◌&&◌, not, str_eq, is_some,
  if◌then◌else◌,
}
use invenio_files_rest.Prelude.Int.{ℤ}
use invenio_files_rest.Prelude.Tables.{length}
use invenio_files_rest.Errors.{storage_error}
use invenio_files_rest.Schema.{FileSizeLimit}
use invenio_files_rest.Session.{Result, ok, err, ⊤}
use invenio_files_rest.Storage.Writing.{Stream, check_sizelimit, check_size}
use invenio_files_rest.Helpers.Checksums.{Digest, compute_checksum}

-- A file is named by its directory and its name in it.
pub record FileSystem : Type 1 where
  pub Disk : Type 0
  -- What the file holds, `none` where there is none; whether the directory has this directory.
  pub contents : String → String → Disk → Option (List ℕ)
  pub has_directory : String → String → Disk → Bool
  -- `opendir`, which creates the directory on demand.
  pub opendir : String → Bool → Disk → Result ⊤ × Disk
  -- `open` with mode "wb", and with "rb" or "r+b".
  pub open_new : String → String → Disk → Result ⊤ × Disk
  pub open_existing : String → String → Disk → Result ⊤ × Disk
  -- The chunks that the reads of an open file return.
  pub read : String → String → Disk → Result Stream
  -- Bytes written at a position, and `truncate`.
  pub write : String → String → ℕ → List ℕ → Disk → Result ⊤ × Disk
  pub truncate : String → String → ℕ → Disk → Result ⊤ × Disk
  pub remove : String → String → Disk → Result ⊤ × Disk
  pub removedir : String → String → Disk → Result ⊤ × Disk
  -- `dirname`, `basename` and `split` of a path.
  pub dirname : String → String
  pub basename : String → String
  pub split : String → String × String

module _ {D : Type 0} where
  -- The step that follows where there was no exception.
  infixl 5 ◌>>=◌ ◌>>◌
  abbrev pub ◌>>=◌ : {A B : Type 0} → (D → Result A × D) → (A → D → Result B × D) → D → Result B × D
  ◌>>=◌ m f d = let (r, t) = m d in elim r [ ok a ↦ f a t | err e ↦ (err e, t) ]

  abbrev pub ◌>>◌ : {A B : Type 0} → (D → Result A × D) → (D → Result B × D) → D → Result B × D
  m >> k = m >>= λ _. k

  abbrev pub done : {A : Type 0} → Result A → D → Result A × D
  done r d = (r, d)

  -- `except Exception: self.delete(); raise`: an exception of the clean-up takes the place of the first.
  unfoldable pub or_clean_up :
      {A : Type 0} → (D → Result A × D) → (D → Result ⊤ × D) → D → Result A × D
  or_clean_up m clean d =
      let (r, t) = m d in
      elim r [
        | ok a ↦ (ok a, t)
        | err e ↦ (let (c, u) = clean t in elim c [ ok _ ↦ (err e, u) | err f ↦ (err f, u) ])
      ]

-- `PyFSFileStorage` with `self.fileurl` and `self.clean_dir`.
module _ (fs : FileSystem) (digest : Digest) (fileurl : String) (clean_dir : Bool) where
  abbrev directory : String
  directory = fs.dirname fileurl

  abbrev name : String
  name = fs.basename fileurl

  -- `open("wb")`; `open("rb")` and `open("r+b")`
  abbrev pub open_to_write : fs.Disk → Result ⊤ × fs.Disk
  open_to_write = fs.opendir directory true >> fs.open_new directory name

  abbrev pub open_to_read : fs.Disk → Result ⊤ × fs.Disk
  open_to_read = fs.opendir directory false >> fs.open_existing directory name

  abbrev pub remove_file : fs.Disk → Result ⊤ × fs.Disk
  remove_file d =
      if is_some (fs.contents directory name d) then fs.remove directory name d else (ok tt, d)

  abbrev pub remove_child : String → String → fs.Disk → Result ⊤ × fs.Disk
  remove_child parent child d =
      if fs.has_directory parent child d then fs.removedir parent child d else (ok tt, d)

  abbrev pub remove_directory : fs.Disk → Result ⊤ × fs.Disk
  remove_directory d =
      let (parent, child) = fs.split directory in
      if clean_dir && not (str_eq child "")
      then (fs.opendir parent false >> remove_child parent child) d
      else (ok tt, d)

  -- `delete`
  unfoldable pub delete : fs.Disk → Result ⊤ × fs.Disk
  delete = fs.opendir directory false >> remove_file >> remove_directory

  abbrev open_any : fs.Disk → Result ⊤ × fs.Disk
  open_any d =
      if is_some (fs.contents directory name d)
      then fs.open_existing directory name d
      else fs.open_new directory name d

  -- `initialize`
  unfoldable pub initialize : ℕ → fs.Disk → Result (String × ℕ × Option String) × fs.Disk
  unfolding delete or_clean_up
  initialize size =
      fs.opendir directory true
      >> open_any
      >> or_clean_up (fs.truncate directory name size) delete
      >> done (ok (fileurl, size, none))

  -- The `while 1` loop of `_write_stream` into the open file, from a position of it on: the size
  -- checks come before each read, and each chunk is written before the next check.
  unfoldable pub copy_chunks :
      Option FileSizeLimit → Option ℤ → Stream → ℕ → ℕ → fs.Disk → Result ℕ × fs.Disk
  unfolding check_sizelimit
  copy_chunks size_limit size [] position written =
      done (check_sizelimit size_limit written size) >> done (ok written)
  copy_chunks size_limit size (c ∷ rest) position written =
      done (check_sizelimit size_limit written size)
      >> (fs.write directory name position c
          >> copy_chunks size_limit size rest (position + length c) (written + length c))

  -- The end of `_write_stream`: where the loop ended without an exception, the digest was fed every
  -- chunk.
  abbrev pub finish : Stream → Option ℤ → ℕ → fs.Disk → Result (ℕ × Option String) × fs.Disk
  finish stream size n =
      done (check_size n size) >> done (ok (n, some (compute_checksum digest "md5" stream)))

  -- `_write_stream` into the open file.
  unfoldable pub write_from :
      ℕ → Stream → Option FileSizeLimit → Option ℤ → fs.Disk → Result (ℕ × Option String) × fs.Disk
  unfolding copy_chunks check_size
  write_from position stream size_limit size =
      copy_chunks size_limit size stream position 0 >>= finish stream size

  -- `save`
  unfoldable pub save :
      Stream
      → Option FileSizeLimit
      → Option ℤ
      → fs.Disk
      → Result (String × ℕ × Option String) × fs.Disk
  unfolding write_from or_clean_up delete
  save stream size_limit size =
      open_to_write >> or_clean_up (write_from 0 stream size_limit size) delete >>= λ (n, checksum).
      done (ok (fileurl, n, checksum))

  -- `update`
  unfoldable pub update : Stream → ℕ → Option ℤ → fs.Disk → Result (ℕ × Option String) × fs.Disk
  unfolding write_from
  update stream seek size = open_to_read >> write_from seek stream none size

  abbrev pub digested : Result Stream → Result (Option String)
  digested (ok s) = ok (some (compute_checksum digest "md5" s))
  digested (err e) = err (storage_error "Could not compute checksum of file")

  -- `checksum` of storage/base.py
  unfoldable pub checksum : fs.Disk → Result (Option String) × fs.Disk
  checksum = open_to_read >> λ d. (digested (fs.read directory name d), d)

  -- `copy` of storage/base.py: the source is open while it is saved.
  unfoldable pub copy :
      (fs.Disk → Result Stream × fs.Disk) → fs.Disk → Result (String × ℕ × Option String) × fs.Disk
  unfolding save
  copy open_source = open_source >>= λ stream. save stream none none
