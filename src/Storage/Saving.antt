-- ===== src/Storage/Saving.antt =====
-- What is saved can be read again with the checksum that was returned, and what cannot be saved is
-- deleted.
use invenio_files_rest.Prelude.{
  ℕ, ◌+◌, arith, String, Bool, true, false, Option, none, some, List, [], ◌≡◌, refl, sym, ap, ◌∙◌,
  inl, inr, Bool-cases, Option-cases, str_eq, not, ◌&&◌,
}
use invenio_files_rest.Prelude.Int.{ℤ, pos, negsuc}
use invenio_files_rest.Prelude.Tables.{length}
use invenio_files_rest.Errors.{Error}
use invenio_files_rest.Schema.{FileSizeLimit}
use invenio_files_rest.Session.{Result, ok, err, ⊤}
use invenio_files_rest.Storage.Writing.{Stream, check_size}
use invenio_files_rest.Storage.Bounds.{
  bytes, Allowed, WithinLimit, WithinTotal, HasSize, HasSize-WithinTotal, check_size_ok,
}
use invenio_files_rest.Storage.Pyfs.{
  ◌>>◌, FileSystem, or_clean_up, done, copy_chunks, finish, open_to_read, digested, open_to_write,
  delete, remove_file, remove_child, remove_directory, save, checksum, write_from,
}
use mathlib.Core.Path.{subst}
use invenio_files_rest.Storage.Copying.{
  write_each, write_each-contents, copy_chunks_ok, copy_chunks_err,
}
use invenio_files_rest.Storage.Laws.{IsFileSystem, then_ok, then_run, then_err, kept, cleaned}
use invenio_files_rest.Helpers.Checksums.{
  Digest, IsDigest, compute_checksum, compute_checksum-bytes,
}

module _ (fs : FileSystem) (laws : IsFileSystem fs) (digest : Digest)
    (digest_laws : IsDigest digest) (fileurl : String) (clean_dir : Bool) where
  abbrev folder : String
  folder = fs.dirname fileurl

  abbrev file : String
  file = fs.basename fileurl

  abbrev open_file : fs.Disk → Result ⊤ × fs.Disk
  open_file = open_to_write fs digest fileurl clean_dir

  abbrev clean : fs.Disk → Result ⊤ × fs.Disk
  clean = delete fs digest fileurl clean_dir

  abbrev write_here : Stream → fs.Disk → Result ⊤ × fs.Disk
  write_here = write_each fs digest fileurl clean_dir 0

  abbrev checksum_here : fs.Disk → Result (Option String) × fs.Disk
  checksum_here = checksum fs digest fileurl clean_dir

  abbrev attempt :
      Stream → Option FileSizeLimit → Option ℤ → fs.Disk → Result (ℕ × Option String) × fs.Disk
  attempt stream limit size = write_from fs digest fileurl clean_dir 0 stream limit size

  abbrev saving :
      Stream → Option FileSizeLimit → Option ℤ → fs.Disk → Result (ℕ × Option String) × fs.Disk
  saving stream limit size = or_clean_up (attempt stream limit size) clean

  abbrev save_here :
      Stream
      → Option FileSizeLimit
      → Option ℤ
      → fs.Disk
      → Result (String × ℕ × Option String) × fs.Disk
  save_here = save fs digest fileurl clean_dir

  abbrev contents : fs.Disk → Option (List ℕ)
  contents d = fs.contents folder file d

  open_to_write-empty : (d t : fs.Disk) → open_file d ≡ (ok tt, t) → contents t ≡ some []
  open_to_write-empty d t opened =
      let (_, u, _, new) =
        then_ok (fs.opendir folder true) (λ _. fs.open_new folder file) d t tt opened in
      laws.open_new-empty folder file u t new

  checksum-there :
      (b : List ℕ) (stream : Stream) (d : fs.Disk)
      → contents d ≡ some b
      → bytes stream ≡ b
      → checksum_here d ≡ (ok (some (compute_checksum digest "md5" stream)), d)
  unfolding checksum
  checksum-there b stream d there same =
      let opened = laws.opendir-existing folder file b d there in
      let found = laws.open_existing-there folder file b d there in
      let (s, read, all) = laws.read-contents folder file b d there in
      let equal = compute_checksum-bytes digest digest_laws "md5" s stream (all ∙ sym same) in
      let ready =
        then_run (fs.opendir folder false) (λ _. fs.open_existing folder file) d d tt opened
        ∙ found in
      then_run (open_to_read fs digest fileurl clean_dir)
        (λ _ u. (digested fs digest fileurl clean_dir (fs.read folder file u), u)) d d tt ready
      ∙ ap (λ r. (digested fs digest fileurl clean_dir r, d)) read
      ∙ ap (λ c. (ok (some c), d)) equal

  remove_file-gone :
      (u v : fs.Disk) → remove_file fs digest fileurl clean_dir u ≡ (ok tt, v) → contents v ≡ none
  remove_file-gone u v removed = elim (Option-cases (contents u)) [
    | inl missing ↦ ap contents (sym (ap (λ p. p.1) (rw missing at removed))) ∙ missing
    | inr (b, there) ↦ laws.remove-gone folder file u v (rw there at removed)
  ]

  remove_child-none :
      (a b : String) (v t : fs.Disk)
      → contents v ≡ none
      → remove_child fs digest fileurl clean_dir a b v ≡ (ok tt, t)
      → contents t ≡ none
  remove_child-none a b v t missing removed = elim (Bool-cases (fs.has_directory a b v)) [
    | inl there ↦
        ap contents (sym (ap (λ p. p.1) (rw there at removed)))
        ∙ laws.removedir-none folder file a b v missing
    | inr gone ↦ ap contents (sym (ap (λ p. p.1) (rw gone at removed))) ∙ missing
  ]

  remove_directory-none :
      (v t : fs.Disk)
      → contents v ≡ none
      → remove_directory fs digest fileurl clean_dir v ≡ (ok tt, t)
      → contents t ≡ none
  remove_directory-none v t missing removed =
      let (parent, child) = fs.split folder in
      elim (Bool-cases (clean_dir && not (str_eq child ""))) [
        | inl clean ↦
            let (_, u, opened, after) =
              then_ok (fs.opendir parent false)
                (λ _. remove_child fs digest fileurl clean_dir parent child) v t tt
                (rw clean at removed) in
            remove_child-none parent child u t
              (ap contents (sym (ap (λ p. p.1) opened))
                ∙ laws.opendir-contents folder file parent false v
                ∙ missing)
              after
        | inr keep ↦ ap contents (sym (ap (λ p. p.1) (rw keep at removed))) ∙ missing
      ]

  delete-gone : (d t : fs.Disk) → clean d ≡ (ok tt, t) → contents t ≡ none
  unfolding delete
  delete-gone d t gone =
      let (_, v, before, after) =
        then_ok (fs.opendir folder false >> remove_file fs digest fileurl clean_dir)
          (λ _. remove_directory fs digest fileurl clean_dir) d t tt gone in
      let (_, u, opened, removed) =
        then_ok (fs.opendir folder false) (λ _. remove_file fs digest fileurl clean_dir) d v tt
          before in
      remove_directory-none v t (remove_file-gone u v removed) after

  abbrev end_of : Stream → Option ℤ → ℕ → fs.Disk → Result (ℕ × Option String) × fs.Disk
  end_of = finish fs digest fileurl clean_dir

  finish_ok :
      (stream : Stream) (size : Option ℤ) (n : ℕ) (t : fs.Disk)
      → HasSize size n
      → end_of stream size n t ≡ (ok (n, some (compute_checksum digest "md5" stream)), t)
  unfolding check_size
  finish_ok stream none n t whole = refl
  finish_ok stream (some (negsuc m)) n t whole = absurd whole
  finish_ok stream (some (pos m)) n t whole = rw (check_size_ok m n whole) refl

  write_from-whole :
      (stream : Stream) (limit : Option FileSizeLimit) (size : Option ℤ) (d t : fs.Disk)
      → WithinLimit limit (length (bytes stream))
      → HasSize size (length (bytes stream))
      → write_here stream d ≡ (ok tt, t)
      → attempt stream limit size d
        ≡ (ok (length (bytes stream), some (compute_checksum digest "md5" stream)), t)
  unfolding write_from
  write_from-whole stream limit size d t within whole written =
      let n = length (bytes stream) in
      let room : Allowed limit size (0 + n) =
        subst (Allowed limit size) (omega arith) (within, HasSize-WithinTotal size n whole) in
      then_run (copy_chunks fs digest fileurl clean_dir limit size stream 0 0) (end_of stream size)
        d t n
        (copy_chunks_ok fs digest fileurl clean_dir limit size stream 0 0 d t room written
          ∙ ap (λ m. (ok m, t)) (omega arith))
      ∙ finish_ok stream size n t whole

  write_from_err :
      (stream : Stream) (limit : Option FileSizeLimit) (size : Option ℤ) (d : fs.Disk)
      → (WithinLimit limit (length (bytes stream)) × WithinTotal size (length (bytes stream)) → ⊥)
      → (e : Error) × (t : fs.Disk) × (attempt stream limit size d ≡ (err e, t))
  unfolding write_from
  write_from_err stream limit size d too_long =
      let n = length (bytes stream) in
      let (e, t, stopped) =
        copy_chunks_err fs digest fileurl clean_dir limit size stream 0 0 d
          (λ w. too_long (subst (Allowed limit size) (omega arith) w)) in
      (
        e,
        t,
        then_err (copy_chunks fs digest fileurl clean_dir limit size stream 0 0)
            (end_of stream size) d t e stopped,
      )

  abbrev answer : ℕ × Option String → fs.Disk → Result (String × ℕ × Option String) × fs.Disk
  answer (n, sum) = done (ok (fileurl, n, sum))

  -- When a stream fits the size limit and has the announced size, the file can be opened and its
  -- chunks be written one after the other, save returns the URL, the number of bytes of the
  -- stream and the MD5 digest of the stream, the file then holds exactly the bytes of the stream,
  -- and computing its checksum, however the reads cut the file into chunks, returns the checksum
  -- that save returned. The file system and the digest behave as their documentation says.
  pub save-checksum :
      (stream : Stream) (limit : Option FileSizeLimit) (size : Option ℤ) (d u t : fs.Disk)
      → WithinLimit limit (length (bytes stream))
      → HasSize size (length (bytes stream))
      → open_file d ≡ (ok tt, u)
      → write_here stream u ≡ (ok tt, t)
      → let sum = some (compute_checksum digest "md5" stream) in
        (save_here stream limit size d ≡ (ok (fileurl, length (bytes stream), sum), t))
        × (fs.contents folder file t ≡ some (bytes stream))
        × (checksum_here t ≡ (ok sum, t))
  unfolding save
  save-checksum stream limit size d u t within whole opened written =
      let there =
        write_each-contents fs digest fileurl clean_dir laws stream [] u t
          (open_to_write-empty d u opened) written in
      let sum = some (compute_checksum digest "md5" stream) in
      (
        then_run (open_file >> saving stream limit size) answer d t (length (bytes stream), sum)
            (then_run open_file (λ _. saving stream limit size) d u tt opened
              ∙ kept (attempt stream limit size) clean u t (length (bytes stream), sum)
                  (write_from-whole stream limit size u t within whole written)),
        there,
        checksum-there (bytes stream) stream t there refl,
      )

  -- When a stream is longer than the size limit or than the announced size, the file can be
  -- opened and deleting it always returns, save raises and leaves no file, also where a write
  -- fails. The file system behaves as its documentation says.
  pub save_err :
      (stream : Stream) (limit : Option FileSizeLimit) (size : Option ℤ) (d u : fs.Disk)
      → (WithinLimit limit (length (bytes stream)) × WithinTotal size (length (bytes stream)) → ⊥)
      → open_file d ≡ (ok tt, u)
      → ((v : fs.Disk) → (clean v).0 ≡ ok tt)
      → (e : Error) × (t : fs.Disk) × (save_here stream limit size d ≡ (err e, t))
        × (fs.contents folder file t ≡ none)
  unfolding save
  save_err stream limit size d u too_long opened deletes =
      let (f, v, broken) = write_from_err stream limit size u too_long in
      let t = (clean v).1 in
      let clear : clean v ≡ (ok tt, t) = ap (λ r. (r, t)) (deletes v) in
      (
        f,
        t,
        then_err (open_file >> saving stream limit size) answer d t f (
            then_run open_file (λ _. saving stream limit size) d u tt opened
            ∙ cleaned (attempt stream limit size) clean u v t f broken clear),
        delete-gone v t clear,
      )
